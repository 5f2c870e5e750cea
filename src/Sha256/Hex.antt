-- ===== src/Sha256/Hex.antt =====
-- The text of a digest.
use Prim.Native.String.{count}
use text.Mathlib.TextLemmas.{length-append, length-cons, length-nil}
use academia_cr.Prelude.{ℕ, zero, suc, ◌/◌, ◌%◌, ◌^◌, ◌≡◌, ◌∙◌, ap, List}
use academia_cr.Sha256.Words.{Vars}
use academia_cr.Sha256.{hex, hex_char, hex_digest, digest, sha256}

count-hex : (n val : ℕ) → count (hex n val) ≡ n
unfolding hex
count-hex zero val = length-nil
count-hex (suc n) val =
    length-cons (hex_char (val / 16 ^ n % 16)) (hex n val) ∙ ap suc (count-hex n val)

count-hex_digest : (v : Vars) → count (hex_digest v) ≡ 64
unfolding hex_digest
count-hex_digest v = simp (
  length-append,
  count-hex 8 v.a,
  count-hex 8 v.b,
  count-hex 8 v.c,
  count-hex 8 v.d,
  count-hex 8 v.e,
  count-hex 8 v.f,
  count-hex 8 v.g,
  count-hex 8 v.h,
)

-- Every hash is a text of 64 characters.
pub count-sha256 : (input : List ℕ) → count (sha256 input) ≡ 64
unfolding sha256
count-sha256 input = count-hex_digest (digest input)
