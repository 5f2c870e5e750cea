-- ===== src/Tests/Hashing.antt =====
-- The theorems on sha256 at small inputs, and the standard test vectors.
use academia_cr.Prelude.{ℕ, ◌+◌, ◌%◌, ◌≤◌, ◌<◌, ◌≡◌, refl, List, [], ◌∷◌, arith, length}
use academia_cr.Sha256.{sha256}
use academia_cr.Sha256.Padding.{pad}
use academia_cr.Sha256.Padding.Length.{pad_chunks}
use academia_cr.Sha256.Padding.Injective.{pad_injective}

abbrev abc : List ℕ
abc = b'a' ∷ b'b' ∷ b'c' ∷ []

sha256_empty : sha256 [] ≡ "e3b0c44298fc1c149afbf4c8996fb92427ae41e4649b934ca495991b7852b855"
unfolding sha256
sha256_empty = refl

sha256-abc : sha256 abc ≡ "ba7816bf8f01cfea414140de5dae2223b00361a396177a9cb410ff61f20015ad"
unfolding sha256
sha256-abc = refl

pad_chunks_example :
    (length (pad abc) % 64 ≡ 0)
    × (length abc + 9 ≤ length (pad abc))
    × (length (pad abc) < length abc + 9 + 64)
pad_chunks_example = pad_chunks abc

pad_injective_example : abc ≡ abc
pad_injective_example = pad_injective abc abc (omega arith) (omega arith) refl
