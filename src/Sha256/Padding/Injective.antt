-- ===== src/Sha256/Padding/Injective.antt =====
-- Different inputs have different padded messages.
use mathlib.Core.Path.{ap₂}
use mathlib.Core.List.{append_assoc}
use academia_cr.Prelude.{
  ℕ, ◌+◌, ◌*◌, ◌^◌, ◌<◌, ◌≡◌, ◌∙◌, sym, ap, List, ◌∷◌, ◌++◌, arith, length, take, drop, take-append,
  drop-append, length-append,
}
use academia_cr.Sha256.Padding.{zeros, length_bytes, bit_length, pad}
use academia_cr.Sha256.Padding.Length.{length-length_bytes, big_endian, big_endian-length_bytes}

module _ (input : List ℕ) where
  -- The input, 0x80 and the zeros.
  front : List ℕ
  front = input ++ 0x80 ∷ zeros 64 (length input + 1)

  trailer : List ℕ
  trailer = length_bytes 8 (bit_length input)

  pad-front : pad input ≡ front ++ trailer
  unfolding pad front trailer
  pad-front =
      sym (
        append_assoc input (0x80 ∷ zeros 64 (length input + 1)) (length_bytes 8 (bit_length input)))

  length-front : length front + 8 ≡ length (pad input)
  unfolding trailer
  length-front = omega (
    arith,
    ap length pad-front,
    length-append front trailer,
    length-length_bytes 8 (bit_length input),
  )

  pad-trailer : drop (length front) (pad input) ≡ trailer
  pad-trailer = rw pad-front (drop-append front trailer)

  pad-input : take (length input) (pad input) ≡ input
  unfolding pad
  pad-input = take-append input _

  length-trailer : length input * 8 < 2 ^ 64 → big_endian 0 trailer ≡ length input * 8
  unfolding trailer
  length-trailer h = big_endian-length_bytes (bit_length input) (omega arith) ∙ omega arith

-- Two inputs of fewer than 2 ^ 61 bytes with the same padded message are equal.
pub pad_injective :
    (x y : List ℕ) → length x * 8 < 2 ^ 64 → length y * 8 < 2 ^ 64 → pad x ≡ pad y → x ≡ y
pad_injective x y hx hy h = sym (pad-input x) ∙ (ap₂ take same h ∙ pad-input y)
  where
    fronts : length (front x) ≡ length (front y)
    fronts = omega (arith, length-front x, length-front y, ap length h)

    trailers : trailer x ≡ trailer y
    trailers = sym (pad-trailer x) ∙ (ap₂ drop fronts h ∙ pad-trailer y)

    same : length x ≡ length y
    same = omega (arith, length-trailer x hx, length-trailer y hy, ap (big_endian 0) trailers)
