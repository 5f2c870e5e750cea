-- ===== src/Sha256/Padding/Length.antt =====
-- The padded message: its length, and that it determines the input.
use academia_cr.Prelude.{
  ℕ, zero, suc, ◌+◌, ◌-◌, ◌*◌, ◌%◌, ◌^◌, ◌<◌, ◌≤◌, ◌≡◌, refl, ap, inl, inr, List, [], ◌∷◌, ◌++◌,
  arith, ◌==◌, Bool-cases, length, length-append,
}
use academia_cr.Sha256.Padding.{zeros, length_bytes, bit_length, pad}

-- The zeros that are missing up to 56 modulo 64.
abbrev pub missing : ℕ → ℕ
missing size = (120 - size % 64) % 64

-- The loop ends by its test, after the missing zeros, if its fuel exceeds their number.
length-zeros : (f size : ℕ) → missing size < f → length (zeros f size) ≡ missing size
unfolding zeros
length-zeros zero size h = elim h [ ]
length-zeros (suc f) size h = elim (Bool-cases (size % 64 == 56)) [
  | inl e ↦ ground arith
  | inr e ↦ ground (arith, length-zeros f (size + 1))
]

pub length-length_bytes : (n bit_len : ℕ) → length (length_bytes n bit_len) ≡ n
unfolding length_bytes
length-length_bytes zero b = refl
length-length_bytes (suc n) b = ap suc (length-length_bytes n b)

pub length-pad :
    (input : List ℕ) → length (pad input) ≡ length input + 9 + missing (length input + 1)
unfolding pad
length-pad input =
    let z = zeros 64 (length input + 1) in
    let b = length_bytes 8 (bit_length input) in
    omega (
      arith,
      length-append input (0x80 ∷ (z ++ b)),
      length-append z b,
      length-zeros 64 (length input + 1) (omega arith),
      length-length_bytes 8 (bit_length input),
    )

-- The padded message is a whole number of 64-byte chunks, the fewest that hold the input and nine
-- more bytes.
pub pad_chunks :
    (input : List ℕ)
    → (length (pad input) % 64 ≡ 0)
      × (length input + 9 ≤ length (pad input))
      × (length (pad input) < length input + 9 + 64)
pad_chunks input = (
  omega (arith, length-pad input),
  omega (arith, length-pad input),
  omega (arith, length-pad input),
)

-- The number that the eight bytes spell.
pub big_endian : ℕ → List ℕ → ℕ
big_endian acc [] = acc
big_endian acc (b ∷ bs) = big_endian (acc * 256 + b) bs

pub big_endian-length_bytes : (n : ℕ) → n < 2 ^ 64 → big_endian 0 (length_bytes 8 n) ≡ n
unfolding big_endian length_bytes
big_endian-length_bytes n h = omega arith
