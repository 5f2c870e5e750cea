-- ===== src/Sha256/Padding.antt =====
-- The padding of sha256: 0x80, zeros up to 56 modulo 64, and the length in bits as eight bytes.
pub mod Length
pub mod Injective
use academia_cr.Prelude.{
  ℕ, zero, suc, ◌+◌, ◌-◌, ◌*◌, ◌/◌, ◌%◌, ◌^◌, ◌<◌, ◌≤◌, ◌≡◌, refl, List, [], ◌∷◌, ◌++◌, arith, ◌==◌,
  if◌then◌else◌, length, length-append, take, drop,
}

-- while (msg.size() % 64 != 56) msg.push_back(0), with fuel: the bytes that it appends
pub zeros : ℕ → ℕ → List ℕ
zeros zero size = []
zeros (suc f) size = let rest = zeros f (size + 1) in if size % 64 == 56 then [] else 0 ∷ rest

-- for (int i = 7; i >= 0; --i): byte i of the length, the highest first
pub length_bytes : ℕ → ℕ → List ℕ
length_bytes zero bit_len = []
length_bytes (suc i) bit_len = bit_len / 2 ^ (i * 8) % 256 ∷ length_bytes i bit_len

-- uint64_t bit_len = msg.size() * 8
abbrev pub bit_length : List ℕ → ℕ
bit_length input = length input * 8 % 2 ^ 64

-- msg after the pre-processing
unfoldable pub pad : List ℕ → List ℕ
unfolding zeros length_bytes
pad input = input ++ (0x80 ∷ (zeros 64 (length input + 1) ++ length_bytes 8 (bit_length input)))
