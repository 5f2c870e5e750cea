-- ===== src/Sha256/Words.antt =====
-- The constants, the message schedule and the round of sha256.
use Prim.Native.Nat.{bit_and, bit_or, bit_xor}
use mathlib.Core.List.{reverse}
use academia_cr.Prelude.{ℕ, zero, suc, ◌+◌, ◌-◌, ◌*◌, ◌/◌, ◌%◌, ◌^◌, List, [], ◌∷◌}

abbrev pub word_mod : ℕ
word_mod = 2 ^ 32

-- uint32_t addition
abbrev pub add32 : ℕ → ℕ → ℕ
add32 x y = (x + y) % word_mod

-- ~x
abbrev pub not32 : ℕ → ℕ
not32 x = word_mod - 1 - x

-- x >> n
abbrev pub shr : ℕ → ℕ → ℕ
shr x n = x / 2 ^ n

-- rotr
abbrev pub rotr : ℕ → ℕ → ℕ
rotr x n = bit_or (shr x n) (x * 2 ^ (32 - n) % word_mod)

-- the table k
abbrev pub round_constants : List ℕ
round_constants =
    0x428a2f98 ∷ 0x71374491 ∷ 0xb5c0fbcf ∷ 0xe9b5dba5 ∷ 0x3956c25b ∷ 0x59f111f1 ∷ 0x923f82a4
    ∷ 0xab1c5ed5 ∷ 0xd807aa98 ∷ 0x12835b01 ∷ 0x243185be ∷ 0x550c7dc3 ∷ 0x72be5d74 ∷ 0x80deb1fe
    ∷ 0x9bdc06a7 ∷ 0xc19bf174 ∷ 0xe49b69c1 ∷ 0xefbe4786 ∷ 0x0fc19dc6 ∷ 0x240ca1cc ∷ 0x2de92c6f
    ∷ 0x4a7484aa ∷ 0x5cb0a9dc ∷ 0x76f988da ∷ 0x983e5152 ∷ 0xa831c66d ∷ 0xb00327c8 ∷ 0xbf597fc7
    ∷ 0xc6e00bf3 ∷ 0xd5a79147 ∷ 0x06ca6351 ∷ 0x14292967 ∷ 0x27b70a85 ∷ 0x2e1b2138 ∷ 0x4d2c6dfc
    ∷ 0x53380d13 ∷ 0x650a7354 ∷ 0x766a0abb ∷ 0x81c2c92e ∷ 0x92722c85 ∷ 0xa2bfe8a1 ∷ 0xa81a664b
    ∷ 0xc24b8b70 ∷ 0xc76c51a3 ∷ 0xd192e819 ∷ 0xd6990624 ∷ 0xf40e3585 ∷ 0x106aa070 ∷ 0x19a4c116
    ∷ 0x1e376c08 ∷ 0x2748774c ∷ 0x34b0bcb5 ∷ 0x391c0cb3 ∷ 0x4ed8aa4a ∷ 0x5b9cca4f ∷ 0x682e6ff3
    ∷ 0x748f82ee ∷ 0x78a5636f ∷ 0x84c87814 ∷ 0x8cc70208 ∷ 0x90befffa ∷ 0xa4506ceb ∷ 0xbef9a3f7
    ∷ 0xc67178f2 ∷ []

abbrev pub get_or : List ℕ → ℕ → ℕ → ℕ
get_or [] i d = d
get_or (x ∷ xs) zero d = x
get_or (x ∷ xs) (suc i) d = get_or xs i d

-- w[0] to w[15]: big-endian words of a chunk's bytes
unfoldable pub words_of : List ℕ → List ℕ
words_of (a ∷ b ∷ c ∷ d ∷ rest) =
    bit_or (bit_or (bit_or (a * 2 ^ 24 % word_mod) (b * 2 ^ 16)) (c * 2 ^ 8)) d ∷ words_of rest
words_of _ = []

-- s0 and s1 of the schedule
abbrev pub sigma0 : ℕ → ℕ
sigma0 x = bit_xor (bit_xor (rotr x 7) (rotr x 18)) (shr x 3)

abbrev pub sigma1 : ℕ → ℕ
sigma1 x = bit_xor (bit_xor (rotr x 17) (rotr x 19)) (shr x 10)

-- w[i], from the words before it, the last one first
abbrev pub next_word : List ℕ → ℕ
next_word ws =
    add32 (add32 (add32 (get_or ws 15 0) (sigma0 (get_or ws 14 0))) (get_or ws 6 0))
      (sigma1 (get_or ws 1 0))

-- for (int i = 16; i < 64; ++i), with the rounds that are left
unfoldable pub extend : ℕ → List ℕ → List ℕ
extend zero ws = ws
extend (suc n) ws = extend n (next_word ws ∷ ws)

-- w[0] to w[63]
unfoldable pub schedule : List ℕ → List ℕ
unfolding words_of extend
schedule bytes = reverse (extend 48 (reverse (words_of bytes)))

-- a to hh
pub record Vars : Type 0 where
  pub a : ℕ
  pub b : ℕ
  pub c : ℕ
  pub d : ℕ
  pub e : ℕ
  pub f : ℕ
  pub g : ℕ
  pub h : ℕ

-- temp1
abbrev pub temp1 : ℕ → ℕ → Vars → ℕ
temp1 k w v =
    add32
      (add32
        (add32 (add32 v.h (bit_xor (bit_xor (rotr v.e 6) (rotr v.e 11)) (rotr v.e 25)))
          (bit_xor (bit_and v.e v.f) (bit_and (not32 v.e) v.g)))
        k)
      w

-- temp2
abbrev pub temp2 : Vars → ℕ
temp2 v =
    add32 (bit_xor (bit_xor (rotr v.a 2) (rotr v.a 13)) (rotr v.a 22))
      (bit_xor (bit_xor (bit_and v.a v.b) (bit_and v.a v.c)) (bit_and v.b v.c))

-- one round
unfoldable pub round : ℕ → ℕ → Vars → Vars
round k w v =
    let t : ℕ = temp1 k w v in
    record {
      a = add32 t (temp2 v);
      b = v.a;
      c = v.b;
      d = v.c;
      e = add32 v.d t;
      f = v.e;
      g = v.f;
      h = v.g;
    }
