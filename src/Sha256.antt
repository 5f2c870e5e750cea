-- ===== src/Sha256.antt =====
-- AuthService::sha256 of backend/include/services/AuthService.hpp, over the bytes of its input.
-- A uint32_t is a number below 2 ^ 32, with its wrap-around written out.
pub mod Hex
pub mod Words
pub mod Padding
use Prim.Native.Char.{Char}
use Prim.Native.String
use academia_cr.Prelude.{
  ℕ, zero, suc, ◌+◌, ◌-◌, ◌*◌, ◌/◌, ◌%◌, ◌^◌, String, str_append, List, [], ◌∷◌, ◌==◌,
  if◌then◌else◌, length, take, drop,
}
use Words.{word_mod, add32, schedule, round_constants, Vars, round}
use Padding.{pad}

-- for (int i = 0; i < 64; ++i) of one chunk
unfoldable pub rounds : List ℕ → List ℕ → Vars → Vars
unfolding round
rounds (k ∷ ks) (w ∷ ws) v = rounds ks ws (round k w v)
rounds _ _ v = v

-- h0 += a; ... h7 += hh
abbrev pub add_vars : Vars → Vars → Vars
add_vars x y = record {
  a = add32 x.a y.a;
  b = add32 x.b y.b;
  c = add32 x.c y.c;
  d = add32 x.d y.d;
  e = add32 x.e y.e;
  f = add32 x.f y.f;
  g = add32 x.g y.g;
  h = add32 x.h y.h;
}

-- one 64-byte chunk
unfoldable pub chunk : List ℕ → Vars → Vars
unfolding rounds schedule
chunk bytes v = add_vars v (rounds round_constants (schedule bytes) v)

-- for (size_t offset = 0; offset < msg.size(); offset += 64), with the number of chunks
unfoldable pub chunks : ℕ → List ℕ → Vars → Vars
unfolding chunk
chunks zero msg v = v
chunks (suc n) msg v = chunks n (drop 64 msg) (chunk (take 64 msg) v)

abbrev pub initial_vars : Vars
initial_vars = record {
  a = 0x6a09e667;
  b = 0xbb67ae85;
  c = 0x3c6ef372;
  d = 0xa54ff53a;
  e = 0x510e527f;
  f = 0x9b05688c;
  g = 0x1f83d9ab;
  h = 0x5be0cd19;
}

-- h0 to h7 after all chunks
unfoldable pub digest : List ℕ → Vars
unfolding chunks pad
digest input = chunks (length (pad input) / 64) (pad input) initial_vars

-- one digit of std::hex
hex_char : ℕ → Char
hex_char n =
    if n == 0
    then "0"
    else if n == 1
    then "1"
    else if n == 2
    then "2"
    else if n == 3
    then "3"
    else if n == 4
    then "4"
    else if n == 5
    then "5"
    else if n == 6
    then "6"
    else if n == 7
    then "7"
    else if n == 8
    then "8"
    else if n == 9
    then "9"
    else if n == 10
    then "a"
    else if n == 11
    then "b"
    else if n == 12
    then "c"
    else if n == 13
    then "d"
    else if n == 14
    then "e"
    else "f"

-- std::hex << std::setfill('0') << std::setw(n)
hex : ℕ → ℕ → String
hex zero val = String.[]
hex (suc n) val = String.◌∷◌ (hex_char (val / 16 ^ n % 16)) (hex n val)

-- the text of the eight words
unfoldable pub hex_digest : Vars → String
unfolding hex hex_char
hex_digest v = str_append (hex 8 v.a) (
    str_append (hex 8 v.b) (
      str_append (hex 8 v.c) (
        str_append (hex 8 v.d)
          (str_append (hex 8 v.e) (str_append (hex 8 v.f) (str_append (hex 8 v.g) (hex 8 v.h)))))))

-- AuthService::sha256
unfoldable pub sha256 : List ℕ → String
unfolding hex_digest digest
sha256 input = hex_digest (digest input)
