-- ===== src/Text.antt =====
-- The operations on std::string that the services use: emptiness, prefixes, substrings, std::to_string.
use Prim.Native.Char.{code}
use academia_cr.Prelude.{
  ℕ, zero, suc, ◌/◌, ◌%◌, String, str_append, Bool, true, false, ◌||◌, Option, none, some, ◌==◌,
  ltb, if◌then◌else◌,
}

-- s.empty()
abbrev pub is_empty : String → Bool
is_empty String.[] = true
is_empty (String.◌∷◌ c s) = false

-- `some rest` if s is prefix followed by rest: the test s.substr(0, prefix.size()) == prefix and
-- the value s.substr(prefix.size())
unfoldable pub drop_prefix : String → String → Option String
drop_prefix String.[] s = some s
drop_prefix (String.◌∷◌ c p) String.[] = none
drop_prefix (String.◌∷◌ c p) (String.◌∷◌ d s) = if code c == code d then drop_prefix p s else none

abbrev is_some : Option String → Bool
is_some none = false
is_some (some s) = true

-- s.find(part) != npos
unfoldable pub contains : String → String → Bool
unfolding drop_prefix
contains String.[] part = is_some (drop_prefix part String.[])
contains (String.◌∷◌ c s) part = is_some (drop_prefix part (String.◌∷◌ c s)) || contains s part

digit : ℕ → String
digit zero = "0"
digit (suc zero) = "1"
digit (suc (suc zero)) = "2"
digit (suc (suc (suc zero))) = "3"
digit (suc (suc (suc (suc zero)))) = "4"
digit (suc (suc (suc (suc (suc zero))))) = "5"
digit (suc (suc (suc (suc (suc (suc zero)))))) = "6"
digit (suc (suc (suc (suc (suc (suc (suc zero))))))) = "7"
digit (suc (suc (suc (suc (suc (suc (suc (suc zero)))))))) = "8"
digit n = "9"

decimal : ℕ → ℕ → String
decimal zero n = ""
decimal (suc f) n =
    let front = decimal f (n / 10) in
    if ltb n 10 then digit n else str_append front (digit (n % 10))

-- std::to_string of a number that is not negative
unfoldable pub to_string : ℕ → String
unfolding decimal digit
to_string n = decimal (suc n) n

-- the order of SQLite's BINARY collation, in which ORDER BY puts texts
unfoldable pub text_before : String → String → Bool
text_before String.[] t = true
text_before (String.◌∷◌ c s) String.[] = false
text_before (String.◌∷◌ c s) (String.◌∷◌ d t) =
    let rest = text_before s t in if code c == code d then rest else ltb (code c) (code d)
