-- ===== src/FileOps/Validation.antt =====
-- academia/file_ops.c: the checks of ids, names, passwords and numbers. A character is one byte, and
-- isalnum, isalpha and isdigit are those of the C locale; atoi is the C library's.
pub mod Accepted
use Prim.Native.Char.{Char, code}
use Prim.Native.String
use Prim.Native.String.{count}
use academia_cr.Prelude.{
  ℕ, String, Bool, true, false, not, ◌&&◌, ◌||◌, ◌==◌, ltb, leb, ℤ, pos, ltb_ℤ, if◌then◌else◌,
}
use academia_cr.FileOps.{max_id, max_name, max_pass, err_invalid_input}

abbrev pub in_range : ℕ → ℕ → Char → Bool
in_range low high c = leb low (code c) && leb (code c) high

abbrev pub is_digit : Char → Bool
is_digit c = in_range 48 57 c

abbrev pub is_alpha : Char → Bool
is_alpha c = in_range 65 90 c || in_range 97 122 c

abbrev pub is_alnum : Char → Bool
is_alnum c = is_alpha c || is_digit c

-- the loops that refuse at the first character that fails the test
unfoldable pub every : (Char → Bool) → String → Bool
every p String.[] = true
every p (String.◌∷◌ c s) = p c && every p s

-- strlen(s) == 0 || strlen(s) >= size
abbrev pub bad_length : String → ℕ → Bool
bad_length s size = count s == 0 || leb size (count s)

-- validate_id
unfoldable pub validate_id : String → ℤ
unfolding every
validate_id id =
    if bad_length id max_id
    then err_invalid_input
    else if every is_alnum id
    then pos 0
    else err_invalid_input

abbrev pub is_name_char : Char → Bool
is_name_char c = is_alpha c || (code c == 32 || code c == 46)

-- validate_name
unfoldable pub validate_name : String → ℤ
unfolding every
validate_name name =
    if bad_length name max_name
    then err_invalid_input
    else if every is_name_char name
    then pos 0
    else err_invalid_input

-- validate_password
unfoldable pub validate_password : String → ℤ
validate_password password = if bad_length password max_pass then err_invalid_input else pos 0

module _ (atoi : String → ℤ) where
  -- validate_number
  unfoldable pub validate_number : String → ℤ → ℤ → ℤ
  unfolding every
  validate_number input low high =
      if every is_digit input
      then (if ltb_ℤ (atoi input) low || ltb_ℤ high (atoi input)
          then err_invalid_input
          else atoi input)
      else err_invalid_input
