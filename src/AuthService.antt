-- ===== src/AuthService.antt =====
-- backend/include/services/AuthService.hpp without sha256, and
-- backend/include/middleware/AuthMiddleware.hpp. The random token of generate_token is an argument.
pub mod Sessions
pub mod Header
use Prim.Native.Char.{code}
use Prim.Native.String
use academia_cr.Prelude.{
  ℕ, zero, suc, ◌+◌, ◌-◌, ◌*◌, ◌/◌, ◌%◌, ◌^◌, String, str_append, str_eq, Bool, true, false, not,
  Option, none, some, List, [], ◌∷◌, ◌++◌, ltb, if◌then◌else◌,
}
use academia_cr.Models.{Role, admin, faculty, student, User}
use academia_cr.Database.{Tables, Connection, Answers}
use academia_cr.UserRepository
use academia_cr.UserRepository.{
  find_by_id, find_by_username, create_session, validate_session, delete_session, same_role,
}
use academia_cr.Text.{is_empty, drop_prefix}
use academia_cr.Sha256.{sha256}

-- The UTF-8 bytes of a character, as a std::string holds them.
char_bytes : ℕ → List ℕ
char_bytes n =
    if ltb n 0x80
    then n ∷ []
    else if ltb n 0x800
    then (0xc0 + n / 0x40) ∷ (0x80 + n % 0x40) ∷ []
    else if ltb n 0x10000
    then (0xe0 + n / 0x1000) ∷ (0x80 + n / 0x40 % 0x40) ∷ (0x80 + n % 0x40) ∷ []
    else (0xf0 + n / 0x40000)
      ∷ (0x80 + n / 0x1000 % 0x40)
      ∷ (0x80 + n / 0x40 % 0x40)
      ∷ (0x80 + n % 0x40)
      ∷ []

bytes : String → List ℕ
bytes String.[] = []
bytes (String.◌∷◌ c s) = char_bytes (code c) ++ bytes s

-- AuthService::hash_password
unfoldable pub hash_password : String → String
unfolding bytes char_bytes sha256
hash_password password = sha256 (bytes (str_append "academia_salt_" password))

-- User{}: the value of a failed login
abbrev pub default_user : User
default_user = record {
  id = 0;
  username = "";
  password_hash = "";
  role = student;
  name = "";
  email = "";
  active = true;
  created_at = 0;
}

-- AuthService::LoginResult
pub record LoginResult : Type 0 where
  pub success : Bool
  pub token : String
  pub user : User
  pub error : String

abbrev pub login_failed : String → LoginResult
login_failed error = record { success = false; token = ""; user = default_user; error = error }

-- login for the user that find_by_username gave
unfoldable pub login_as :
    Answers → ℕ → String → String → User → Connection → LoginResult × Connection
login_as e now token password user c =
    if not user.active
    then (login_failed "Account is deactivated", c)
    else if not (str_eq (hash_password password) user.password_hash)
    then (login_failed "Invalid username or password", c)
    else (
      record { success = true; token = token; user = user; error = "" },
      create_session e now token user.id c,
    )

-- AuthService::login
unfoldable pub login :
    Answers → ℕ → String → String → String → Connection → LoginResult × Connection
unfolding login_as
login e now token username password c = elim (find_by_username c.tables username) [
  | none ↦ (login_failed "Invalid username or password", c)
  | some user ↦ login_as e now token password user c
]

-- AuthService::logout, which always returns true
unfoldable pub logout : Answers → String → Connection → Connection
logout e token c = delete_session e token c

-- AuthService::validate_token
unfoldable pub validate_token : Tables → ℕ → String → Option User
validate_token t now token = elim (validate_session t now token) [
  | none ↦ none
  | some user_id ↦ find_by_id t user_id
]

-- AuthService::has_role
unfoldable pub has_role : User → Role → Bool
has_role user required = elim user.role [
  | admin ↦ true
  | faculty ↦ same_role faculty required
  | student ↦ same_role student required
]

validate_rest : Tables → ℕ → Option String → Option User
validate_rest t now none = none
validate_rest t now (some token) = if is_empty token then none else validate_token t now token

-- authenticate_request
unfoldable pub authenticate_request : Tables → ℕ → String → Option User
unfolding validate_rest
authenticate_request t now auth_header =
    if is_empty auth_header then none else validate_rest t now (drop_prefix "Bearer " auth_header)
