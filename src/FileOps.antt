-- ===== src/FileOps.antt =====
-- academia/file_ops.c and academia.h: the records that the older C server keeps in users.dat,
-- students.dat, faculty.dat and courses.dat. A char array is the text that it holds, up to its first
-- NUL; an operation runs with file_sem held from its open to its close.
pub mod Validation
pub mod Accounts
pub mod Catalog
pub mod Enrolment
pub mod Unenrolment
pub mod Views
pub mod Entries
pub mod Records
pub mod Agreement
pub mod History
use Prim.Native.String
use academia_cr.Prelude.{
  ℕ, zero, suc, String, Bool, true, false, Option, none, some, List, [], ◌∷◌, ◌++◌, ℤ, pos, negsuc,
  str_eq, if◌then◌else◌, length, str_append,
}

abbrev pub max_courses : ℕ
max_courses = 100

abbrev pub max_users : ℕ
max_users = 100

abbrev pub max_name : ℕ
max_name = 50

abbrev pub max_pass : ℕ
max_pass = 50

abbrev pub max_id : ℕ
max_id = 10

-- the error codes
abbrev pub err_not_found : ℤ
err_not_found = negsuc 0

abbrev pub err_full : ℤ
err_full = negsuc 1

abbrev pub err_already_enrolled : ℤ
err_already_enrolled = negsuc 2

abbrev pub err_not_enrolled : ℤ
err_not_enrolled = negsuc 3

abbrev pub err_invalid_input : ℤ
err_invalid_input = negsuc 4

abbrev pub err_course_not_found : ℤ
err_course_not_found = negsuc 5

-- the -1 that is returned where a file cannot be opened or a record is not there
abbrev pub failed : ℤ
failed = negsuc 0

pub data Role : Type 0 where
  admin student faculty : Role

pub record User : Type 0 where
  pub id : String
  pub role : Role
  pub password : String

pub record Course : Type 0 where
  pub id : String
  pub name : String
  pub faculty_id : String
  pub total_seats : ℤ
  pub enrolled_count : ℤ
  pub enrolled_students : List String

pub record Student : Type 0 where
  pub id : String
  pub name : String
  pub active : Bool
  pub enrolled_courses : List String

pub record Faculty : Type 0 where
  pub id : String
  pub name : String

-- The four files, each with its records in order; `none` while there is no such file.
pub record Files : Type 0 where
  pub users : Option (List User)
  pub students : Option (List Student)
  pub faculty : Option (List Faculty)
  pub courses : Option (List Course)

-- What the system decides: whether each file, and the temporary one, can be opened.
pub record Opens : Type 0 where
  pub users_open : Bool
  pub students_open : Bool
  pub faculty_open : Bool
  pub courses_open : Bool
  pub temp_open : Bool

-- A call returns, or first reads or writes outside of an array.
pub data Outcome {ℓ} (A : Type ℓ) : Type ℓ where
  returns : A → Outcome A
  overflow : Outcome A

-- the text in an array of `size` bytes after strncpy(array, text, size)
unfoldable pub strncpy : String → ℕ → String
strncpy String.[] n = ""
strncpy (String.◌∷◌ c s) zero = ""
strncpy (String.◌∷◌ c s) (suc n) = String.◌∷◌ c (strncpy s n)

module _ {ℓ} {A : Type ℓ} where
  -- open without O_CREAT
  abbrev pub open_file : Bool → Option A → Option A
  open_file true file = file
  open_file false file = none

  -- open with O_CREAT
  abbrev pub create_file : Bool → Option (List A) → Option (List A)
  create_file true none = some []
  create_file true (some records) = some records
  create_file false file = none

  -- the loop that reads up to the first record of `p` and writes f of it in its place
  unfoldable pub update_first : (A → Bool) → (A → A) → List A → List A
  update_first p f [] = []
  update_first p f (x ∷ xs) = let rest = update_first p f xs in if p x then f x ∷ xs else x ∷ rest
