-- ===== src/Models.antt =====
-- backend/include/models/{User,Course,Registration}.hpp, and the rows of the tables that
-- Database::initialize_schema (backend/src/database/Database.cpp) declares. Ids are the numbers that
-- AUTOINCREMENT gives; an instant is a number of seconds, in whose order datetime('now') texts compare.
use academia_cr.Prelude.{ℕ, String, Bool, Option, none, some, ℤ, str_eq, if◌then◌else◌}

pub data Role : Type 0 where
  admin faculty student : Role

-- role_to_string
unfoldable pub role_to_string : Role → String
role_to_string admin = "admin"
role_to_string faculty = "faculty"
role_to_string student = "student"

-- string_to_role; `none` is the std::invalid_argument that it throws
unfoldable pub string_to_role : String → Option Role
string_to_role s =
    if str_eq s "admin"
    then some admin
    else if str_eq s "faculty"
    then some faculty
    else if str_eq s "student"
    then some student
    else none

-- User, which is also a row of the table users (CHECK holds its role to the three names)
pub record User : Type 0 where
  pub id : ℕ
  pub username : String
  pub password_hash : String
  pub role : Role
  pub name : String
  pub email : String
  pub active : Bool
  pub created_at : ℕ

-- A row of the table courses; a NULL faculty_id is `none`.
pub record CourseRow : Type 0 where
  pub id : ℕ
  pub course_code : String
  pub course_name : String
  pub credits : ℤ
  pub faculty_id : Option ℕ
  pub capacity : ℤ
  pub schedule : String
  pub created_at : ℕ

-- Course: the row with the two joined columns
pub record Course : Type 0 where
  pub id : ℕ
  pub course_code : String
  pub course_name : String
  pub credits : ℤ
  pub faculty_id : ℕ
  pub faculty_name : String
  pub capacity : ℤ
  pub enrolled_count : ℕ
  pub schedule : String
  pub created_at : ℕ

-- registrations.status
pub data Status : Type 0 where
  active dropped : Status

-- A row of the table registrations, whose joined columns are left to the queries.
pub record Registration : Type 0 where
  pub id : ℕ
  pub student_id : ℕ
  pub course_id : ℕ
  pub status : Status
  pub registered_at : ℕ

-- A row of the table sessions.
pub record Session : Type 0 where
  pub token : String
  pub user_id : ℕ
  pub created_at : ℕ
  pub expires_at : Option ℕ
