-- ===== src/FileOps/Agreement.antt =====
-- What courses.dat and students.dat say of who takes what, and the invariants of the files.
pub mod Changing
pub mod Enrolling
pub mod Enrolled
pub mod Leaving
pub mod LeavingStudent
pub mod Unenrolled
pub mod Cataloguing
pub mod Admitting
pub mod Revising
pub mod Removing
pub mod RoundTrip
pub mod Broken
use academia_cr.Prelude.{
  ℕ, zero, suc, ◌+◌, ◌≤◌, ◌≡◌, refl, String, Bool, true, false, Option, none, some, List, [], arith,
  ℤ, pos, negsuc, ◌≤ℤ◌, select_first, length, take,
}
use academia_cr.Text.{is_empty}
use academia_cr.FileOps.{Files, Course, Student, strncpy, open_file, max_users, max_id}
use academia_cr.FileOps.Accounts.{is_student_id}
use academia_cr.FileOps.Catalog.{is_course_id}
use academia_cr.FileOps.Enrolment.{turns}
use academia_cr.FileOps.Entries.{times}

-- The records of a file; none where there is no file.
abbrev pub records_of {ℓ} : {A : Type ℓ} → Option (List A) → List A
records_of none = []
records_of (some xs) = xs

-- The students of a course, as its count says.
abbrev pub roster : Course → List String
roster c = take (turns c.enrolled_count) c.enrolled_students

-- How often courses.dat lists a student in a course.
unfoldable pub listed_in : List Course → String → String → ℕ
listed_in courses s c = elim (select_first (is_course_id c) courses) [
  | none ↦ 0
  | some course ↦ times s (roster course)
]

-- How often students.dat lists a course with a student.
unfoldable pub taken_by : List Student → String → String → ℕ
taken_by students s c = elim (select_first (is_student_id s) students) [
  | none ↦ 0
  | some student ↦ times c student.enrolled_courses
]

-- An id that fits in its array with the NUL behind it.
abbrev pub FitsId : String → Type 0
FitsId id = strncpy id 9 ≡ id

-- A course whose students fit in its array and in its seats.
pub record CourseFits (c : Course) : Type 0 where
  pub long : length c.enrolled_students ≡ max_users
  pub low : pos 0 ≤ℤ c.enrolled_count
  pub within : c.enrolled_count ≤ℤ c.total_seats
  pub seats : c.total_seats ≤ℤ pos max_users

-- Every course fits, and so do the ids.
pub record InBounds (f : Files) : Type 0 where
  pub fits :
      (id : String) (c : Course)
      → select_first (is_course_id id) (records_of f.courses) ≡ some c
      → CourseFits c
  pub course_ids :
      (id : String) (c : Course)
      → select_first (is_course_id id) (records_of f.courses) ≡ some c
      → FitsId id
  pub student_ids :
      (id : String) (s : Student)
      → select_first (is_student_id id) (records_of f.students) ≡ some s
      → FitsId id

-- The two files agree on who takes which course, and nobody takes a course twice.
pub record Agrees (f : Files) : Type 0 where
  pub same_entries :
      (s c : String)
      → is_empty c ≡ false
      → listed_in (records_of f.courses) s c ≡ taken_by (records_of f.students) s c
  pub once : (s c : String) → is_empty c ≡ false → listed_in (records_of f.courses) s c ≤ 1

pub count_is_pos : (n : ℤ) → pos 0 ≤ℤ n → n ≡ pos (turns n)
count_is_pos (pos n) h = refl
count_is_pos (negsuc n) h = absurd (omega (arith, h))

-- A file that was opened has the records that it has.
pub opened_records {ℓ} :
    {A : Type ℓ} (ok : Bool) (file : Option (List A)) (xs : List A)
    → open_file ok file ≡ some xs
    → records_of file ≡ xs
opened_records true (some ys) xs h = ground (arith, h)
opened_records true none xs h = absurd (ground (arith, h))
opened_records false file xs h = absurd (ground (arith, h))

-- Without students.dat nobody takes a course.
pub no_file :
    (file : Option (List Student)) (s c : String) → file ≡ none → taken_by (records_of file) s c ≡ 0
unfolding taken_by select_first
no_file none s c h = refl
no_file (some xs) s c h = absurd (ground arith)

pub no_course_file :
    (file : Option (List Course)) (s c : String) → file ≡ none → listed_in (records_of file) s c ≡ 0
unfolding listed_in select_first
no_course_file none s c h = refl
no_course_file (some xs) s c h = absurd (ground arith)
