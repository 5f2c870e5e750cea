-- ===== src/FileOps/History.antt =====
-- Sequences of calls of academia/file_ops.c, from the first start, where there are no files yet.
pub mod Elsewhere
pub mod Performing
pub mod Histories
use academia_cr.Prelude.{
  ℕ, ◌≡◌, ◌≤◌, refl, ap, sym, subst, ◌∙◌, ◌⊎◌, inl, inr, String, Bool, true, false, Option, none,
  some, List, [], arith, ℤ, pos, ◌≤ℤ◌, select_first,
}
use academia_cr.Text.{is_empty}
use academia_cr.FileOps.{Files, Opens, Course, Role, Outcome, returns, overflow, failed}
use academia_cr.FileOps.Accounts.{
  add_user, add_student, add_faculty, activate_deactivate_student, update_student, update_faculty,
  change_password,
}
use academia_cr.FileOps.Catalog.{
  is_course_id, add_course, update_course, remove_course, remove_from_catalog, forget_course,
}
use academia_cr.FileOps.Enrolment.{enroll_course}
use academia_cr.FileOps.Unenrolment.{unenroll_course, unenroll_from_course, leave_student}
use academia_cr.FileOps.Agreement.{records_of, listed_in, taken_by, InBounds, Agrees, FitsId}
use academia_cr.FileOps.Agreement.Enrolling.{enroll-cases}
use academia_cr.FileOps.Agreement.Enrolled.{enroll-Enrolled}
use academia_cr.FileOps.Agreement.Unenrolled.{unenroll-cases, unenroll-Agrees, enroll-Agrees}
use academia_cr.FileOps.Agreement.Cataloguing.{
  SeatsFit, second_of, add_course-InBounds, add_course-Agrees,
}
use academia_cr.FileOps.Agreement.Admitting.{
  add_student-InBounds, add_student-Agrees, change_student-InBounds, change_student-Agrees,
}
use academia_cr.FileOps.Agreement.Revising.{update_course-cases, update_course-Agrees}
use academia_cr.FileOps.Agreement.Removing.{remove_course-InBounds, remove_course-Agrees}

-- A call that changes files, with its arguments.
pub data Call : Type 0 where
  adding_user : String → String → Role → Call
  adding_student adding_faculty : String → String → Call
  activating : String → Bool → Call
  updating_student updating_faculty changing_password : String → String → Call
  adding_course : String → String → String → ℤ → Call
  updating_course : String → String → ℤ → Call
  removing_course : String → Call
  enrolling unenrolling : String → String → Call
  -- the two parts of unenroll_course and of remove_course, between which file_sem is free
  unenrolling_from_course unenrolling_from_student : String → String → Call
  removing_from_catalog removing_from_students : String → Call

unfoldable pub perform : Opens → Call → Files → Outcome (ℤ × Files)
perform os (adding_user id password role) f = returns (add_user os id password role f)
perform os (adding_student id name) f = returns (add_student os id name f)
perform os (adding_faculty id name) f = returns (add_faculty os id name f)
perform os (activating id active) f = returns (activate_deactivate_student os id active f)
perform os (updating_student id name) f = returns (update_student os id name f)
perform os (updating_faculty id name) f = returns (update_faculty os id name f)
perform os (changing_password id password) f = returns (change_password os id password f)
perform os (adding_course id name faculty_id seats) f =
    returns (add_course os id name faculty_id seats f)
perform os (updating_course id name seats) f = update_course os id name seats f
perform os (removing_course id) f = returns (remove_course os id f)
perform os (enrolling s c) f = enroll_course os s c f
perform os (unenrolling s c) f = unenroll_course os s c f
perform os (unenrolling_from_course s c) f = unenroll_from_course os s c f
perform os (unenrolling_from_student s c) f = returns (leave_student os s c f)
perform os (removing_from_catalog id) f = returns (remove_from_catalog os id f)
perform os (removing_from_students id) f = returns (pos 0, forget_course os id f)

-- Ids that fit in their arrays, and seats from 0 to 100.
unfoldable pub Sized : Call → Type 0
Sized (adding_student id name) = FitsId id
Sized (adding_course id name faculty_id seats) = FitsId id × SeatsFit seats
Sized (updating_course id name seats) = SeatsFit seats
Sized _ = true ≡ true

-- Calls in one piece, which can open students.dat where they have written courses.dat, and by which
-- nobody loses a seat.
unfoldable pub Careful : Opens → Call → Files → Type 0
Careful os (updating_course id name seats) f =
    (c : Course)
    → select_first (is_course_id id) (records_of f.courses) ≡ some c
    → c.enrolled_count ≤ℤ seats
Careful os (removing_course id) f = os.students_open ≡ true
Careful os (unenrolling s c) f = os.students_open ≡ true
Careful os (unenrolling_from_course s c) f = true ≡ false
Careful os (unenrolling_from_student s c) f = true ≡ false
Careful os (removing_from_catalog id) f = true ≡ false
Careful os (removing_from_students id) f = true ≡ false
Careful os _ f = true ≡ true

abbrev pub no_files : Files
no_files = record { users = none; students = none; faculty = none; courses = none }

-- The files after any number of calls that are allowed.
pub data Reached (Allowed : Opens → Call → Files → Type 0) : Files → Type 0 where
  start : Reached Allowed no_files
  next :
      (os : Opens) (call : Call) (f : Files) (code : ℤ) (g : Files)
      → Reached Allowed f
      → Sized call
      → Allowed os call f
      → perform os call f ≡ returns (code, g)
      → Reached Allowed g

-- Any outcome of opening the files.
abbrev pub Anyhow : Opens → Call → Files → Type 0
Anyhow os call f = true ≡ true
