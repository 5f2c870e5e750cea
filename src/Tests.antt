-- ===== src/Tests.antt =====
-- A small database for the tests, and the proof that it meets the invariants.
mod Registering
mod Systems
mod Routes
mod Courses
mod Academia
mod Auth
mod Hashing
use academia_cr.Prelude.{
  ℕ, ◌≡◌, refl, Bool, true, false, Option, none, some, List, [], ◌∷◌, arith, pos, count_where,
  select_first,
}
use academia_cr.Models.{User, CourseRow, admin, faculty, student, active, dropped}
use academia_cr.Database.{Tables, Connection, Answers}
use academia_cr.Integrity.{RegistrationsSound, WithinCapacity, IsSafe}
use academia_cr.CourseRepository.{get_enrolled_count}

-- SQLite carries out everything.
abbrev pub all_done : Answers
all_done = record {
  begin_error = none;
  commit_error = none;
  update_done = true;
  insert_done = true;
  delete_done = true;
}

-- SQLite carries out no UPDATE.
abbrev pub no_update : Answers
no_update = record all_done { update_done = false }

abbrev pub alice : User
alice = record {
  id = 1;
  username = "alice";
  password_hash = "";
  role = student;
  name = "Alice";
  email = "";
  active = true;
  created_at = 0;
}

abbrev pub bob : User
bob = record alice { id = 2; username = "bob"; name = "Bob" }

abbrev pub smith : User
smith = record alice { id = 3; username = "dr.smith"; name = "Dr. Smith"; role = faculty }

-- A course with one seat, which Alice has.
abbrev pub systems : CourseRow
systems = record {
  id = 1;
  course_code = "CS301";
  course_name = "Operating Systems";
  credits = pos 4;
  faculty_id = some 3;
  capacity = pos 1;
  schedule = "";
  created_at = 0;
}

-- A course with two seats, which Alice has dropped.
abbrev pub networks : CourseRow
networks = record systems {
  id = 2;
  course_code = "CS302";
  course_name = "Computer Networks";
  capacity = pos 2;
}

abbrev pub demo_tables : Tables
demo_tables = record {
  users = alice ∷ bob ∷ smith ∷ [];
  courses = systems ∷ networks ∷ [];
  registrations =
      (record { id = 1; student_id = 1; course_id = 1; status = active; registered_at = 10 })
      ∷ (record { id = 2; student_id = 1; course_id = 2; status = dropped; registered_at = 11 })
      ∷ [];
  sessions = [];
  user_seq = 3;
  course_seq = 2;
  registration_seq = 2;
}

abbrev pub demo : Connection
demo = record { tables = demo_tables; backup = none; changed_rows = 0; last_rowid = 2 }

pub demo-Sound : RegistrationsSound demo_tables
unfolding count_where select_first
demo-Sound = record {
  pairs = λ s c. ground arith;
  ids = λ n. ground arith;
  fresh = λ n h. ground arith;
  students = λ s h. ground arith;
  courses = λ c h. ground arith;
}

pub demo-IsSafe : IsSafe demo_tables
unfolding count_where select_first get_enrolled_count
demo-IsSafe = record { sound = demo-Sound; capacity = λ c row h. ground arith }
