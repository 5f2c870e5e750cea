-- ===== src/Tests/Registering.antt =====
-- The theorems on registration at the demo database, and runs of the services on it.
use academia_cr.Prelude.{
  FitsInt, to_int, arith, ◌≡◌, refl, ap, true, false, none, some, List, [], ◌∷◌, pos, ◌-ℤ◌, ◌+ℤ◌,
  select_first, count_where, update_where,
}
use academia_cr.Models.{Course}
use academia_cr.Database.{Connection, Answers, execute_error, transaction}
use academia_cr.Database.Transaction.{transaction_failed}
use academia_cr.Integrity.{IsSafe}
use academia_cr.CourseRepository
use academia_cr.CourseRepository.{has_id, get_enrolled_count}
use academia_cr.RegistrationRepository
use academia_cr.RegistrationRepository.{exists}
use academia_cr.RegistrationRepository.{count_by_student, count_active}
use academia_cr.RegistrationService.{
  RegistrationResult, refused, register_student, register_body, drop_student, drop_body, inserted,
  dropped_result,
}
use academia_cr.RegistrationService.Body.{
  register_body_backup, register_student_refused, drop_student_refused,
}
use academia_cr.RegistrationService.Verdict.{IsWorking, register_student-verdict}
use academia_cr.RegistrationService.Effect.{
  Registered, Dropped, register_student-Registered, drop_student-Dropped, drop_student-seats,
}
use academia_cr.System.{Call, create_user, create_course, register, drop, run, initial}
use academia_cr.System.Safety.{run-initial-IsSafe}
use academia_cr.Tests.{all_done, alice, systems, demo, demo_tables, demo-Sound, smith}

-- Alice takes up the course that she dropped: her row is used again, one seat is left.
reactivated :
    (register_student all_done 20 1 2 demo).0
    ≡ record { success = true; registration_id = 2; error = ""; remaining_seats = pos 1 }
unfolding register_student transaction register_body CourseRepository.find_by_id inserted
    RegistrationRepository.create count_where select_first update_where ◌-ℤ◌
reactivated = refl

-- Bob is too late for the course with one seat.
too_late : (register_student all_done 20 2 1 demo).0 ≡ refused "Course is full" (pos 0)
unfolding register_student transaction register_body CourseRepository.find_by_id count_where
    select_first ◌-ℤ◌
too_late = refl

-- Alice drops her course of one seat, and is told that two are left.
two_seats_of_one :
    (drop_student all_done 1 1 demo).0
    ≡ record { success = true; registration_id = 0; error = ""; remaining_seats = pos 2 }
unfolding drop_student transaction drop_body dropped_result CourseRepository.find_by_id
    RegistrationRepository.drop_registration RegistrationRepository.exists count_where select_first
    update_where ◌-ℤ◌ ◌+ℤ◌ to_int
two_seats_of_one = refl

all_done-IsWorking : IsWorking all_done
all_done-IsWorking = record { begins = refl; commits = refl; updates = refl; inserts = refl }

register_student-verdict_example :
    ((register_student all_done 20 2 1 demo).0.success ≡ false)
    × ((register_student all_done 20 2 1 demo).0.error ≡ "Course is full")
unfolding count_where select_first get_enrolled_count
register_student-verdict_example =
    register_student-verdict all_done 20 2 1 demo all_done-IsWorking refl demo-Sound

register_student-Registered_example :
    Registered 1 2 demo_tables
      (register_student all_done 20 1 2 demo).1.tables
      (register_student all_done 20 1 2 demo).0
register_student-Registered_example =
    register_student-Registered all_done 20 1 2 demo refl demo-Sound
      (ap (λ (r : RegistrationResult). r.success) reactivated)

register_student_refused_example : (register_student all_done 20 2 1 demo).1.tables ≡ demo_tables
register_student_refused_example =
    register_student_refused all_done 20 2 1 demo
      (ap (λ (r : RegistrationResult). r.success) too_late)

drop_succeeds : (drop_student all_done 1 1 demo).0.success ≡ true
drop_succeeds = ap (λ (r : RegistrationResult). r.success) two_seats_of_one

drop_student-Dropped_example : Dropped 1 1 demo_tables (drop_student all_done 1 1 demo).1.tables
drop_student-Dropped_example = drop_student-Dropped all_done 1 1 demo refl demo-Sound drop_succeeds

seats_fit :
    FitsInt (pos 1 -ℤ pos (get_enrolled_count (drop_student all_done 1 1 demo).1.tables 1) +ℤ pos 1)
unfolding drop_student transaction drop_body dropped_result CourseRepository.find_by_id
    RegistrationRepository.drop_registration RegistrationRepository.exists count_where select_first
    update_where ◌-ℤ◌ ◌+ℤ◌ CourseRepository.get_enrolled_count
seats_fit = record { low = ground arith; high = ground arith }

drop_student-seats_example :
    (drop_student all_done 1 1 demo).0.remaining_seats
    ≡ pos 1 -ℤ pos (get_enrolled_count (drop_student all_done 1 1 demo).1.tables 1) +ℤ pos 1
drop_student-seats_example =
    drop_student-seats all_done 1 1 demo refl demo-Sound systems drop_succeeds
      (unfold select_first in refl) seats_fit

-- Not enrolled: the refusal of a drop.
not_enrolled : (drop_student all_done 2 1 demo).0 ≡ refused "Not enrolled in this course" (pos 0)
unfolding drop_student transaction drop_body RegistrationRepository.exists count_where
not_enrolled = refl

drop_student_refused_example : (drop_student all_done 2 1 demo).1.tables ≡ demo_tables
drop_student_refused_example =
    drop_student_refused all_done 2 1 demo (ap (λ (r : RegistrationResult). r.success) not_enrolled)

-- sqlite3_changes still holds the 3 of some earlier statement.
abbrev stale : Connection
stale = record demo { changed_rows = 3 }

-- The body of a registration that COMMIT refuses.
abbrev no_commit : Answers
no_commit = record all_done { commit_error = some "database or disk is full" }

abbrev after_full_disk : Connection
after_full_disk = (transaction no_commit (register_body no_commit 20 1 2) demo).1

transaction_failed_example :
    (after_full_disk.tables ≡ demo_tables) × (after_full_disk.backup ≡ none)
unfolding transaction register_body CourseRepository.find_by_id inserted
    RegistrationRepository.create exists count_where select_first update_where execute_error ◌-ℤ◌
transaction_failed_example =
    transaction_failed no_commit (register_body no_commit 20 1 2) demo after_full_disk
      "SQL execution failed: database or disk is full SQL: COMMIT"
      (register_body_backup no_commit 20 1 2) refl

abbrev compilers : Course
compilers = record {
  id = 0;
  course_code = "CS420";
  course_name = "Compilers";
  credits = pos 3;
  faculty_id = 1;
  faculty_name = "";
  capacity = pos 1;
  enrolled_count = 0;
  schedule = "";
  created_at = 0;
}

-- A history from a new database: two accounts, a course, a registration, a drop whose COMMIT fails.
abbrev history : List Call
history =
    (record { answers = all_done; now = 1; request = create_user smith })
    ∷ (record { answers = all_done; now = 2; request = create_user alice })
    ∷ (record { answers = all_done; now = 3; request = create_course compilers smith })
    ∷ (record { answers = all_done; now = 4; request = register 2 1 })
    ∷ (record { answers = no_commit; now = 5; request = drop 2 1 })
    ∷ []

run-initial-IsSafe_example : IsSafe (run history initial).tables
run-initial-IsSafe_example = run-initial-IsSafe history
