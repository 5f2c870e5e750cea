-- ===== src/RegistrationService.antt =====
-- backend/include/services/RegistrationService.hpp: what one call does between taking and releasing
-- its course's mutex. Logging is left out.
pub mod Body
pub mod Faults
pub mod Effect
pub mod Verdict
pub mod Safety
use academia_cr.Prelude.{
  to_int, ℕ, String, str_append, Bool, true, false, Option, none, some, if◌then◌else◌, ℤ, pos, ◌+ℤ◌,
  ◌-ℤ◌, leb_ℤ,
}
use academia_cr.Models.{Course}
use academia_cr.Database.{Tables, Connection, Result, ok, throw, Answers, transaction}
use academia_cr.CourseRepository
use academia_cr.CourseRepository.{get_enrolled_count}
use academia_cr.RegistrationRepository
use academia_cr.RegistrationRepository.{exists, drop_registration}

-- RegistrationService::RegistrationResult
pub record RegistrationResult : Type 0 where
  pub success : Bool
  pub registration_id : ℕ
  pub error : String
  pub remaining_seats : ℤ

-- {false, 0, error, seats}
abbrev pub refused : String → ℤ → RegistrationResult
refused error seats = record {
  success = false;
  registration_id = 0;
  error = error;
  remaining_seats = seats;
}

-- step 6: the result of a registration that left `seats` seats before it
unfoldable pub inserted : ℤ → Result ℕ × Connection → Result RegistrationResult × Connection
inserted seats (ok id, c) = (
  ok (record {
    success = true;
    registration_id = id;
    error = "";
    remaining_seats = seats -ℤ pos 1;
  }),
  c,
)
inserted seats (throw message, c) = (throw message, c)

-- steps 4 to 6, with the course that step 3 found
unfoldable pub register_in :
    Answers → ℕ → ℕ → ℕ → Course → Connection → Result RegistrationResult × Connection
unfolding inserted exists get_enrolled_count
register_in e now student_id course_id course c =
    if exists c.tables student_id course_id
    then (
      ok (refused "Already enrolled in this course" (course.capacity -ℤ pos course.enrolled_count)),
      c,
    )
    else (let remaining = course.capacity -ℤ pos (get_enrolled_count c.tables course_id) in
        if leb_ℤ remaining (pos 0)
        then (ok (refused "Course is full" (pos 0)), c)
        else inserted remaining (RegistrationRepository.create e now student_id course_id c))

register_found :
    Answers → ℕ → ℕ → ℕ → Option Course → Connection → Result RegistrationResult × Connection
register_found e now student_id course_id none c = (ok (refused "Course not found" (pos 0)), c)
register_found e now student_id course_id (some course) c =
    register_in e now student_id course_id course c

-- the function that register_student runs in its transaction
unfoldable pub register_body :
    Answers → ℕ → ℕ → ℕ → Connection → Result RegistrationResult × Connection
unfolding register_found register_in
register_body e now student_id course_id c =
    register_found e now student_id course_id (CourseRepository.find_by_id c.tables course_id) c

-- the catch block: an exception becomes a refusal
caught : String → Result RegistrationResult × Connection → RegistrationResult × Connection
caught prefix (ok r, c) = (r, c)
caught prefix (throw message, c) = (refused (str_append prefix message) (pos 0), c)

-- RegistrationService::register_student
unfoldable pub register_student : Answers → ℕ → ℕ → ℕ → Connection → RegistrationResult × Connection
unfolding caught
register_student e now student_id course_id c =
    caught "Registration failed: " (transaction e (register_body e now student_id course_id) c)

-- the seats that are reported, in an int
unfoldable pub seats_after_drop : Option Course → ℤ
seats_after_drop none = pos 0
seats_after_drop (some course) = to_int (course.capacity -ℤ pos course.enrolled_count +ℤ pos 1)

-- drop_student after drop_registration, whose result it ignores
unfoldable pub dropped_result : ℕ → Bool × Connection → Result RegistrationResult × Connection
unfolding seats_after_drop
dropped_result course_id (done, c) = (
  ok (record {
    success = true;
    registration_id = 0;
    error = "";
    remaining_seats = seats_after_drop (CourseRepository.find_by_id c.tables course_id);
  }),
  c,
)

-- the function that drop_student runs in its transaction
unfoldable pub drop_body : Answers → ℕ → ℕ → Connection → Result RegistrationResult × Connection
unfolding dropped_result exists
drop_body e student_id course_id c =
    if exists c.tables student_id course_id
    then dropped_result course_id (drop_registration e student_id course_id c)
    else (ok (refused "Not enrolled in this course" (pos 0)), c)

-- RegistrationService::drop_student
unfoldable pub drop_student : Answers → ℕ → ℕ → Connection → RegistrationResult × Connection
unfolding caught
drop_student e student_id course_id c =
    caught "Drop failed: " (transaction e (drop_body e student_id course_id) c)
