-- ===== src/RegistrationService/Verdict.antt =====
-- What register_student promises, described on the tables alone: which registrations are accepted,
-- with which message the others are refused.
use academia_cr.Prelude.{
  ℕ, ◌≡◌, ◌∙◌, ap, inl, inr, String, str_append, Bool, true, false, none, some, arith, ltb, ℤ,
  if◌then◌else◌, Bool-cases, Option-cases, pos, ◌-ℤ◌, leb_ℤ, select_first,
}
use academia_cr.Models.{CourseRow}
use academia_cr.Database.{Tables, Connection, ok, throw, Answers, transaction}
use academia_cr.Database.Transaction.{begun, committed}
use academia_cr.Integrity.{RegistrationsSound}
use academia_cr.CourseRepository
use academia_cr.CourseRepository.{has_id, has_user, get_enrolled_count}
use academia_cr.RegistrationRepository.{create, exists}
use academia_cr.RegistrationRepository.Enrolment.{enrolled}
use academia_cr.RegistrationRepository.Acceptance.{create_succeeds, create_fails}
use academia_cr.RegistrationService.{
  RegistrationResult, refused, inserted, register_body, register_student,
}

pub data Verdict : Type 0 where
  no_course already_enrolled course_full no_account accepted : Verdict

-- The verdict for a course's row.
abbrev pub course_verdict : Tables → ℕ → ℕ → CourseRow → Verdict
course_verdict t s c row =
    if ltb 0 (enrolled t s c)
    then already_enrolled
    else if leb_ℤ row.capacity (pos (get_enrolled_count t c))
    then course_full
    else if has_user t s
    then accepted
    else no_account

abbrev pub verdict : Tables → ℕ → ℕ → Verdict
verdict t s c = elim (select_first (has_id c) t.courses) [
  | none ↦ no_course
  | some row ↦ course_verdict t s c row
]

abbrev pub is_accepted : Verdict → Bool
is_accepted accepted = true
is_accepted _ = false

abbrev pub verdict_message : Verdict → String
verdict_message no_course = "Course not found"
verdict_message already_enrolled = "Already enrolled in this course"
verdict_message course_full = "Course is full"
verdict_message no_account = "Registration failed: Failed to create registration"
verdict_message accepted = ""

-- SQLite does what it is asked: no statement and no lock fails.
pub record IsWorking (e : Answers) : Type 0 where
  pub begins : e.begin_error ≡ none
  pub commits : e.commit_error ≡ none
  pub updates : e.update_done ≡ true
  pub inserts : e.insert_done ≡ true

-- The code's test of the remaining seats against the specification's.
full_iff : (capacity : ℤ) (n : ℕ) → leb_ℤ (capacity -ℤ pos n) (pos 0) ≡ leb_ℤ capacity (pos n)
unfolding ◌-ℤ◌
full_iff capacity n = ground arith

abbrev Judges : Verdict → RegistrationResult → Type 0
Judges w r = (r.success ≡ is_accepted w) × (r.error ≡ verdict_message w)

module _ (e : Answers) (now s c : ℕ) (d : Connection) (w : IsWorking e) (idle : d.backup ≡ none)
    (v : RegistrationsSound d.tables) where
  abbrev answer : RegistrationResult
  answer = (register_student e now s c d).0

  -- The transaction begins, runs register_body, and commits.
  runs :
      (r : RegistrationResult) (d' : Connection)
      → register_body e now s c (begun d) ≡ (ok r, d')
      → register_student e now s c d ≡ (r, committed d')
  unfolding register_student transaction
  runs r d' h = ground (arith, w.begins, w.commits)

  fails :
      (message : String) (d' : Connection)
      → register_body e now s c (begun d) ≡ (throw message, d')
      → answer ≡ refused (str_append "Registration failed: " message) (pos 0)
  unfolding register_student transaction
  fails message d' h = ground (arith, w.begins)

  missing :
      select_first (has_id c) d.tables.courses ≡ none → answer ≡ refused "Course not found" (pos 0)
  unfolding register_body CourseRepository.find_by_id
  missing h = ground (arith, runs (refused "Course not found" (pos 0)) (begun d))

  module _ (row : CourseRow) (found : select_first (has_id c) d.tables.courses ≡ some row) where
    taken :
        exists d.tables s c ≡ true
        → (answer.success ≡ false) × (answer.error ≡ "Already enrolled in this course")
    unfolding register_body CourseRepository.find_by_id
    taken h = ground (
      arith,
      runs
          (refused "Already enrolled in this course"
            (row.capacity -ℤ pos (get_enrolled_count d.tables row.id)))
          (begun d),
    )

    abbrev room : ℤ
    room = row.capacity -ℤ pos (get_enrolled_count d.tables c)

    full :
        exists d.tables s c ≡ false
        → leb_ℤ room (pos 0) ≡ true
        → answer ≡ refused "Course is full" (pos 0)
    unfolding register_body CourseRepository.find_by_id
    full h k = ground (arith, runs (refused "Course is full" (pos 0)) (begun d))

    -- The last step of a registration that passes the three checks.
    module _ (absent : exists d.tables s c ≡ false) (seats : leb_ℤ room (pos 0) ≡ false) where
      body-create : register_body e now s c (begun d) ≡ inserted room (create e now s c (begun d))
      unfolding register_body CourseRepository.find_by_id
      body-create = ground arith

      none_enrolled : enrolled d.tables s c ≡ 0
      unfolding exists
      none_enrolled = ground arith

      created :
          has_user d.tables s ≡ true
          → (id : ℕ) × (d' : Connection) × (create e now s c (begun d) ≡ (ok id, d'))
            × (register_student e now s c d ≡ (
              record {
                success = true;
                registration_id = id;
                error = "";
                remaining_seats = room -ℤ pos 1;
              },
              committed d',
            ))
      unfolding inserted
      created user =
          let (id, d', h) =
            create_succeeds e now s c (begun d) w.updates w.inserts v none_enrolled user
              (ground (arith, found)) in
          (id, d', h, runs _ d' (body-create ∙ ap (inserted room) h))

      rejected :
          has_user d.tables s ≡ false
          → answer ≡ refused "Registration failed: Failed to create registration" (pos 0)
      unfolding inserted
      rejected user = fails "Failed to create registration" _ (
          body-create
          ∙ ap (inserted room) (
              create_fails e now s c (begun d) w.updates w.inserts v none_enrolled user
                (ground (arith, found))))

  judged_found :
      (row : CourseRow)
      → select_first (has_id c) d.tables.courses ≡ some row
      → Judges (course_verdict d.tables s c row) answer
  unfolding exists
  judged_found row found = elim (Bool-cases (exists d.tables s c)) [
    | inl h ↦ ground (arith, taken row found h)
    | inr h ↦ elim (Bool-cases (leb_ℤ (room row found) (pos 0))) [
      | inl k ↦
          ground (arith, full row found h k, full_iff row.capacity (get_enrolled_count d.tables c))
      | inr k ↦ elim (Bool-cases (has_user d.tables s)) [
        | inl u ↦
            let (id, d', _, r) = created row found h k u in
            ground (arith, r, full_iff row.capacity (get_enrolled_count d.tables c))
        | inr u ↦
            ground (
              arith,
              rejected row found h k u,
              full_iff row.capacity (get_enrolled_count d.tables c),
            )
      ]
    ]
  ]

-- With SQLite doing what it is asked, register_student accepts exactly the registrations that the
-- verdict on the tables accepts, and refuses every other with the verdict's message.
pub register_student-verdict :
    (e : Answers) (now s c : ℕ) (d : Connection)
    → IsWorking e
    → d.backup ≡ none
    → RegistrationsSound d.tables
    → ((register_student e now s c d).0.success ≡ is_accepted (verdict d.tables s c))
      × ((register_student e now s c d).0.error ≡ verdict_message (verdict d.tables s c))
register_student-verdict e now s c d w idle v =
    elim (Option-cases (select_first (has_id c) d.tables.courses)) [
      | inl h ↦ ground (arith, missing e now s c d w idle v h)
      | inr (row, h) ↦ ground (arith, judged_found e now s c d w idle v row h)
    ]
