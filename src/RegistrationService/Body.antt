-- ===== src/RegistrationService/Body.antt =====
-- register_body and drop_body under the transaction: rules by which the other modules reason.
use academia_cr.Prelude.{
  ℕ, ◌≡◌, refl, subst, inl, inr, true, false, some, arith, Bool-cases, Option-cases, ◌⊎◌, ℤ, pos,
  ◌-ℤ◌, leb_ℤ, select_first,
}
use academia_cr.Models.{CourseRow}
use academia_cr.Database.{Tables, Connection, Result, ok, Answers, transaction}
use academia_cr.Database.Transaction.{begun, Result-cases, transaction_failed, transaction_ok}
use academia_cr.CourseRepository
use academia_cr.CourseRepository.{has_id, get_enrolled_count, row_to_course}
use academia_cr.RegistrationRepository
use academia_cr.RegistrationRepository.{exists, drop_registration}
use academia_cr.RegistrationRepository.Enrolment.{create-frame, drop_registration-frame}
use academia_cr.RegistrationService.{
  RegistrationResult, refused, inserted, register_body, register_student, dropped_result, drop_body,
  drop_student,
}

module _ (e : Answers) (now s c : ℕ) (d : Connection) where
  -- What register_body has checked when it calls create.
  pub record MayCreate : Type 0 where
    pub row : CourseRow
    pub found : select_first (has_id c) d.tables.courses ≡ some row
    pub absent : exists d.tables s c ≡ false
    pub room : leb_ℤ (row.capacity -ℤ pos (get_enrolled_count d.tables c)) (pos 0) ≡ false

  -- The remaining seats that register_body computes.
  abbrev pub room_of : CourseRow → ℤ
  room_of row = row.capacity -ℤ pos (get_enrolled_count d.tables c)

  -- register_body calls create after its checks, or refuses and leaves the connection alone.
  pub register_body_cases :
      ((m : MayCreate) × (register_body e now s c d
          ≡ inserted (room_of m.row) (RegistrationRepository.create e now s c d)))
      ⊎ ((r : RegistrationResult) × (r.success ≡ false) × (register_body e now s c d ≡ (ok r, d)))
  unfolding register_body CourseRepository.find_by_id
  register_body_cases = elim (Option-cases (select_first (has_id c) d.tables.courses)) [
    | inl h ↦ inr (refused "Course not found" (pos 0), refl, ground arith)
    | inr (row, h) ↦ elim (Bool-cases (exists d.tables s c)) [
      | inl taken ↦ inr (
        refused "Already enrolled in this course"
            (row.capacity -ℤ pos (get_enrolled_count d.tables row.id)),
        refl,
        ground arith,
      )
      | inr free ↦ elim (Bool-cases (leb_ℤ (room_of row) (pos 0))) [
        | inl full ↦ inr (refused "Course is full" (pos 0), refl, ground arith)
        | inr room ↦ inl (record { row = row; found = h; absent = free; room = room }, ground arith)
      ]
    ]
  ]

  -- drop_body calls drop_registration after its check, or refuses and leaves the connection alone.
  pub drop_body_cases :
      ((exists d.tables s c ≡ true)
        × (drop_body e s c d ≡ dropped_result c (drop_registration e s c d)))
      ⊎ ((exists d.tables s c ≡ false)
          × (drop_body e s c d ≡ (ok (refused "Not enrolled in this course" (pos 0)), d)))
  unfolding drop_body
  drop_body_cases = elim (Bool-cases (exists d.tables s c)) [
    | inl h ↦ inl (h, ground arith)
    | inr h ↦ inr (h, ground arith)
  ]

  pub register_body_backup : (register_body e now s c d).1.backup ≡ d.backup
  unfolding inserted
  register_body_backup = elim register_body_cases [
    | inl (m, h) ↦ ground (arith, create-frame e now s c d)
    | inr (r, _, h) ↦ ground arith
  ]

  drop_body_backup : (drop_body e s c d).1.backup ≡ d.backup
  unfolding dropped_result
  drop_body_backup = elim drop_body_cases [
    | inl (_, h) ↦ ground (arith, drop_registration-frame e s c d)
    | inr (_, h) ↦ ground arith
  ]

module _ (e : Answers) (now s c : ℕ) (d : Connection) where
  abbrev registration : Result RegistrationResult × Connection
  registration = transaction e (register_body e now s c) d

  -- What holds of the tables before, and after each create that passes the checks, holds after.
  pub register_student_keeps :
      (P : Tables → Type 0)
      → P d.tables
      → (MayCreate e now s c (begun d)
          → P (RegistrationRepository.create e now s c (begun d)).1.tables)
      → P (register_student e now s c d).1.tables
  unfolding register_student inserted
  register_student_keeps P before created = elim (Result-cases registration) [
    | inl (r, d', h) ↦ elim (register_body_cases e now s c (begun d)) [
      | inl (m, k) ↦
          subst P (ground (arith, transaction_ok e (register_body e now s c) d d' r)) (created m)
      | inr (_, _, k) ↦
          subst P (ground (arith, transaction_ok e (register_body e now s c) d d' r)) before
    ]
    | inr (message, d', h) ↦
        subst P
          (ground (
            arith,
            transaction_failed e (register_body e now s c) d d' message
                (register_body_backup e now s c),
          ))
          before
  ]

  -- A refusal of register_student changes no table.
  pub register_student_refused :
      (register_student e now s c d).0.success ≡ false
      → (register_student e now s c d).1.tables ≡ d.tables
  unfolding register_student inserted
  register_student_refused failed = elim (Result-cases registration) [
    | inl (r, d', h) ↦ elim (register_body_cases e now s c (begun d)) [
      | inl (m, k) ↦ ground (arith, transaction_ok e (register_body e now s c) d d' r)
      | inr (_, _, k) ↦ ground (arith, transaction_ok e (register_body e now s c) d d' r)
    ]
    | inr (message, d', h) ↦ ground (
      arith,
      transaction_failed e (register_body e now s c) d d' message (register_body_backup e now s c),
    )
  ]

module _ (e : Answers) (s c : ℕ) (d : Connection) where
  abbrev dropping : Result RegistrationResult × Connection
  dropping = transaction e (drop_body e s c) d

  -- What holds of the tables before, and after drop_registration, holds after drop_student.
  pub drop_student_keeps :
      (P : Tables → Type 0)
      → P d.tables
      → P (drop_registration e s c (begun d)).1.tables
      → P (drop_student e s c d).1.tables
  unfolding drop_student dropped_result
  drop_student_keeps P before dropped = elim (Result-cases dropping) [
    | inl (r, d', h) ↦ elim (drop_body_cases e 0 s c (begun d)) [
      | inl (_, k) ↦ subst P (ground (arith, transaction_ok e (drop_body e s c) d d' r)) dropped
      | inr (_, k) ↦ subst P (ground (arith, transaction_ok e (drop_body e s c) d d' r)) before
    ]
    | inr (message, d', h) ↦
        subst P
          (ground
            (arith, transaction_failed e (drop_body e s c) d d' message (drop_body_backup e 0 s c)))
          before
  ]

  -- A refusal of drop_student changes no table.
  pub drop_student_refused :
      (drop_student e s c d).0.success ≡ false → (drop_student e s c d).1.tables ≡ d.tables
  unfolding drop_student dropped_result
  drop_student_refused failed = elim (Result-cases dropping) [
    | inl (r, d', h) ↦ elim (drop_body_cases e 0 s c (begun d)) [
      | inl (_, k) ↦ ground (arith, transaction_ok e (drop_body e s c) d d' r)
      | inr (_, k) ↦ ground (arith, transaction_ok e (drop_body e s c) d d' r)
    ]
    | inr (message, d', h) ↦
        ground
          (arith, transaction_failed e (drop_body e s c) d d' message (drop_body_backup e 0 s c))
  ]
