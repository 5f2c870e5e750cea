-- ===== src/RegistrationRepository/Acceptance.antt =====
-- When create succeeds, for a student who is not enrolled and with SQLite doing what it is asked.
use academia_cr.Prelude.{ℕ, suc, ◌≡◌, inl, inr, true, false, arith, ltb, Bool-cases, count_where}
use academia_cr.Prelude.Counting.{
  count_where_mono, count_where-update_where_same, select_first_absent,
}
use academia_cr.Database.{Connection, ok, throw, Answers}
use academia_cr.Integrity.{RegistrationsSound, has_course, of_student}
use academia_cr.CourseRepository.{has_user}
use academia_cr.RegistrationRepository.{
  is_pair, is_dropped, reactivate, registration_id, update_dropped, insert_registration,
  accepts_registration, create_updated, create,
}
use academia_cr.RegistrationRepository.Effects.{pair-split}
use academia_cr.RegistrationRepository.Enrolment.{enrolled}

module _ (e : Answers) (now s c : ℕ) (d : Connection) (updates : e.update_done ≡ true)
    (inserts : e.insert_done ≡ true) (v : RegistrationsSound d.tables)
    (free : enrolled d.tables s c ≡ 0) where
  abbrev updated : Connection
  updated = update_dropped e now s c d

  pair_absent :
      updated.changed_rows ≡ 0 → count_where (is_pair s c) updated.tables.registrations ≡ 0
  unfolding update_dropped
  pair_absent h = ground (
    arith,
    pair-split s c d.tables.registrations,
    count_where-update_where_same (is_dropped s c) (is_pair s c) (reactivate now)
        d.tables.registrations,
  )

  same_catalog :
      (updated.tables.users ≡ d.tables.users) × (updated.tables.courses ≡ d.tables.courses)
  unfolding update_dropped
  same_catalog = (ground arith, ground arith)

  -- The INSERT is reached only when there is no row of the pair.
  updated-accepts :
      updated.changed_rows ≡ 0
      → has_course d.tables c ≡ true
      → accepts_registration updated.tables s c ≡ has_user d.tables s
  unfolding accepts_registration
  updated-accepts h k = ground (
    arith,
    select_first_absent (is_pair s c) updated.tables.registrations,
    pair_absent h,
    same_catalog,
  )

  pub create_succeeds :
      has_user d.tables s ≡ true
      → has_course d.tables c ≡ true
      → (id : ℕ) × (d' : Connection) × (create e now s c d ≡ (ok id, d'))
  unfolding create create_updated insert_registration
  create_succeeds user course = elim (Bool-cases (ltb 0 updated.changed_rows)) [
    | inl found ↦ (registration_id updated.tables s c, updated, ground arith)
    | inr fresh ↦ (
      suc updated.tables.registration_seq,
      (insert_registration e now s c updated).1,
      ground (arith, updated-accepts),
    )
  ]

  -- A student without an account has no dropped row to reactivate, and the INSERT is refused.
  no_account : has_user d.tables s ≡ false → updated.changed_rows ≡ 0
  unfolding update_dropped
  no_account h = ground (
    arith,
    v.students s,
    count_where_mono (is_dropped s c) (of_student s) d.tables.registrations (λ r k. ground arith),
  )

  pub create_fails :
      has_user d.tables s ≡ false
      → has_course d.tables c ≡ true
      → create e now s c d ≡ (throw "Failed to create registration", updated)
  unfolding create create_updated insert_registration
  create_fails h k = ground (arith, no_account h, updated-accepts)
