-- ===== src/RegistrationService/Faults.antt =====
-- What register_student and drop_student report when SQLite does not carry out an UPDATE, whose
-- result they never look at.
use academia_cr.Prelude.{
  ℕ, ◌<◌, ◌≡◌, true, false, none, some, arith, pos, ◌-ℤ◌, leb_ℤ, select_first, count_where,
}
use academia_cr.Prelude.Counting.{select_first_absent}
use academia_cr.Models.{CourseRow}
use academia_cr.Database.{Connection, Answers, transaction}
use academia_cr.CourseRepository
use academia_cr.CourseRepository.{has_id, get_enrolled_count}
use academia_cr.RegistrationRepository.{is_pair, exists, create, registration_id, drop_registration}
use academia_cr.RegistrationRepository.Effects.{pair-split}
use academia_cr.RegistrationService.{
  inserted, register_body, register_student, dropped_result, drop_body, drop_student,
}

module _ (e : Answers) (now s c : ℕ) (d : Connection) (idle : d.backup ≡ none)
    (begins : e.begin_error ≡ none) (commits : e.commit_error ≡ none)
    (stuck : e.update_done ≡ false) where
  -- If the UPDATE of create fails while sqlite3_changes still holds a positive number from an
  -- earlier statement, register_student reports success for a student who passes its checks, with
  -- the id 0 if the pair has no row, and registers nobody.
  pub register_student_lost :
      (row : CourseRow)
      → select_first (has_id c) d.tables.courses ≡ some row
      → count_where (is_pair s c) d.tables.registrations ≡ 0
      → leb_ℤ (row.capacity -ℤ pos (get_enrolled_count d.tables c)) (pos 0) ≡ false
      → 0 < d.changed_rows
      → ((register_student e now s c d).0.success ≡ true)
        × ((register_student e now s c d).0.registration_id ≡ 0)
        × ((register_student e now s c d).1.tables ≡ d.tables)
  unfolding register_student transaction register_body inserted CourseRepository.find_by_id create
      registration_id exists
  register_student_lost row found absent room stale =
      let gone = select_first_absent (is_pair s c) d.tables.registrations absent in
      let split = pair-split s c d.tables.registrations in
      (ground (arith, gone, split), ground (arith, gone, split), ground (arith, gone, split))

  -- If the UPDATE of drop_registration fails, drop_student reports success for an enrolled student
  -- and drops nobody.
  pub drop_student_lost :
      exists d.tables s c ≡ true
      → ((drop_student e s c d).0.success ≡ true) × ((drop_student e s c d).1.tables ≡ d.tables)
  unfolding drop_student transaction drop_body dropped_result drop_registration
  drop_student_lost h = (ground arith, ground arith)
