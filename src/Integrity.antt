-- ===== src/Integrity.antt =====
-- Integrity of the tables: what the constraints of initialize_schema say, as properties of a state.
use academia_cr.Prelude.{
  ℕ, ◌≤◌, ◌<◌, ◌≡◌, Bool, false, some, ◌==◌, has_value, select_first, count_where, pos, ◌≤ℤ◌,
}
use academia_cr.Models.{CourseRow, Registration}
use academia_cr.Database.{Tables}
use academia_cr.RegistrationRepository.{is_pair}
use academia_cr.CourseRepository.{has_id, has_user, get_enrolled_count}

abbrev pub of_student : ℕ → Registration → Bool
of_student s r = r.student_id == s

abbrev pub of_course : ℕ → Registration → Bool
of_course c r = r.course_id == c

abbrev pub numbered : ℕ → Registration → Bool
numbered n r = r.id == n

abbrev pub has_course : Tables → ℕ → Bool
has_course t c = has_value (select_first (has_id c) t.courses)

-- The table registrations: its keys, its UNIQUE pair and its two foreign keys.
pub record RegistrationsSound (t : Tables) : Type 0 where
  pub pairs : (s c : ℕ) → count_where (is_pair s c) t.registrations ≤ 1
  pub ids : (n : ℕ) → count_where (numbered n) t.registrations ≤ 1
  pub fresh : (n : ℕ) → t.registration_seq < n → count_where (numbered n) t.registrations ≡ 0
  pub students : (s : ℕ) → has_user t s ≡ false → count_where (of_student s) t.registrations ≡ 0
  pub courses : (c : ℕ) → has_course t c ≡ false → count_where (of_course c) t.registrations ≡ 0

-- No course has more active registrations than its capacity.
abbrev pub WithinCapacity : Tables → Type 0
WithinCapacity t =
    (c : ℕ) (r : CourseRow)
    → select_first (has_id c) t.courses ≡ some r
    → pos (get_enrolled_count t c) ≤ℤ r.capacity

-- Both, which every operation of the services keeps.
pub record IsSafe (t : Tables) : Type 0 where
  pub sound : RegistrationsSound t
  pub capacity : WithinCapacity t
