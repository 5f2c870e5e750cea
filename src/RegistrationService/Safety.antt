-- ===== src/RegistrationService/Safety.antt =====
-- No overbooking, and integrity, through every outcome of register_student and drop_student.
use academia_cr.Prelude.{
  ℕ, ◌+◌, ◌≤◌, ◌≡◌, subst, some, false, List, ℤ, leb_ℤ, arith, ◌==◌, pos, ◌-ℤ◌, ◌≤ℤ◌, eq_of_==,
  Bool-cases, inl, inr, select_first,
}
use academia_cr.Models.{CourseRow}
use academia_cr.Database.{Tables, Connection, Answers}
use academia_cr.Database.Transaction.{begun}
use academia_cr.Integrity.{RegistrationsSound, WithinCapacity, IsSafe}
use academia_cr.CourseRepository.{has_id, get_enrolled_count}
use academia_cr.RegistrationRepository.{create, drop_registration}
use academia_cr.RegistrationRepository.Integrity.{create-Sound, drop_registration-Sound}
use academia_cr.RegistrationRepository.Enrolment.{
  create-frame, create-seats-le, drop_registration-frame, drop_registration-seats-le,
}
use academia_cr.RegistrationService.{register_student, drop_student}
use academia_cr.RegistrationService.Body.{MayCreate, register_student_keeps, drop_student_keeps}

-- remaining > 0 leaves room for one more.
room_left :
    (capacity : ℤ) (n m : ℕ)
    → leb_ℤ (capacity -ℤ pos n) (pos 0) ≡ false
    → m ≤ n + 1
    → pos m ≤ℤ capacity
unfolding ◌-ℤ◌
room_left capacity n m h k = ground arith

fewer_fit : (capacity : ℤ) (n m : ℕ) → pos n ≤ℤ capacity → m ≤ n → pos m ≤ℤ capacity
fewer_fit capacity n m h k = omega arith

-- A course's row is found in the same way after an operation that keeps the table courses.
same_row :
    (t u : Tables) (c : ℕ) {row : CourseRow}
    → u.courses ≡ t.courses
    → select_first (has_id c) u.courses ≡ some row
    → select_first (has_id c) t.courses ≡ some row
same_row t u c {row} h = subst (λ (l : List CourseRow). select_first (has_id c) l ≡ some row) h

module _ (e : Answers) (now s c : ℕ) (d : Connection) (v : RegistrationsSound d.tables) where
  -- The course whose seats were counted has one left, so one more stays within its capacity.
  create-WithinCapacity :
      MayCreate e now s c d → WithinCapacity d.tables → WithinCapacity (create e now s c d).1.tables
  create-WithinCapacity m w c' row found =
      let same : select_first (has_id c') d.tables.courses ≡ some row =
        same_row d.tables (create e now s c d).1.tables c' (create-frame e now s c d).1 found in
      elim (Bool-cases (c == c')) [
        | inl own ↦
            let e' : c ≡ c' = eq_of_== c c' own in
            let r' : m.row ≡ row = ground (arith, m.found) in
            room_left row.capacity (get_enrolled_count d.tables c')
              (get_enrolled_count (create e now s c d).1.tables c') (ground (arith, m.room))
              (ground (arith, create-seats-le e now s c d v c'))
        | inr other ↦
            fewer_fit row.capacity (get_enrolled_count d.tables c')
              (get_enrolled_count (create e now s c d).1.tables c') (w c' row same)
              (ground (arith, create-seats-le e now s c d v c'))
      ]

-- Whatever SQLite answers, a call of register_student, successful or not, keeps the keys of the
-- table registrations sound and every course within its capacity.
pub register_student-IsSafe :
    (e : Answers) (now s c : ℕ) (d : Connection)
    → IsSafe d.tables
    → IsSafe (register_student e now s c d).1.tables
register_student-IsSafe e now s c d v = register_student_keeps e now s c d IsSafe v λ m. record {
  sound = create-Sound e now s c (begun d) v.sound;
  capacity = create-WithinCapacity e now s c (begun d) v.sound m v.capacity;
}

-- Whatever SQLite answers, a call of drop_student, successful or not, keeps the keys of the table
-- registrations sound and every course within its capacity.
pub drop_student-IsSafe :
    (e : Answers) (s c : ℕ) (d : Connection)
    → IsSafe d.tables
    → IsSafe (drop_student e s c d).1.tables
drop_student-IsSafe e s c d v = drop_student_keeps e s c d IsSafe v (record {
  sound = drop_registration-Sound e 0 s c (begun d) v.sound;
  capacity = λ c' row found.
      fewer_fit row.capacity (get_enrolled_count d.tables c')
        (get_enrolled_count (drop_registration e s c (begun d)).1.tables c')
        (v.capacity c' row (
          same_row d.tables (drop_registration e s c (begun d)).1.tables c'
            (drop_registration-frame e s c (begun d)).1 found))
        (drop_registration-seats-le e s c (begun d) c');
})
