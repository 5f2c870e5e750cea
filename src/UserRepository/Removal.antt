-- ===== src/UserRepository/Removal.antt =====
-- Deleting a user: the actions of the foreign keys keep the registrations sound and every course
-- within capacity.
use academia_cr.Prelude.{
  ℕ, ◌≤◌, ◌≡◌, refl, inl, inr, Bool, false, some, List, [], ◌∷◌, arith, ◌==◌, Bool-cases, has_value,
  select_first, count_where, update_where, delete_where,
}
use academia_cr.Prelude.Counting.{
  count_where-delete_where-le, count_where-delete_where-all, select_first-delete_where,
  has_value-update_where,
}
use academia_cr.Models.{CourseRow, Registration}
use academia_cr.Database.{Tables, Connection, Answers}
use academia_cr.RegistrationRepository.{is_pair}
use academia_cr.CourseRepository.{has_id, has_user, takes_seat, get_enrolled_count}
use academia_cr.Integrity.{IsSafe, of_student, of_course, numbered}
use academia_cr.UserRepository.{user_has_id, teaches, clear_faculty, without_user, remove}

-- Clearing the faculty of some courses changes the capacity of none.
cleared_row :
    (id c : ℕ) (rows : List CourseRow) (row : CourseRow)
    → select_first (has_id c) (update_where (teaches id) clear_faculty rows) ≡ some row
    → (old : CourseRow) × (select_first (has_id c) rows ≡ some old) × (row.capacity ≡ old.capacity)
unfolding select_first update_where
cleared_row id c [] row h = absurd (ground arith)
cleared_row id c (r ∷ rows) row h = elim (Bool-cases (has_id c r)) [
  | inl own ↦ (r, ground arith, ground arith)
  | inr other ↦
      let (old, k, same) = cleared_row id c rows row (ground arith) in (old, ground arith, same)
]

module _ (t : Tables) (id : ℕ) (v : IsSafe t) where
  abbrev rows : List Registration
  rows = delete_where (of_student id) t.registrations

  rows-le : (q : Registration → Bool) → count_where q rows ≤ count_where q t.registrations
  rows-le q = count_where-delete_where-le (of_student id) q t.registrations

  other_users :
      (s : ℕ) → has_user (without_user t id) s ≡ false → count_where (of_student s) rows ≡ 0
  unfolding without_user
  other_users s h = elim (Bool-cases (s == id)) [
    | inl own ↦
        count_where-delete_where-all (of_student id) (of_student s) t.registrations
          (λ r k. ground arith)
    | inr other ↦ ground (
      arith,
      v.sound.students s,
      rows-le (of_student s),
      select_first-delete_where (user_has_id id) (user_has_id s) t.users (λ u k. ground arith),
    )
  ]

  without_user-IsSafe : IsSafe (without_user t id)
  unfolding without_user get_enrolled_count
  without_user-IsSafe = record {
    sound = record {
      pairs = λ s c. ground (arith, v.sound.pairs s c, rows-le (is_pair s c));
      ids = λ n. ground (arith, v.sound.ids n, rows-le (numbered n));
      fresh = λ n h. ground (arith, v.sound.fresh n, rows-le (numbered n));
      students = other_users;
      courses = λ c h. ground (
        arith,
        v.sound.courses c,
        rows-le (of_course c),
        has_value-update_where (teaches id) (has_id c) clear_faculty t.courses (λ r. refl),
      );
    };
    capacity = λ c row found.
        let (old, k, same) = cleared_row id c t.courses row found in
        ground (arith, v.capacity c old, rows-le (takes_seat c));
  }

-- Deleting a user, whatever SQLite answers, keeps the registrations sound, none of them left behind
-- by the deleted student, and every course within its capacity.
pub remove-IsSafe :
    (e : Answers) (id : ℕ) (c : Connection) → IsSafe c.tables → IsSafe (remove e id c).1.tables
unfolding remove
remove-IsSafe e id c v = elim (Bool-cases e.delete_done) [
  | inl h ↦ elim (Bool-cases (has_value (select_first (user_has_id id) c.tables.users))) [
    | inl k ↦ rw (h, k) (without_user-IsSafe c.tables id v)
    | inr k ↦ rw (h, k) v
  ]
  | inr h ↦ rw h v
]
