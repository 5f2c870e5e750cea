-- ===== src/RegistrationRepository/Integrity.antt =====
-- The statements of RegistrationRepository keep the table registrations sound.
use academia_cr.Prelude.{
  ℕ, suc, ◌+◌, ◌≡◌, refl, Bool-cases, inl, inr, Bool, true, ◌&&◌, List, [], ◌∷◌, ◌++◌, arith, ltb,
  if◌then◌else◌, count_where, update_where,
}
use academia_cr.Prelude.Counting.{
  count_where-append, count_where-update_where_same, has_value-select_first,
}
use academia_cr.Models.{Registration}
use academia_cr.Database.{Tables, Connection, Answers}
use academia_cr.Integrity.{RegistrationsSound, of_student, of_course, numbered}
use academia_cr.RegistrationRepository.{
  is_pair, is_enrolled, is_dropped, reactivate, deactivate, update_dropped, insert_registration,
  new_registration, accepts_registration, create_updated, create, drop_registration,
}

-- An UPDATE that leaves the three key columns alone.
module _ (p : Registration → Bool) (f : Registration → Registration)
    (same_id : (r : Registration) → (f r).id ≡ r.id)
    (same_student : (r : Registration) → (f r).student_id ≡ r.student_id)
    (same_course : (r : Registration) → (f r).course_id ≡ r.course_id) (t : Tables) where
  same_count :
      (q : Registration → Bool)
      → ((r : Registration) → q (f r) ≡ q r)
      → count_where q (update_where p f t.registrations) ≡ count_where q t.registrations
  same_count q h = count_where-update_where_same p q f t.registrations h

  update-Sound :
      RegistrationsSound t
      → RegistrationsSound (record t { registrations = update_where p f t.registrations })
  update-Sound v = record {
    pairs = λ s' c'.
        rw (same_count (is_pair s' c') (λ r. rw (same_student r, same_course r))) (v.pairs s' c');
    ids = λ n. rw (same_count (numbered n) (λ r. rw (same_id r))) (v.ids n);
    fresh = λ n h. rw (same_count (numbered n) (λ r. rw (same_id r))) (v.fresh n h);
    students = λ s' h. rw (same_count (of_student s') (λ r. rw (same_student r))) (v.students s' h);
    courses = λ c' h. rw (same_count (of_course c') (λ r. rw (same_course r))) (v.courses c' h);
  }

-- The INSERT of a pair that the UNIQUE and foreign keys accept.
module _ (t : Tables) (now s c : ℕ) (v : RegistrationsSound t) where
  abbrev inserted_rows : List Registration
  inserted_rows = t.registrations ++ new_registration t now s c ∷ []

  count-inserted :
      (q : Registration → Bool)
      → count_where q inserted_rows
        ≡ count_where q t.registrations + (if q (new_registration t now s c) then 1 else 0)
  unfolding count_where
  count-inserted q =
      omega (arith, count_where-append q t.registrations (new_registration t now s c ∷ []))

  insert-Sound :
      accepts_registration t s c ≡ true
      → RegistrationsSound
          (record t { registrations = inserted_rows; registration_seq = suc t.registration_seq })
  unfolding accepts_registration
  insert-Sound h = record {
    pairs = λ s' c'. ground (
      arith,
      v.pairs s' c',
      count-inserted (is_pair s' c'),
      has_value-select_first (is_pair s c) t.registrations,
    );
    ids = λ n. ground (arith, v.ids n, v.fresh n, count-inserted (numbered n));
    fresh = λ n k. ground (arith, v.fresh n, count-inserted (numbered n));
    students = λ s' k. ground (arith, v.students s', count-inserted (of_student s'));
    courses = λ c' k. ground (arith, v.courses c', count-inserted (of_course c'));
  }

module _ (e : Answers) (now s c : ℕ) (d : Connection) (v : RegistrationsSound d.tables) where
  update_dropped-Sound : RegistrationsSound (update_dropped e now s c d).tables
  unfolding update_dropped
  update_dropped-Sound = elim (Bool-cases e.update_done) [
    | inl h ↦ rw h (
        update-Sound (is_dropped s c) (reactivate now) (λ r. refl) (λ r. refl) (λ r. refl) d.tables
          v)
    | inr h ↦ rw h v
  ]

  insert_registration-Sound : RegistrationsSound (insert_registration e now s c d).1.tables
  unfolding insert_registration
  insert_registration-Sound =
      elim (Bool-cases (e.insert_done && accepts_registration d.tables s c)) [
        | inl h ↦ rw h (insert-Sound d.tables now s c v (ground arith))
        | inr h ↦ rw h v
      ]

  create_updated-Sound : RegistrationsSound (create_updated e now s c d).1.tables
  unfolding create_updated
  create_updated-Sound = elim (Bool-cases (ltb 0 d.changed_rows)) [
    | inl h ↦ rw h v
    | inr h ↦ rw h insert_registration-Sound
  ]

  pub drop_registration-Sound : RegistrationsSound (drop_registration e s c d).1.tables
  unfolding drop_registration
  drop_registration-Sound = elim (Bool-cases e.update_done) [
    | inl h ↦
        rw h
          (update-Sound (is_enrolled s c) deactivate (λ r. refl) (λ r. refl) (λ r. refl) d.tables v)
    | inr h ↦ rw h v
  ]

pub create-Sound :
    (e : Answers) (now s c : ℕ) (d : Connection)
    → RegistrationsSound d.tables
    → RegistrationsSound (create e now s c d).1.tables
unfolding create
create-Sound e now s c d v =
    create_updated-Sound e now s c (update_dropped e now s c d) (update_dropped-Sound e now s c d v)
