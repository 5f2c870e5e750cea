-- ===== src/RegistrationRepository/Enrolment.antt =====
-- What create and drop_registration do to the set of active registrations and to the seats taken.
use academia_cr.Prelude.{
  ℕ, ◌+◌, ◌≤◌, ◌≡◌, refl, inl, inr, true, ◌&&◌, [], ◌∷◌, arith, ◌==◌, ltb, if◌then◌else◌,
  Bool-cases, count_where,
}
use academia_cr.Prelude.Counting.{count_where-append}
use academia_cr.Database.{Tables, Connection, ok, Answers}
use academia_cr.Integrity.{RegistrationsSound}
use academia_cr.CourseRepository.{takes_seat, get_enrolled_count}
use academia_cr.RegistrationRepository.{
  is_enrolled, is_dropped, update_dropped, insert_registration, new_registration, create_updated,
  create, drop_registration,
}
use academia_cr.RegistrationRepository.Effects.{
  enrolled-reactivate, seats-reactivate, enrolled-deactivate, seats-deactivate, pair-split,
}

-- Number of active rows of a pair.
abbrev pub enrolled : Tables → ℕ → ℕ → ℕ
enrolled t s c = count_where (is_enrolled s c) t.registrations

-- One more active registration, of this pair, and nothing else that a service reads.
pub record Enrols (s c : ℕ) (t u : Tables) : Type 0 where
  pub pairs :
      (s' c' : ℕ) → enrolled u s' c' ≡ enrolled t s' c' + (if s == s' && c == c' then 1 else 0)
  pub seats :
      (c' : ℕ) → get_enrolled_count u c' ≡ get_enrolled_count t c' + (if c == c' then 1 else 0)

module _ (e : Answers) (now s c : ℕ) (d : Connection) where
  pub create-frame :
      ((create e now s c d).1.tables.users ≡ d.tables.users)
      × ((create e now s c d).1.tables.courses ≡ d.tables.courses)
      × ((create e now s c d).1.tables.sessions ≡ d.tables.sessions)
      × ((create e now s c d).1.backup ≡ d.backup)
  unfolding create
  create-frame = (ground arith, ground arith, ground arith, ground arith)

  insert-Enrols :
      (id : ℕ) (d' : Connection)
      → insert_registration e now s c d ≡ (ok id, d')
      → Enrols s c d.tables d'.tables
  unfolding insert_registration get_enrolled_count count_where
  insert-Enrols id d' h = record {
    pairs = λ s' c'. ground (
      arith,
      count_where-append (is_enrolled s' c') d.tables.registrations
          (new_registration d.tables now s c ∷ []),
    );
    seats = λ c'. ground (
      arith,
      count_where-append (takes_seat c') d.tables.registrations
          (new_registration d.tables now s c ∷ []),
    );
  }

-- The two ways through create, when its UPDATE is carried out.
module _ (e : Answers) (now s c : ℕ) (d : Connection) (done : e.update_done ≡ true)
    (v : RegistrationsSound d.tables) (free : enrolled d.tables s c ≡ 0) where
  dropped_rows : ℕ
  dropped_rows = count_where (is_dropped s c) d.tables.registrations

  dropped_rows-le : dropped_rows ≤ 1
  unfolding dropped_rows
  dropped_rows-le = omega (arith, v.pairs s c, pair-split s c d.tables.registrations)

  updated-pairs :
      (s' c' : ℕ)
      → enrolled (update_dropped e now s c d).tables s' c'
        ≡ enrolled d.tables s' c' + (if s == s' && c == c' then dropped_rows else 0)
  unfolding update_dropped dropped_rows
  updated-pairs s' c' = rw done (enrolled-reactivate now s c s' c' d.tables.registrations)

  updated-seats :
      (c' : ℕ)
      → get_enrolled_count (update_dropped e now s c d).tables c'
        ≡ get_enrolled_count d.tables c' + (if c == c' then dropped_rows else 0)
  unfolding update_dropped get_enrolled_count dropped_rows
  updated-seats c' = rw done (seats-reactivate now s c c' d.tables.registrations)

  updated-changed_rows : (update_dropped e now s c d).changed_rows ≡ dropped_rows
  unfolding update_dropped dropped_rows
  updated-changed_rows = rw done refl

  pub create-Enrols :
      (id : ℕ) (d' : Connection) → create e now s c d ≡ (ok id, d') → Enrols s c d.tables d'.tables
  unfolding create create_updated
  create-Enrols id d' h = elim (Bool-cases (ltb 0 (update_dropped e now s c d).changed_rows)) [
    | inl found ↦ record {
      pairs = λ s' c'. ground (arith, updated-pairs s' c', updated-changed_rows, dropped_rows-le);
      seats = λ c'. ground (arith, updated-seats c', updated-changed_rows, dropped_rows-le);
    }
    | inr fresh ↦
        let new = insert-Enrols e now s c (update_dropped e now s c d) id d' (ground arith) in
        record {
          pairs =
              λ s' c'. ground (arith, new.pairs s' c', updated-pairs s' c', updated-changed_rows);
          seats = λ c'. ground (arith, new.seats c', updated-seats c', updated-changed_rows);
        }
  ]

module _ (e : Answers) (now s c : ℕ) (d : Connection) (v : RegistrationsSound d.tables) where
  update_dropped-seats-le :
      (c' : ℕ)
      → get_enrolled_count (update_dropped e now s c d).tables c'
        ≤ get_enrolled_count d.tables c' + (if c == c' then 1 else 0)
  unfolding update_dropped get_enrolled_count
  update_dropped-seats-le c' = ground (
    arith,
    seats-reactivate now s c c' d.tables.registrations,
    v.pairs s c,
    pair-split s c d.tables.registrations,
  )

module _ (e : Answers) (now s c : ℕ) (d : Connection) where
  insert_seats-le :
      (c' : ℕ)
      → get_enrolled_count (insert_registration e now s c d).1.tables c'
        ≤ get_enrolled_count d.tables c' + (if c == c' then 1 else 0)
  unfolding insert_registration get_enrolled_count count_where
  insert_seats-le c' = ground (
    arith,
    count_where-append (takes_seat c') d.tables.registrations
        (new_registration d.tables now s c ∷ []),
  )

  update_dropped_unchanged :
      (c' : ℕ)
      → (update_dropped e now s c d).changed_rows ≡ 0
      → get_enrolled_count (update_dropped e now s c d).tables c' ≡ get_enrolled_count d.tables c'
  unfolding update_dropped get_enrolled_count
  update_dropped_unchanged c' h = ground (arith, seats-reactivate now s c c' d.tables.registrations)

module _ (e : Answers) (now s c : ℕ) (d : Connection) (v : RegistrationsSound d.tables) where
  -- Whatever SQLite answers, create takes at most one seat, in its own course.
  pub create-seats-le :
      (c' : ℕ)
      → get_enrolled_count (create e now s c d).1.tables c'
        ≤ get_enrolled_count d.tables c' + (if c == c' then 1 else 0)
  unfolding create create_updated
  create-seats-le c' = ground (
    arith,
    update_dropped-seats-le e now s c d v c',
    update_dropped_unchanged e now s c d c',
    insert_seats-le e now s c (update_dropped e now s c d) c',
  )

-- drop_registration when its UPDATE is carried out.
module _ (e : Answers) (s c : ℕ) (d : Connection) where
  pub drop_registration-frame :
      ((drop_registration e s c d).1.tables.users ≡ d.tables.users)
      × ((drop_registration e s c d).1.tables.courses ≡ d.tables.courses)
      × ((drop_registration e s c d).1.tables.sessions ≡ d.tables.sessions)
      × ((drop_registration e s c d).1.backup ≡ d.backup)
  unfolding drop_registration
  drop_registration-frame = (ground arith, ground arith, ground arith, ground arith)

  pub drop_registration-pairs :
      e.update_done ≡ true
      → (s' c' : ℕ)
      → enrolled (drop_registration e s c d).1.tables s' c'
        ≡ (if s == s' && c == c' then 0 else enrolled d.tables s' c')
  unfolding drop_registration
  drop_registration-pairs h s' c' = rw h (enrolled-deactivate s c s' c' d.tables.registrations)

  pub drop_registration-seats :
      e.update_done ≡ true
      → (c' : ℕ)
      → get_enrolled_count (drop_registration e s c d).1.tables c'
          + (if c == c' then enrolled d.tables s c else 0)
        ≡ get_enrolled_count d.tables c'
  unfolding drop_registration get_enrolled_count
  drop_registration-seats h c' = rw h (seats-deactivate s c c' d.tables.registrations)

  pub drop_registration-seats-le :
      (c' : ℕ)
      → get_enrolled_count (drop_registration e s c d).1.tables c' ≤ get_enrolled_count d.tables c'
  unfolding drop_registration get_enrolled_count
  drop_registration-seats-le c' = ground (arith, seats-deactivate s c c' d.tables.registrations)
