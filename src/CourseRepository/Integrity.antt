-- ===== src/CourseRepository/Integrity.antt =====
-- The statements of CourseRepository keep the registrations sound and every course within capacity.
use academia_cr.Prelude.{
  ℕ, ◌≤◌, ◌≡◌, ◌⊎◌, refl, inl, inr, Bool, true, false, some, List, [], ◌∷◌, arith, ◌==◌, Bool-cases,
  pos, ◌≤ℤ◌, select_first, count_where, update_where, delete_where,
}
use academia_cr.Prelude.Counting.{
  count_where_mono, count_where-delete_where-le, count_where-delete_where-all, select_first-append,
  select_first-delete_where, select_first-delete_where-all, has_value-update_where,
  delete_where_absent,
}
use academia_cr.Models.{Course, CourseRow, Registration}
use academia_cr.Database.{Tables, Connection, Answers}
use academia_cr.RegistrationRepository.{is_pair}
use academia_cr.Integrity.{
  RegistrationsSound, WithinCapacity, of_student, of_course, numbered, has_course,
}
use academia_cr.CourseRepository.{
  has_id, takes_seat, get_enrolled_count, create, new_course, accepts_course, set_course, update,
  remove,
}

-- The rows of a course that takes a seat are rows of the course.
seats_of_course :
    (t : Tables) (c : ℕ) → get_enrolled_count t c ≤ count_where (of_course c) t.registrations
unfolding get_enrolled_count
seats_of_course t c =
    count_where_mono (takes_seat c) (of_course c) t.registrations (λ r h. ground arith)

-- The row of a course after an UPDATE of the course `id`.
updated_row :
    (id c : ℕ) (course : Course) (rows : List CourseRow) (row : CourseRow)
    → select_first (has_id c) (update_where (has_id id) (set_course course) rows) ≡ some row
    → ((c ≡ id) × (row.capacity ≡ course.capacity)) ⊎ (select_first (has_id c) rows ≡ some row)
unfolding select_first update_where
updated_row id c course [] row h = inr h
updated_row id c course (r ∷ rows) row h = ground (arith, updated_row id c course rows row)

module _ (e : Answers) (c : Connection) where
  abbrev after_create : ℕ → Course → Tables
  after_create now course = (create e now course c).1.tables

  pub create-Sound :
      (now : ℕ) (course : Course)
      → RegistrationsSound c.tables
      → RegistrationsSound (after_create now course)
  unfolding create
  create-Sound now course v = record {
    pairs = λ s' c'. ground (arith, v.pairs s' c');
    ids = λ n. ground (arith, v.ids n);
    fresh = λ n h. ground (arith, v.fresh n);
    students = λ s' h. ground (arith, v.students s');
    courses = λ c' h. ground (
      arith,
      v.courses c',
      select_first-append (has_id c') c.tables.courses (new_course c.tables now course ∷ []),
    );
  }

  -- A new course starts with no registration, and its CHECK demands a positive capacity.
  pub create-WithinCapacity :
      (now : ℕ) (course : Course)
      → RegistrationsSound c.tables
      → WithinCapacity c.tables
      → WithinCapacity (after_create now course)
  unfolding create accepts_course get_enrolled_count select_first
  create-WithinCapacity now course v w c' row found = ground (
    arith,
    w c' row,
    v.courses c',
    seats_of_course c.tables c',
    select_first-append (has_id c') c.tables.courses (new_course c.tables now course ∷ []),
  )

  pub update-Sound :
      (course : Course)
      → RegistrationsSound c.tables
      → RegistrationsSound (update e course c).1.tables
  unfolding update
  update-Sound course v = record {
    pairs = λ s' c'. ground (arith, v.pairs s' c');
    ids = λ n. ground (arith, v.ids n);
    fresh = λ n h. ground (arith, v.fresh n);
    students = λ s' h. ground (arith, v.students s');
    courses = λ c' h. ground (
      arith,
      v.courses c',
      has_value-update_where (has_id course.id) (has_id c') (set_course course) c.tables.courses
          (λ r. refl),
    );
  }

  -- An update whose new capacity covers the course's active registrations.
  pub update-WithinCapacity :
      (course : Course)
      → pos (get_enrolled_count c.tables course.id) ≤ℤ course.capacity
      → WithinCapacity c.tables
      → WithinCapacity (update e course c).1.tables
  unfolding update get_enrolled_count
  update-WithinCapacity course fits w c' row found =
      ground (arith, w c' row, updated_row course.id c' course c.tables.courses row)

-- DELETE of a course, with its registrations.
abbrev pub deleted : Tables → ℕ → Tables
deleted t id = record t {
  courses = delete_where (has_id id) t.courses;
  registrations = delete_where (of_course id) t.registrations;
}

module _ (t : Tables) (id : ℕ) (v : RegistrationsSound t) where
  rows-le :
      (q : Registration → Bool)
      → count_where q (deleted t id).registrations ≤ count_where q t.registrations
  rows-le q = count_where-delete_where-le (of_course id) q t.registrations

  other_course :
      (c : ℕ) → (c == id) ≡ false → (r : CourseRow) → has_id c r ≡ true → has_id id r ≡ false
  other_course c h r k = ground arith

  deleted_courses :
      (c : ℕ)
      → has_course (deleted t id) c ≡ false
      → count_where (of_course c) (deleted t id).registrations ≡ 0
  deleted_courses c h = elim (Bool-cases (c == id)) [
    | inl own ↦
        count_where-delete_where-all (of_course id) (of_course c) t.registrations
          (λ r k. ground arith)
    | inr other ↦ ground (
      arith,
      v.courses c,
      rows-le (of_course c),
      select_first-delete_where (has_id id) (has_id c) t.courses (other_course c other),
    )
  ]

  deleted-Sound : RegistrationsSound (deleted t id)
  deleted-Sound = record {
    pairs = λ s' c'. omega (arith, v.pairs s' c', rows-le (is_pair s' c'));
    ids = λ n. omega (arith, v.ids n, rows-le (numbered n));
    fresh = λ n h. omega (arith, v.fresh n h, rows-le (numbered n));
    students = λ s' h. omega (arith, v.students s' h, rows-le (of_student s'));
    courses = deleted_courses;
  }

  deleted-WithinCapacity : WithinCapacity t → WithinCapacity (deleted t id)
  unfolding get_enrolled_count
  deleted-WithinCapacity w c row found = elim (Bool-cases (c == id)) [
    | inl own ↦ absurd (
        ground (
          arith,
          select_first-delete_where-all (has_id id) (has_id c) t.courses (λ r k. ground arith),
        ))
    | inr other ↦ ground (
      arith,
      w c row,
      rows-le (takes_seat c),
      select_first-delete_where (has_id id) (has_id c) t.courses (other_course c other),
    )
  ]

-- A DELETE that matches no course.
module _ (t : Tables) (id : ℕ) (absent : has_course t id ≡ false) where
  unmatched : delete_where (has_id id) t.courses ≡ t.courses
  unmatched = delete_where_absent (has_id id) t.courses absent

module _ (e : Answers) (id : ℕ) (c : Connection) where
  -- What remove leaves in the tables, on each of its branches.
  pub remove_cases :
      (P : Tables → Type 0) → P c.tables → P (deleted c.tables id) → P (remove e id c).1.tables
  unfolding remove
  remove_cases P before after = elim (Bool-cases e.delete_done) [
    | inl h ↦ elim (Bool-cases (has_course c.tables id)) [
      | inl k ↦ rw (h, k) after
      | inr k ↦ rw (h, k) (rw (unmatched c.tables id k) before)
    ]
    | inr h ↦ rw h before
  ]

  pub remove-Sound : RegistrationsSound c.tables → RegistrationsSound (remove e id c).1.tables
  remove-Sound v = remove_cases RegistrationsSound v (deleted-Sound c.tables id v)

  pub remove-WithinCapacity :
      RegistrationsSound c.tables
      → WithinCapacity c.tables
      → WithinCapacity (remove e id c).1.tables
  remove-WithinCapacity v w = remove_cases WithinCapacity w (deleted-WithinCapacity c.tables id v w)
