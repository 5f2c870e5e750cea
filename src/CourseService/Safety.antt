-- ===== src/CourseService/Safety.antt =====
-- Every operation of CourseService keeps the registrations sound and each course within capacity.
use academia_cr.Prelude.{ℕ, ◌≡◌, ◌⊎◌, sym, subst, ℤ, inl, inr, false, arith, ◌≤ℤ◌, pos, ltb_ℤ}
use academia_cr.Models.{User, Course}
use academia_cr.Database.{Connection, Answers}
use academia_cr.Database.Transaction.{Result-cases}
use academia_cr.Integrity.{IsSafe}
use academia_cr.CourseRepository
use academia_cr.CourseRepository.{find_by_id, get_enrolled_count}
use academia_cr.CourseRepository.Integrity.{
  create-Sound, create-WithinCapacity, update-Sound, update-WithinCapacity, remove-Sound,
  remove-WithinCapacity,
}
use academia_cr.CourseService.{create_course, update_course, delete_course}

module _ (e : Answers) (requester : User) (c : Connection) where
  -- create_course refuses, and leaves the connection alone, or is CourseRepository::create.
  pub create_course_cases :
      (now : ℕ) (course : Course)
      → ((create_course e now course requester c).1 ≡ c)
        ⊎ ((create_course e now course requester c).1 ≡ (CourseRepository.create e now course c).1)
  unfolding create_course
  create_course_cases now course =
      ground (arith, Result-cases (CourseRepository.create e now course c))

  -- update_course refuses, and leaves the connection alone, or is CourseRepository::update with a
  -- capacity that covers the active registrations.
  pub update_course_cases :
      (course : Course)
      → ((update_course e course requester c).1 ≡ c)
        ⊎ (((update_course e course requester c).1 ≡ (CourseRepository.update e course c).1)
            × (ltb_ℤ course.capacity (pos (get_enrolled_count c.tables course.id)) ≡ false))
  unfolding update_course
  update_course_cases course = ground arith

  pub delete_course_cases :
      (id : ℕ)
      → ((delete_course e id requester c).1 ≡ c)
        ⊎ ((delete_course e id requester c).1 ≡ (CourseRepository.remove e id c).1)
  unfolding delete_course
  delete_course_cases id = ground arith

-- What two states of the tables share.
keeps : {c d : Connection} → d ≡ c → IsSafe c.tables → IsSafe d.tables
keeps h v = subst (λ (x : Connection). IsSafe x.tables) (sym h) v

covers : (capacity : ℤ) (n : ℕ) → ltb_ℤ capacity (pos n) ≡ false → pos n ≤ℤ capacity
covers capacity n h = ground arith

module _ (e : Answers) (requester : User) (c : Connection) (v : IsSafe c.tables) where
  -- Whatever SQLite answers and whoever asks, create_course keeps the registrations sound and every
  -- course within its capacity.
  pub create_course-IsSafe :
      (now : ℕ) (course : Course) → IsSafe (create_course e now course requester c).1.tables
  create_course-IsSafe now course = elim (create_course_cases e requester c now course) [
    | inl h ↦ keeps h v
    | inr h ↦ keeps h (record {
      sound = create-Sound e c now course v.sound;
      capacity = create-WithinCapacity e c now course v.sound v.capacity;
    })
  ]

  -- Whatever SQLite answers and whoever asks, update_course keeps the registrations sound and every
  -- course within its capacity: it never brings a capacity below the active registrations.
  pub update_course-IsSafe :
      (course : Course) → IsSafe (update_course e course requester c).1.tables
  update_course-IsSafe course = elim (update_course_cases e requester c course) [
    | inl h ↦ keeps h v
    | inr (h, enough) ↦ keeps h (record {
      sound = update-Sound e c course v.sound;
      capacity =
          update-WithinCapacity e c course
            (covers course.capacity (get_enrolled_count c.tables course.id) enough) v.capacity;
    })
  ]

  -- Whatever SQLite answers and whoever asks, delete_course keeps the registrations sound, none of
  -- them left behind by the deleted course, and every course within its capacity.
  pub delete_course-IsSafe : (id : ℕ) → IsSafe (delete_course e id requester c).1.tables
  delete_course-IsSafe id = elim (delete_course_cases e requester c id) [
    | inl h ↦ keeps h v
    | inr h ↦ keeps h (record {
      sound = remove-Sound e id c v.sound;
      capacity = remove-WithinCapacity e id c v.sound v.capacity;
    })
  ]
