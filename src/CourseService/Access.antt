-- ===== src/CourseService/Access.antt =====
-- Who may do what to courses, and what a successful answer means.
use academia_cr.Prelude.{
  ℕ, suc, ◌≡◌, ◌≢◌, ◌⊎◌, inl, inr, true, false, none, some, [], ◌∷◌, ◌++◌, arith, pos, ◌≤ℤ◌,
  Option-cases, count_where, update_where,
}
use academia_cr.Models.{faculty, student, User, Course}
use academia_cr.Database.{Tables, Connection, Answers}
use academia_cr.CourseRepository
use academia_cr.CourseRepository.{
  find_by_id, find_by_code, get_enrolled_count, has_id, has_user, new_course, set_course,
  accepts_course, accepts_update, column_id,
}
use academia_cr.Prelude.Counting.{select_first-delete_where-all, count_where-delete_where-all}
use academia_cr.Integrity.{has_course, of_course}
use academia_cr.Text.{is_empty}
use academia_cr.CourseService.{create_course, update_course, delete_course}

-- Each of create_course, update_course and delete_course succeeds or leaves the connection as it was.
pub refusals_change_nothing :
    (e : Answers) (now id : ℕ) (course : Course) (requester : User) (c : Connection)
    → (((create_course e now course requester c).0.success ≡ true)
        ⊎ ((create_course e now course requester c).1 ≡ c))
      × (((update_course e course requester c).0.success ≡ true)
          ⊎ ((update_course e course requester c).1 ≡ c))
      × (((delete_course e id requester c).0.success ≡ true)
          ⊎ ((delete_course e id requester c).1 ≡ c))
unfolding create_course update_course delete_course CourseRepository.create
refusals_change_nothing e now id course requester c = (ground arith, ground arith, ground arith)

-- What a course must satisfy to be created.
pub record IsValidCourse (t : Tables) (course : Course) : Type 0 where
  pub code : is_empty course.course_code ≡ false
  pub name : is_empty course.course_name ≡ false
  pub capacity : pos 1 ≤ℤ course.capacity
  pub credits_low : pos 1 ≤ℤ course.credits
  pub credits_high : course.credits ≤ℤ pos 6
  pub fresh : find_by_code t course.course_code ≡ none

-- create_course succeeds only for an admin or a faculty member and a valid course whose faculty id
-- is a user, and has then added exactly that course, under the next id, which it returns.
pub create_course_success :
    (e : Answers) (now : ℕ) (course : Course) (requester : User) (c : Connection)
    → (create_course e now course requester c).0.success ≡ true
    → (requester.role ≢ student)
      × IsValidCourse c.tables course
      × (has_user c.tables course.faculty_id ≡ true)
      × ((create_course e now course requester c).0.course_id ≡ suc c.tables.course_seq)
      × ((create_course e now course requester c).1.tables ≡ record c.tables {
        courses = c.tables.courses ++ new_course c.tables now course ∷ [];
        course_seq = suc c.tables.course_seq;
      })
unfolding create_course CourseRepository.create accepts_course
create_course_success e now course requester c h = (
  ground arith,
  record {
    code = ground arith;
    name = ground arith;
    capacity = ground arith;
    credits_low = ground arith;
    credits_high = ground arith;
    fresh = ground arith;
  },
  ground arith,
  ground arith,
  ground arith,
)

module _ (e : Answers) (course : Course) (requester : User) (c : Connection) where
  -- A faculty member updates, with success, only a course of which they are the faculty.
  pub faculty_updates_own :
      requester.role ≡ faculty
      → (update_course e course requester c).0.success ≡ true
      → (old : Course) × (find_by_id c.tables course.id ≡ some old)
        × (old.faculty_id ≡ requester.id)
  unfolding update_course
  faculty_updates_own role h = elim (Option-cases (find_by_id c.tables course.id)) [
    | inl k ↦ absurd (ground arith)
    | inr (old, k) ↦ (old, k, ground arith)
  ]

  -- If update_course passes its checks but names a faculty id that is no user, the UPDATE breaks a
  -- foreign key and changes nothing, and the answer is success all the same.
  pub update_course_lost :
      (update_course e course requester c).0.success ≡ true
      → has_user c.tables course.faculty_id ≡ false
      → (update_course e course requester c).1 ≡ c
  unfolding update_course CourseRepository.update accepts_update find_by_id
  update_course_lost h unknown = ground arith

  -- An update that is carried out has set the five columns in the course's row and nothing else.
  pub update_course_success :
      e.update_done ≡ true
      → has_user c.tables course.faculty_id ≡ true
      → (update_course e course requester c).0.success ≡ true
      → (update_course e course requester c).1.tables ≡ record c.tables {
        courses = update_where (has_id course.id) (set_course course) c.tables.courses;
      }
  unfolding update_course CourseRepository.update accepts_update
  update_course_success carried known h = ground arith

-- A faculty member deletes, with success, only a course of which they are the faculty.
pub faculty_deletes_own :
    (e : Answers) (id : ℕ) (requester : User) (c : Connection)
    → requester.role ≡ faculty
    → (delete_course e id requester c).0.success ≡ true
    → (old : Course) × (find_by_id c.tables id ≡ some old) × (old.faculty_id ≡ requester.id)
unfolding delete_course
faculty_deletes_own e id requester c role h = elim (Option-cases (find_by_id c.tables id)) [
  | inl k ↦ absurd (ground arith)
  | inr (old, k) ↦ (old, k, ground arith)
]

-- A student passes the checks of delete_course for any course that exists: where SQLite carries out
-- the DELETE, it reports success, and the course and all its registrations are gone.
pub delete_course_by_student :
    (e : Answers) (id : ℕ) (requester : User) (old : Course) (c : Connection)
    → requester.role ≡ student
    → find_by_id c.tables id ≡ some old
    → e.delete_done ≡ true
    → ((delete_course e id requester c).0.success ≡ true)
      × (has_course (delete_course e id requester c).1.tables id ≡ false)
      × (count_where (of_course id) (delete_course e id requester c).1.tables.registrations ≡ 0)
unfolding delete_course CourseRepository.remove find_by_id
delete_course_by_student e id requester old c role found carried =
    let gone = select_first-delete_where-all (has_id id) (has_id id) c.tables.courses (λ r k. k) in
    let rows =
      count_where-delete_where-all (of_course id) (of_course id) c.tables.registrations
        (λ r k. k) in
    (ground arith, ground (arith, gone), ground (arith, rows))
