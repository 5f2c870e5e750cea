-- ===== src/FileOps/Agreement/Enrolling.antt =====
-- What enroll_course does: it refuses and changes nothing, or adds the course to the student and the
-- student to the course, inside both arrays.
use academia_cr.Prelude.{
  ℕ, ◌≡◌, ap, ◌∙◌, ◌⊎◌, inl, inr, String, true, false, none, some, List, arith, negsuc, leb_ℤ,
  select_first, ltb, if◌then◌else◌, Bool-cases, Option-cases,
}
use academia_cr.FileOps.{Files, Opens, Course, Student, returns, open_file}
use academia_cr.FileOps.Accounts.{is_student_id}
use academia_cr.FileOps.Catalog.{is_course_id}
use academia_cr.FileOps.Enrolment.{
  turns, empty_slot, find_slot, refusal, write_both, enroll_found, enroll_course,
}
use academia_cr.FileOps.Entries.{times, slot_cases, is_listed-times}
use academia_cr.FileOps.Agreement.{roster, CourseFits, InBounds, count_is_pos, opened_records}

module _ (os : Opens) (s c : String) (f : Files) where
  -- What enroll_course has found when it writes.
  pub record MayEnroll : Type 0 where
    pub students : List Student
    pub courses : List Course
    pub student : Student
    pub course : Course
    pub slot : ℕ
    pub students_opened : open_file os.students_open f.students ≡ some students
    pub courses_opened : open_file os.courses_open f.courses ≡ some courses
    pub student_found : select_first (is_student_id s) students ≡ some student
    pub course_found : select_first (is_course_id c) courses ≡ some course
    pub active : student.active ≡ true
    pub free_slot : find_slot c student.enrolled_courses ≡ empty_slot slot
    pub room : leb_ℤ course.total_seats course.enrolled_count ≡ false
    pub absent : times s (roster course) ≡ 0
    pub writes : enroll_course os s c f ≡ write_both s c slot students courses course f

  abbrev pub Refused : Type 0
  Refused = (n : ℕ) × (enroll_course os s c f ≡ returns (negsuc n, f))

  refusal_returns :
      (course : Course)
      → CourseFits course
      → (leb_ℤ course.total_seats course.enrolled_count ≡ false)
      → refusal s course
        ≡ returns (if ltb 0 (times s (roster course)) then some (negsuc 2) else none)
  unfolding refusal
  refusal_returns course fit room = ground (
    arith,
    room,
    count_is_pos course.enrolled_count fit.low,
    is_listed-times s (turns course.enrolled_count) course.enrolled_students,
    fit.long,
    fit.within,
    fit.seats,
    Bool-cases (ltb 0 (times s (roster course))),
  )

  -- The course, once the student has a free entry.
  course_cases :
      InBounds f
      → (students : List Student) (student : Student) (slot : ℕ)
      → open_file os.students_open f.students ≡ some students
      → select_first (is_student_id s) students ≡ some student
      → student.active ≡ true
      → find_slot c student.enrolled_courses ≡ empty_slot slot
      → MayEnroll ⊎ Refused
  unfolding enroll_course enroll_found
  course_cases v students student slot h k a e =
      elim (Option-cases (open_file os.courses_open f.courses)) [
        | inl o ↦ inr (0, ground (arith, h, k, a, e, o))
        | inr (courses, o) ↦ elim (Option-cases (select_first (is_course_id c) courses)) [
          | inl m ↦ inr (5, ground (arith, h, k, a, e, o, m))
          | inr (course, m) ↦
              let fit = v.fits c course (
                ap (select_first (is_course_id c))
                  (opened_records os.courses_open f.courses courses o)
                ∙ m) in
              elim (Bool-cases (leb_ℤ course.total_seats course.enrolled_count)) [
                | inl full ↦ inr (1, unfold refusal in ground (arith, h, k, a, e, o, m, full))
                | inr room ↦
                    let verdict = refusal_returns course fit room in
                    elim (Bool-cases (ltb 0 (times s (roster course)))) [
                      | inl there ↦ inr (2, ground (arith, h, k, a, e, o, m, verdict, there))
                      | inr gone ↦ inl (record {
                        students = students;
                        courses = courses;
                        student = student;
                        course = course;
                        slot = slot;
                        students_opened = h;
                        courses_opened = o;
                        student_found = k;
                        course_found = m;
                        active = a;
                        free_slot = e;
                        room = room;
                        absent = ground (arith, gone);
                        writes = ground (arith, h, k, a, e, o, m, verdict, gone);
                      })
                    ]
              ]
        ]
      ]

  -- Without an overflow, enroll_course refuses and leaves the files alone, or comes to its writes.
  pub enroll-cases : InBounds f → MayEnroll ⊎ Refused
  unfolding enroll_course
  enroll-cases v = elim (Option-cases (open_file os.students_open f.students)) [
    | inl h ↦ inr (0, ground (arith, h))
    | inr (students, h) ↦ elim (Option-cases (select_first (is_student_id s) students)) [
      | inl k ↦ inr (0, ground (arith, h, k))
      | inr (student, k) ↦ elim (Bool-cases student.active) [
        | inl a ↦ elim (slot_cases (find_slot c student.enrolled_courses)) [
          | inl (inl e) ↦ inr (2, ground (arith, h, k, a, e))
          | inl (inr e) ↦ inr (1, ground (arith, h, k, a, e))
          | inr (slot, e) ↦ course_cases v students student slot h k a e
        ]
        | inr a ↦ inr (4, ground (arith, h, k, a))
      ]
    ]
  ]
