-- ===== src/FileOps/Agreement/Enrolled.antt =====
-- What a successful enroll_course has done.
use academia_cr.Prelude.{
  ℕ, suc, ◌+◌, ◌≡◌, refl, sym, ap, subst, ◌∙◌, String, false, ◌&&◌, some, List, arith, ℤ, pos, ◌+ℤ◌,
  select_first, take, str_eq, eq_iff, if◌then◌else◌,
}
use academia_cr.Text.{is_empty}
use academia_cr.FileOps.{Files, Opens, Course, Student, returns, strncpy, max_id}
use academia_cr.FileOps.Accounts.{is_student_id}
use academia_cr.FileOps.Catalog.{is_course_id}
use academia_cr.FileOps.Enrolment.{turns, add_to_course, add_to_student, write_both, enroll_course}
use academia_cr.FileOps.Entries.{times, same, Stored, store-Stored, times-set_slot, times-find_slot}
use academia_cr.FileOps.Records.{strncpy-suc}
use academia_cr.FileOps.Agreement.{
  records_of, roster, listed_in, taken_by, CourseFits, InBounds, count_is_pos, opened_records,
}
use academia_cr.FileOps.Agreement.Changing.{
  new_courses, changed_listed, changed_course-InBounds, new_students, changed_taken,
  changed_student-InBounds,
}
use academia_cr.FileOps.Agreement.Enrolling.{MayEnroll}

-- 1 for the pair (s, c), 0 for every other.
abbrev pub pair : String → String → String → String → ℕ
pair s c s' c' = if str_eq c c' && str_eq s s' then 1 else 0

-- An enrolment that went through.
pub record Enrolled (os : Opens) (s c : String) (f : Files) : Type 0 where
  pub after : Files
  pub result : enroll_course os s c f ≡ returns (pos 0, after)
  pub was_absent : listed_in (records_of f.courses) s c ≡ 0
  pub was_not_taken : taken_by (records_of f.students) s c ≡ 0
  pub listed :
      (s' c' : String)
      → listed_in (records_of after.courses) s' c'
        ≡ listed_in (records_of f.courses) s' c' + pair s c s' c'
  pub taken :
      (s' c' : String)
      → is_empty c' ≡ false
      → taken_by (records_of after.students) s' c'
        ≡ taken_by (records_of f.students) s' c' + pair s c s' c'
  pub bounded : InBounds after
  pub users : after.users ≡ f.users
  pub faculty : after.faculty ≡ f.faculty

module _ (os : Opens) (s c : String) (f : Files) (v : InBounds f) (m : MayEnroll os s c f) where
  abbrev n : ℕ
  n = turns m.course.enrolled_count

  fit : CourseFits m.course
  fit = v.fits c m.course (
      ap (select_first (is_course_id c))
        (opened_records os.courses_open f.courses m.courses m.courses_opened)
      ∙ m.course_found)

  count_n : m.course.enrolled_count ≡ pos n
  count_n = count_is_pos m.course.enrolled_count fit.low

  stored : Stored n (strncpy s max_id) m.course.enrolled_students
  stored =
      store-Stored n (strncpy s max_id) m.course.enrolled_students
        (ground (arith, count_n, fit.long, fit.seats, m.room))

  abbrev new : Course
  new = record m.course {
    enrolled_students = stored.after;
    enrolled_count = m.course.enrolled_count +ℤ pos 1;
  }

  added : add_to_course s m.course ≡ returns new
  unfolding add_to_course
  added = ground (arith, count_n, stored.stored)

  new_count : new.enrolled_count ≡ pos (suc n)
  unfolding ◌+ℤ◌
  new_count = ground (arith, count_n)

  new_fits : CourseFits new
  new_fits = record {
    long = stored.long ∙ fit.long;
    low = ground (arith, new_count);
    within = ground (arith, new_count, count_n, m.room);
    seats = fit.seats;
  }

  cut_id : strncpy s max_id ≡ s
  cut_id = strncpy-suc s 9 (
      v.student_ids s m.student (
        ap (select_first (is_student_id s))
          (opened_records os.students_open f.students m.students m.students_opened)
        ∙ m.student_found))

  cut_course : strncpy c max_id ≡ c
  cut_course = strncpy-suc c 9 (
      v.course_ids c m.course (
        ap (select_first (is_course_id c))
          (opened_records os.courses_open f.courses m.courses m.courses_opened)
        ∙ m.course_found))

  new-roster : (s' : String) → times s' (roster new) ≡ times s' (roster m.course) + same s s'
  new-roster s' =
      subst (λ (x : String). times s' (roster new) ≡ times s' (roster m.course) + same x s') cut_id
        (subst
          (λ (k : ℤ).
            times s' (take (turns k) stored.after)
            ≡ times s' (roster m.course) + same (strncpy s max_id) s')
          (sym new_count) (stored.counts s'))

  courses_same : records_of f.courses ≡ m.courses
  courses_same = opened_records os.courses_open f.courses m.courses m.courses_opened

  students_same : records_of f.students ≡ m.students
  students_same = opened_records os.students_open f.students m.students m.students_opened

  abbrev change : Student → Student
  change = add_to_student c m.slot

  new_listed :
      (s' c' : String)
      → listed_in (new_courses c m.courses m.course new m.course_found refl) s' c'
        ≡ listed_in m.courses s' c' + pair s c s' c'
  unfolding listed_in
  new_listed s' c' = ground (
    arith,
    changed_listed c m.courses m.course new m.course_found refl s' c',
    new-roster s',
    eq_iff c c',
    ap (select_first (is_course_id c')) courses_same,
    m.course_found,
  )

  new_taken :
      (s' c' : String)
      → is_empty c' ≡ false
      → taken_by (new_students s m.students m.student change m.student_found (λ x. refl)) s' c'
        ≡ taken_by m.students s' c' + pair s c s' c'
  unfolding taken_by
  new_taken s' c' full = ground (
    arith,
    changed_taken s m.students m.student change m.student_found (λ x. refl) s' c',
    eq_iff s s',
    ap (select_first (is_student_id s')) students_same,
    m.student_found,
    ap (λ (x : String). same x c') cut_course,
    times-set_slot c (strncpy c max_id) m.student.enrolled_courses m.slot c' m.free_slot full,
  )

  absent_before : listed_in (records_of f.courses) s c ≡ 0
  unfolding listed_in
  absent_before = ground (arith, courses_same, m.course_found, m.absent)

  not_taken_before : taken_by (records_of f.students) s c ≡ 0
  unfolding taken_by
  not_taken_before = ground (
    arith,
    students_same,
    m.student_found,
    times-find_slot c m.student.enrolled_courses m.slot m.free_slot,
  )

  pub enroll-Enrolled : Enrolled os s c f
  unfolding write_both
  enroll-Enrolled = record {
    after = record f {
      students = some (new_students s m.students m.student change m.student_found (λ x. refl));
      courses = some (new_courses c m.courses m.course new m.course_found refl);
    };
    result = m.writes ∙ ground (arith, added);
    was_absent = absent_before;
    was_not_taken = not_taken_before;
    listed = λ s' c'.
        new_listed s' c'
        ∙ ap (λ (cs : List Course). listed_in cs s' c' + pair s c s' c') (sym courses_same);
    taken = λ s' c' full.
        new_taken s' c' full
        ∙ ap (λ (st : List Student). taken_by st s' c' + pair s c s' c') (sym students_same);
    bounded =
        changed_student-InBounds s m.students m.student change m.student_found (λ x. refl)
          (record f { courses = some (new_courses c m.courses m.course new m.course_found refl) })
          students_same
          (changed_course-InBounds c m.courses m.course new m.course_found refl f courses_same
            new_fits v);
    users = refl;
    faculty = refl;
  }
