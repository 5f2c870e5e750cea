-- ===== src/FileOps/Agreement/Changing.antt =====
-- What a change of one course or of one student in its file does to the lists and to the bounds.
use academia_cr.Prelude.{
  ◌≡◌, ap, subst, ◌∙◌, String, true, some, List, arith, select_first, str_eq, eq_iff, if◌then◌else◌,
  Bool-cases, inl, inr,
}
use academia_cr.FileOps.{Files, Course, Student, update_first}
use academia_cr.FileOps.Accounts.{is_student_id}
use academia_cr.FileOps.Catalog.{is_course_id}
use academia_cr.FileOps.Entries.{times}
use academia_cr.FileOps.Records.{str_eq_refl, first-update_self, first-update_other, first-keyed}
use academia_cr.FileOps.Agreement.{records_of, roster, listed_in, taken_by, CourseFits, InBounds}

module _ (c : String) (courses : List Course) (course new : Course)
    (found : select_first (is_course_id c) courses ≡ some course)
    (same_id : new.id ≡ course.id) where
  -- courses.dat with the course written anew
  abbrev pub new_courses : List Course
  new_courses = update_first (is_course_id c) (λ _. new) courses

  new_is_c : str_eq new.id c ≡ true
  new_is_c =
      (eq_iff new.id c).1 (same_id ∙ first-keyed (λ (x : Course). x.id) c courses course found)

  pub changed_course :
      (id : String)
      → select_first (is_course_id id) new_courses
        ≡ (if str_eq c id then some new else select_first (is_course_id id) courses)
  changed_course id = elim (Bool-cases (str_eq c id)) [
    | inl k ↦
        subst
          (λ (x : String).
            select_first (is_course_id x) new_courses
            ≡ (if str_eq c x then some new else select_first (is_course_id x) courses))
          ((eq_iff c id).0 k)
          (ground (
            arith,
            str_eq_refl c,
            first-update_self (λ (x : Course). x.id) c (λ _. new) courses course (λ y h. new_is_c)
                found,
          ))
    | inr k ↦ ground (
      arith,
      k,
      first-update_other (λ (x : Course). x.id) c id (λ _. new) courses k (λ y h. new_is_c),
    )
  ]

  pub changed_listed :
      (s id : String)
      → listed_in new_courses s id
        ≡ (if str_eq c id then times s (roster new) else listed_in courses s id)
  unfolding listed_in
  changed_listed s id = ground (arith, changed_course id)

  pub changed_course-InBounds :
      (f : Files)
      → records_of f.courses ≡ courses
      → CourseFits new
      → InBounds f
      → InBounds (record f { courses = some new_courses })
  changed_course-InBounds f opened fit v = record {
    fits = λ id x h. elim (Bool-cases (str_eq c id)) [
      | inl k ↦ subst CourseFits (ground (arith, changed_course id, h, k)) fit
      | inr k ↦ v.fits id x (ground (arith, changed_course id, h, k, opened))
    ];
    course_ids = λ id x h. elim (Bool-cases (str_eq c id)) [
      | inl k ↦ v.course_ids id course (
          ap (select_first (is_course_id id)) opened
          ∙ subst (λ (y : String). select_first (is_course_id y) courses ≡ some course)
              ((eq_iff c id).0 k) found)
      | inr k ↦ v.course_ids id x (ground (arith, changed_course id, h, k, opened))
    ];
    student_ids = v.student_ids;
  }

module _ (s : String) (students : List Student) (student : Student) (change : Student → Student)
    (found : select_first (is_student_id s) students ≡ some student)
    (same_id : (x : Student) → (change x).id ≡ x.id) where
  -- students.dat with the change made to the student
  abbrev pub new_students : List Student
  new_students = update_first (is_student_id s) change students

  still_s : (y : Student) → str_eq y.id s ≡ true → str_eq (change y).id s ≡ true
  still_s y h = (eq_iff (change y).id s).1 (same_id y ∙ (eq_iff y.id s).0 h)

  pub changed_student :
      (id : String)
      → select_first (is_student_id id) new_students
        ≡ (if str_eq s id then some (change student) else select_first (is_student_id id) students)
  changed_student id = elim (Bool-cases (str_eq s id)) [
    | inl k ↦
        subst
          (λ (x : String). select_first (is_student_id x) new_students ≡ (
            if str_eq s x then some (change student) else select_first (is_student_id x) students))
          ((eq_iff s id).0 k)
          (ground (
            arith,
            str_eq_refl s,
            first-update_self (λ (x : Student). x.id) s change students student still_s found,
          ))
    | inr k ↦
        ground (arith, k, first-update_other (λ (x : Student). x.id) s id change students k still_s)
  ]

  pub changed_taken :
      (id c : String)
      → taken_by new_students id c ≡ (
          if str_eq s id then times c (change student).enrolled_courses else taken_by students id c)
  unfolding taken_by
  changed_taken id c = ground (arith, changed_student id)

  pub changed_student-InBounds :
      (f : Files)
      → records_of f.students ≡ students
      → InBounds f
      → InBounds (record f { students = some new_students })
  changed_student-InBounds f opened v = record {
    fits = v.fits;
    course_ids = v.course_ids;
    student_ids = λ id x h. elim (Bool-cases (str_eq s id)) [
      | inl k ↦ v.student_ids id student (
          ap (select_first (is_student_id id)) opened
          ∙ subst (λ (y : String). select_first (is_student_id y) students ≡ some student)
              ((eq_iff s id).0 k) found)
      | inr k ↦ v.student_ids id x (ground (arith, changed_student id, h, k, opened))
    ];
  }
