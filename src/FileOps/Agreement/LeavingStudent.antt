-- ===== src/FileOps/Agreement/LeavingStudent.antt =====
-- What unenroll_course does to the student.
use academia_cr.Prelude.{
  ℕ, ◌+◌, ◌≤◌, ◌≡◌, refl, sym, ap, subst, ◌∙◌, inl, inr, String, Bool, true, false, Option, none,
  some, List, arith, ℤ, pos, negsuc, select_first, has_value, ltb, str_eq, eq_iff, if◌then◌else◌,
  Bool-cases, Option-cases,
}
use academia_cr.Text.{is_empty}
use academia_cr.FileOps.{Files, Opens, Student, open_file}
use academia_cr.FileOps.Accounts.{is_student_id}
use academia_cr.FileOps.Unenrolment.{holds, leave_student, clear_slot}
use academia_cr.FileOps.Entries.{times, times-clear_slot, times-select_first}
use academia_cr.FileOps.Agreement.{records_of, taken_by, InBounds, opened_records, no_file}
use academia_cr.FileOps.Agreement.Changing.{new_students, changed_taken, changed_student-InBounds}
use academia_cr.FileOps.Agreement.Enrolled.{pair}

-- students.dat after unenroll_course.
pub record LeftStudent (os : Opens) (s c : String) (f : Files) : Type 0 where
  pub code : ℤ
  pub after : Files
  pub left : leave_student os s c f ≡ (code, after)
  pub same_courses : after.courses ≡ f.courses
  pub bounded : InBounds after
  pub counts :
      os.students_open ≡ true
      → (s' c' : String) → is_empty c' ≡ false
      → taken_by (records_of after.students) s' c'
          + (if ltb 0 (taken_by (records_of f.students) s c) then pair s c s' c' else 0)
        ≡ taken_by (records_of f.students) s' c'
  pub success : os.students_open ≡ true → 1 ≤ taken_by (records_of f.students) s c → code ≡ pos 0
  pub others :
      (s' c' : String)
      → str_eq s s' ≡ false
      → taken_by (records_of after.students) s' c' ≡ taken_by (records_of f.students) s' c'

-- Where students.dat was opened and does not have the student, nobody of that id takes a course.
absent_student :
    (ok : Bool) (file : Option (List Student)) (students : List Student) (s c : String)
    → open_file ok file ≡ some students
    → select_first (is_student_id s) students ≡ none
    → taken_by (records_of file) s c ≡ 0
unfolding taken_by
absent_student ok file students s c h k = ground (arith, opened_records ok file students h, k)

without_pair :
    (n m : ℕ) (s c s' c' : String) → n ≡ 0 → m + (if ltb 0 n then pair s c s' c' else 0) ≡ m
without_pair n m s c s' c' h = ground arith

-- What a student takes, for a student that is there.
taken_there :
    (ok : Bool) (file : Option (List Student)) (students : List Student) (student : Student)
    (s c : String)
    → open_file ok file ≡ some students
    → select_first (is_student_id s) students ≡ some student
    → taken_by (records_of file) s c ≡ times c student.enrolled_courses
unfolding taken_by
taken_there ok file students student s c h k = ground (arith, opened_records ok file students h, k)

-- The student with the entry cleared.
abbrev without : String → Student → Student
without c t = record t { enrolled_courses = clear_slot c t.enrolled_courses }

cleared_taken :
    (students : List Student) (student : Student) (s c s' c' : String)
    (k : select_first (is_student_id s) students ≡ some student)
    → has_value (select_first (holds c) student.enrolled_courses) ≡ true
    → is_empty c' ≡ false
    → taken_by (new_students s students student (without c) k (λ x. refl)) s' c'
        + (if ltb 0 (taken_by students s c) then pair s c s' c' else 0)
      ≡ taken_by students s' c'
unfolding taken_by
cleared_taken students student s c s' c' k there full = ground (
  arith,
  changed_taken s students student (without c) k (λ x. refl) s' c',
  k,
  times-clear_slot c student.enrolled_courses c' there full,
  times-select_first c student.enrolled_courses,
  eq_iff s s',
  there,
)

cleared_other :
    (students : List Student) (student : Student) (s c s' c' : String)
    (k : select_first (is_student_id s) students ≡ some student)
    → str_eq s s' ≡ false
    → taken_by (new_students s students student (without c) k (λ x. refl)) s' c'
      ≡ taken_by students s' c'
cleared_other students student s c s' c' k differ =
    ground (arith, changed_taken s students student (without c) k (λ x. refl) s' c', differ)

pub leave_student-LeftStudent :
    (os : Opens) (s c : String) (f : Files) → InBounds f → LeftStudent os s c f
unfolding leave_student
leave_student-LeftStudent os s c f v = elim (Option-cases (open_file os.students_open f.students)) [
  | inl h ↦
      let none_there : os.students_open ≡ true → taken_by (records_of f.students) s c ≡ 0 =
        λ o. no_file f.students s c (ground (arith, o, h)) in
      record {
        code = negsuc 0;
        after = f;
        left = ground (arith, h);
        same_courses = refl;
        bounded = v;
        counts = λ o s' c' full.
            without_pair (taken_by (records_of f.students) s c) _ s c s' c' (none_there o);
        success = λ o q. absurd (omega (arith, none_there o, q));
        others = λ s' c' k. refl;
      }
  | inr (students, h) ↦ elim (Option-cases (select_first (is_student_id s) students)) [
    | inl k ↦
        let none_there : taken_by (records_of f.students) s c ≡ 0 =
          absent_student os.students_open f.students students s c h k in
        record {
          code = negsuc 0;
          after = f;
          left = ground (arith, h, k);
          same_courses = refl;
          bounded = v;
          counts = λ o s' c' full.
              without_pair (taken_by (records_of f.students) s c) _ s c s' c' none_there;
          success = λ o q. absurd (omega (arith, none_there, q));
          others = λ s' c' k. refl;
        }
    | inr (student, k) ↦
        elim (Bool-cases (has_value (select_first (holds c) student.enrolled_courses))) [
          | inl there ↦ record {
            code = pos 0;
            after = record f {
              students = some (new_students s students student (without c) k (λ x. refl));
            };
            left = ground (arith, h, k, there);
            same_courses = refl;
            bounded =
                changed_student-InBounds s students student (without c) k (λ x. refl) f
                  (opened_records os.students_open f.students students h) v;
            counts = λ o s' c' full.
                subst
                  (λ (xs : List Student).
                    taken_by (new_students s students student (without c) k (λ x. refl)) s' c'
                      + (if ltb 0 (taken_by xs s c) then pair s c s' c' else 0)
                    ≡ taken_by xs s' c')
                  (sym (opened_records os.students_open f.students students h))
                  (cleared_taken students student s c s' c' k there full);
            success = λ o q. refl;
            others = λ s' c' differ.
                cleared_other students student s c s' c' k differ
                ∙ ap (λ (xs : List Student). taken_by xs s' c')
                    (sym (opened_records os.students_open f.students students h));
          }
          | inr gone ↦
              let none_there : taken_by (records_of f.students) s c ≡ 0 = ground (
                arith,
                taken_there os.students_open f.students students student s c h k,
                times-select_first c student.enrolled_courses,
                gone,
              ) in
              record {
                code = negsuc 3;
                after = f;
                left = ground (arith, h, k, gone);
                same_courses = refl;
                bounded = v;
                counts = λ o s' c' full.
                    without_pair (taken_by (records_of f.students) s c) _ s c s' c' none_there;
                success = λ o q. absurd (omega (arith, none_there, q));
                others = λ s' c' k. refl;
              }
        ]
  ]
]
