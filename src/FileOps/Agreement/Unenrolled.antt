-- ===== src/FileOps/Agreement/Unenrolled.antt =====
-- What unenroll_course does to both files.
use academia_cr.Prelude.{
  ◌+◌, ◌≤◌, ◌≡◌, ap, sym, subst, ◌∙◌, ◌⊎◌, inl, inr, String, true, false, Option, none, some, List,
  arith, ltb, if◌then◌else◌, Option-cases, Bool-cases, str_eq, eq_iff, ℤ, pos,
}
use academia_cr.Text.{is_empty}
use academia_cr.FileOps.{Files, Opens, Course, returns, open_file, failed}
use academia_cr.FileOps.Unenrolment.{unenroll_course}
use academia_cr.FileOps.Entries.{empty_differs}
use academia_cr.FileOps.Agreement.{
  records_of, listed_in, taken_by, InBounds, Agrees, opened_records,
}
use academia_cr.FileOps.Agreement.Enrolled.{pair, Enrolled}
use academia_cr.FileOps.Agreement.Leaving.{leave_courses-LeftCourses}
use academia_cr.FileOps.Agreement.LeavingStudent.{leave_student-LeftStudent}

-- An unenrolment that could open courses.dat.
pub record Unenrolled (os : Opens) (s c : String) (f : Files) : Type 0 where
  pub code : ℤ
  pub after : Files
  pub result : unenroll_course os s c f ≡ returns (code, after)
  pub bounded : InBounds after
  pub listed :
      (s' c' : String)
      → listed_in (records_of after.courses) s' c'
          + (if ltb 0 (listed_in (records_of f.courses) s c) then pair s c s' c' else 0)
        ≡ listed_in (records_of f.courses) s' c'
  pub taken :
      os.students_open ≡ true
      → (s' c' : String) → is_empty c' ≡ false
      → taken_by (records_of after.students) s' c'
          + (if ltb 0 (taken_by (records_of f.students) s c) then pair s c s' c' else 0)
        ≡ taken_by (records_of f.students) s' c'
  pub success : os.students_open ≡ true → 1 ≤ taken_by (records_of f.students) s c → code ≡ pos 0
  pub others :
      (s' c' : String)
      → str_eq s s' ≡ false
      → taken_by (records_of after.students) s' c' ≡ taken_by (records_of f.students) s' c'

pub unenroll-cases :
    (os : Opens) (s c : String) (f : Files)
    → InBounds f
    → (((unenroll_course os s c f ≡ returns (failed, f))
        × (open_file os.courses_open f.courses ≡ none)))
      ⊎ Unenrolled os s c f
unfolding unenroll_course
unenroll-cases os s c f v = elim (Option-cases (open_file os.courses_open f.courses)) [
  | inl h ↦ inl (ground (arith, h), h)
  | inr (courses, h) ↦
      let same = opened_records os.courses_open f.courses courses h in
      let courses_left = leave_courses-LeftCourses s c f courses same v in
      let rest =
        leave_student-LeftStudent os s c (record f { courses = some courses_left.after })
          courses_left.bounded in
      inr (record {
        code = rest.code;
        after = rest.after;
        result = ground (arith, h, courses_left.left, rest.left);
        bounded = rest.bounded;
        listed = λ s' c'.
            subst
              (λ (xs : List Course).
                listed_in (records_of rest.after.courses) s' c'
                  + (if ltb 0 (listed_in xs s c) then pair s c s' c' else 0)
                ≡ listed_in xs s' c')
              (sym same)
              (ap
                  (λ (file : Option (List Course)).
                    listed_in (records_of file) s' c'
                    + (if ltb 0 (listed_in courses s c) then pair s c s' c' else 0))
                  rest.same_courses
                ∙ courses_left.counts s' c');
        taken = rest.counts;
        success = rest.success;
        others = rest.others;
      })
]

-- Where the two files agree, they agree after unenroll_course.
pub unenroll-Agrees :
    (os : Opens) (s c : String) (f : Files)
    → os.students_open ≡ true
    → Agrees f
    → (u : Unenrolled os s c f) → Agrees u.after
unenroll-Agrees os s c f o a u = record {
  same_entries = λ s' c' full. elim (Bool-cases (is_empty c)) [
    | inl empty ↦ ground (
      arith,
      u.listed s' c',
      u.taken o s' c' full,
      a.same_entries s' c' full,
      empty_differs c c' empty full,
    )
    | inr some_c ↦ ground (
      arith,
      u.listed s' c',
      u.taken o s' c' full,
      a.same_entries s' c' full,
      a.same_entries s c some_c,
    )
  ];
  once = λ s' c' full. ground (arith, u.listed s' c', a.once s' c' full);
}

pub enroll-Agrees :
    (os : Opens) (s c : String) (f : Files) → Agrees f → (e : Enrolled os s c f) → Agrees e.after
enroll-Agrees os s c f a e = record {
  same_entries =
      λ s' c' full. ground (arith, e.listed s' c', e.taken s' c' full, a.same_entries s' c' full);
  once = λ s' c' full. ground (
    arith,
    e.listed s' c',
    e.was_absent,
    a.once s' c' full,
    eq_iff s s',
    eq_iff c c',
    Bool-cases (str_eq c c'),
    Bool-cases (str_eq s s'),
  );
}
