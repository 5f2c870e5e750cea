-- ===== src/FileOps/Agreement/Removing.antt =====
-- What remove_course does to the lists and to the bounds.
use academia_cr.Prelude.{
  ℕ, ◌≡◌, refl, ap, sym, subst, ◌∙◌, ◌⊎◌, inl, inr, String, true, false, Option, none, some, List,
  arith, if◌then◌else◌, Option-cases, Bool-cases, str_eq, eq_iff, pos, select_first, map,
  delete_where,
}
use academia_cr.Text.{is_empty}
use academia_cr.FileOps.{Files, Opens, Course, Student, open_file, failed}
use academia_cr.FileOps.Accounts.{is_student_id}
use academia_cr.FileOps.Catalog.{is_course_id, cleared, forget_course, remove_course}
use academia_cr.FileOps.Entries.{times-cleared}
use academia_cr.FileOps.Records.{first-map, first-delete_self, first-delete_other}
use academia_cr.FileOps.Agreement.{
  records_of, listed_in, taken_by, InBounds, Agrees, opened_records, no_file,
}
use academia_cr.FileOps.Agreement.Cataloguing.{second_of}

-- The student without the course.
abbrev forgotten : String → Student → Student
forgotten id s = record s { enrolled_courses = map (cleared id) s.enrolled_courses }

forgotten_taken :
    (id : String) (students : List Student) (s c : String)
    → is_empty c ≡ false
    → taken_by (map (forgotten id) students) s c
      ≡ (if str_eq id c then 0 else taken_by students s c)
unfolding taken_by
forgotten_taken id students s c full =
    elim (Option-cases (select_first (is_student_id s) students)) [
      | inl h ↦
          ground (arith, h, first-map (λ (x : Student). x.id) s (forgotten id) students (λ x. refl))
      | inr (student, h) ↦ ground (
        arith,
        h,
        first-map (λ (x : Student). x.id) s (forgotten id) students (λ x. refl),
        times-cleared id student.enrolled_courses c full,
      )
    ]

deleted_listed :
    (id : String) (courses : List Course) (s c : String)
    → listed_in (delete_where (is_course_id id) courses) s c
      ≡ (if str_eq id c then 0 else listed_in courses s c)
unfolding listed_in
deleted_listed id courses s c = elim (Bool-cases (str_eq id c)) [
  | inl h ↦ ground (
    arith,
    h,
    subst
        (λ (x : String).
          select_first (is_course_id x) (delete_where (is_course_id id) courses) ≡ none)
        ((eq_iff id c).0 h) (first-delete_self (λ (x : Course). x.id) id courses),
  )
  | inr h ↦ ground (arith, h, first-delete_other (λ (x : Course). x.id) id c courses h)
]

pub forget_course-InBounds :
    (os : Opens) (id : String) (f : Files) → InBounds f → InBounds (forget_course os id f)
unfolding forget_course
forget_course-InBounds os id f v = elim (Option-cases (open_file os.students_open f.students)) [
  | inl h ↦ subst InBounds (sym (ground (arith, h))) v
  | inr (students, h) ↦
      let same = opened_records os.students_open f.students students h in
      subst InBounds {x = record f { students = some (map (forgotten id) students) }}
        (sym (ground (arith, h)))
        (record {
          fits = v.fits;
          course_ids = v.course_ids;
          student_ids = λ x s k. elim (Option-cases (select_first (is_student_id x) students)) [
            | inl none_there ↦ absurd (
                ground (
                  arith,
                  k,
                  none_there,
                  first-map (λ (y : Student). y.id) x (forgotten id) students (λ y. refl),
                ))
            | inr (t, there) ↦ v.student_ids x t (ap (select_first (is_student_id x)) same ∙ there)
          ];
        })
]

-- After the second part of remove_course nobody takes the course, if students.dat can be opened.
forgets :
    (os : Opens) (id : String) (f : Files)
    → os.students_open ≡ true
    → (s c : String) → is_empty c ≡ false
    → taken_by (records_of (forget_course os id f).students) s c
      ≡ (if str_eq id c then 0 else taken_by (records_of f.students) s c)
unfolding forget_course
forgets os id f o s c full = elim (Option-cases (open_file os.students_open f.students)) [
  | inl h ↦
      ground (arith, h, o, no_file f.students s c (ground (arith, o, h)), Bool-cases (str_eq id c))
  | inr (students, h) ↦ ground (
    arith,
    h,
    opened_records os.students_open f.students students h,
    forgotten_taken id students s c full,
  )
]

same_courses : (os : Opens) (id : String) (f : Files) → (forget_course os id f).courses ≡ f.courses
unfolding forget_course
same_courses os id f = elim (Option-cases (open_file os.students_open f.students)) [
  | inl h ↦ ground (arith, h)
  | inr (students, h) ↦ ground (arith, h)
]

still_there :
    (id : String) (courses : List Course) (x : String) (c : Course)
    → select_first (is_course_id x) (delete_where (is_course_id id) courses) ≡ some c
    → select_first (is_course_id x) courses ≡ some c
still_there id courses x c k = elim (Bool-cases (str_eq id x)) [
  | inl h ↦ absurd (
      ground (
        arith,
        k,
        subst
            (λ (y : String).
              select_first (is_course_id y) (delete_where (is_course_id id) courses) ≡ none)
            ((eq_iff id x).0 h) (first-delete_self (λ (y : Course). y.id) id courses),
      ))
  | inr h ↦ sym (first-delete_other (λ (y : Course). y.id) id x courses h) ∙ k
]

-- A course that is not in the file lists nobody.
unlisted :
    (id : String) (f : Files) (courses : List Course) (s : String)
    → records_of f.courses ≡ courses
    → select_first (is_course_id id) courses ≡ none
    → listed_in (records_of f.courses) s id ≡ 0
unfolding listed_in
unlisted id f courses s same k = ground (arith, same, k)

pub deleted-InBounds :
    (id : String) (f : Files) (courses : List Course)
    → records_of f.courses ≡ courses
    → InBounds f
    → InBounds (record f { courses = some (delete_where (is_course_id id) courses) })
deleted-InBounds id f courses same v = record {
  fits =
      λ x c k. v.fits x c (ap (select_first (is_course_id x)) same ∙ still_there id courses x c k);
  course_ids = λ x c k.
      v.course_ids x c (ap (select_first (is_course_id x)) same ∙ still_there id courses x c k);
  student_ids = v.student_ids;
}

pub remove_course-cases :
    (os : Opens) (id : String) (f : Files)
    → ((remove_course os id f ≡ (failed, f))
        ⊎ (remove_course os id f ≡ (failed, forget_course os id f)
            × (((s : String) → listed_in (records_of f.courses) s id ≡ 0))))
      ⊎ ((courses : List Course) × (records_of f.courses ≡ courses)
          × (remove_course os id f ≡ (
            pos 0,
            forget_course os id
                (record f { courses = some (delete_where (is_course_id id) courses) }),
          )))
unfolding remove_course
remove_course-cases os id f = elim (Option-cases (open_file os.courses_open f.courses)) [
  | inl h ↦ inl (inl (ground (arith, h)))
  | inr (courses, h) ↦
      let same = opened_records os.courses_open f.courses courses h in
      elim (Option-cases (select_first (is_course_id id) courses)) [
        | inl k ↦ inl (inr (ground (arith, h, k), λ s. unlisted id f courses s same k))
        | inr (course, k) ↦ elim (Bool-cases os.temp_open) [
          | inl t ↦ inr (courses, same, ground (arith, h, k, t))
          | inr t ↦ inl (inl (ground (arith, h, k, t)))
        ]
      ]
]

pub remove_course-InBounds :
    (os : Opens) (id : String) (f : Files) → InBounds f → InBounds (remove_course os id f).1
remove_course-InBounds os id f v = elim (remove_course-cases os id f) [
  | inl (inl r) ↦ second_of InBounds (remove_course os id f) failed f r v
  | inl (inr (r, gone)) ↦
      second_of InBounds (remove_course os id f) failed (forget_course os id f) r
        (forget_course-InBounds os id f v)
  | inr (courses, same, r) ↦
      let g : Files = record f { courses = some (delete_where (is_course_id id) courses) } in
      second_of InBounds (remove_course os id f) (pos 0) (forget_course os id g) r
        (forget_course-InBounds os id g (deleted-InBounds id f courses same v))
]

-- Forgetting a course that lists nobody.
forgets-Agrees :
    (os : Opens) (id : String) (f g : Files)
    → os.students_open ≡ true
    → ((s c : String)
        → listed_in (records_of g.courses) s c
          ≡ (if str_eq id c then 0 else listed_in (records_of f.courses) s c))
    → (g.students ≡ f.students)
    → Agrees f
    → Agrees (forget_course os id g)
forgets-Agrees os id f g o dropped same a = record {
  same_entries = λ s c full.
      ap (λ (file : Option (List Course)). listed_in (records_of file) s c) (same_courses os id g)
      ∙ dropped s c
      ∙ ap (λ (n : ℕ). if str_eq id c then 0 else n)
          (a.same_entries s c full
            ∙ ap (λ (file : Option (List Student)). taken_by (records_of file) s c) (sym same))
      ∙ sym (forgets os id g o s c full);
  once = λ s c full. ground (
    arith,
    ap (λ (file : Option (List Course)). listed_in (records_of file) s c) (same_courses os id g),
    dropped s c,
    a.once s c full,
  );
}

pub remove_course-Agrees :
    (os : Opens) (id : String) (f : Files)
    → os.students_open ≡ true
    → Agrees f
    → Agrees (remove_course os id f).1
remove_course-Agrees os id f o a = elim (remove_course-cases os id f) [
  | inl (inl r) ↦ second_of Agrees (remove_course os id f) failed f r a
  | inl (inr (r, gone)) ↦
      second_of Agrees (remove_course os id f) failed (forget_course os id f) r
        (forgets-Agrees os id f f o (λ s c. ground (arith, gone s, eq_iff id c)) refl a)
  | inr (courses, same, r) ↦
      let g : Files = record f { courses = some (delete_where (is_course_id id) courses) } in
      second_of Agrees (remove_course os id f) (pos 0) (forget_course os id g) r (
        forgets-Agrees os id f g o
          (λ s c.
            deleted_listed id courses s c
            ∙ ap (λ (xs : List Course). if str_eq id c then 0 else listed_in xs s c) (sym same))
          refl a)
]
