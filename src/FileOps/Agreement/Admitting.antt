-- ===== src/FileOps/Agreement/Admitting.antt =====
-- What add_student and the operations that change one student do to the lists and to the bounds.
use academia_cr.Prelude.{
  ◌≡◌, ap, sym, subst, ◌∙◌, inl, inr, String, false, some, List, [], ◌∷◌, ◌++◌, arith, Option-cases,
  eq_iff, pos, select_first,
}
use academia_cr.Text.{is_empty}
use academia_cr.FileOps.{Files, Opens, Student, open_file, create_file, failed, max_courses}
use academia_cr.FileOps.Accounts.{is_student_id, new_student, add_student, change_student}
use academia_cr.FileOps.Entries.{times-repeat_empty}
use academia_cr.FileOps.Records.{first-append, found-append}
use academia_cr.FileOps.Agreement.{records_of, taken_by, InBounds, Agrees, FitsId, opened_records}
use academia_cr.FileOps.Agreement.Cataloguing.{second_of, created_records, stored_id}
use academia_cr.FileOps.Agreement.Changing.{new_students, changed_taken, changed_student-InBounds}

with_student :
    (id name : String) (f : Files)
    → FitsId id
    → InBounds f
    → InBounds (record f { students = some (records_of f.students ++ new_student id name ∷ []) })
with_student id name f short v = record {
  fits = v.fits;
  course_ids = v.course_ids;
  student_ids = λ x k h.
      elim (found-append (λ (y : Student). y.id) x (records_of f.students) (new_student id name) k
        h) [ inl old ↦ v.student_ids x k old | inr (new, keyed) ↦ stored_id id x short keyed ];
}

pub add_student-InBounds :
    (os : Opens) (id name : String) (f : Files)
    → FitsId id
    → InBounds f
    → InBounds (add_student os id name f).1
unfolding add_student
add_student-InBounds os id name f short v =
    elim (Option-cases (create_file os.students_open f.students)) [
      | inl h ↦ second_of InBounds (add_student os id name f) failed f (ground (arith, h)) v
      | inr (students, h) ↦
          second_of InBounds (add_student os id name f) (pos 0)
            (record f { students = some (students ++ new_student id name ∷ []) })
            (ground (arith, h))
            (subst
              (λ (xs : List Student).
                InBounds (record f { students = some (xs ++ new_student id name ∷ []) }))
              (created_records os.students_open f.students students h)
              (with_student id name f short v))
    ]

-- A new student takes no course.
added_taken :
    (students : List Student) (id name s c : String)
    → is_empty c ≡ false
    → taken_by (students ++ new_student id name ∷ []) s c ≡ taken_by students s c
unfolding taken_by
added_taken students id name s c full = ground (
  arith,
  first-append (λ (x : Student). x.id) s students (new_student id name),
  Option-cases (select_first (is_student_id s) students),
  times-repeat_empty max_courses c full,
)

pub add_student-Agrees :
    (os : Opens) (id name : String) (f : Files) → Agrees f → Agrees (add_student os id name f).1
unfolding add_student
add_student-Agrees os id name f a = elim (Option-cases (create_file os.students_open f.students)) [
  | inl h ↦ second_of Agrees (add_student os id name f) failed f (ground (arith, h)) a
  | inr (students, h) ↦
      second_of Agrees (add_student os id name f) (pos 0)
        (record f { students = some (students ++ new_student id name ∷ []) }) (ground (arith, h))
        (record {
          same_entries = λ s c full. ground (
            arith,
            added_taken students id name s c full,
            a.same_entries s c full,
            created_records os.students_open f.students students h,
          );
          once = a.once;
        })
]

module _ (os : Opens) (id : String) (change : Student → Student) (f : Files)
    (same_id : (x : Student) → (change x).id ≡ x.id) where
  pub change_student-InBounds : InBounds f → InBounds (change_student os id change f).1
  unfolding change_student
  change_student-InBounds v = elim (Option-cases (open_file os.students_open f.students)) [
    | inl h ↦ second_of InBounds (change_student os id change f) failed f (ground (arith, h)) v
    | inr (students, h) ↦ elim (Option-cases (select_first (is_student_id id) students)) [
      | inl k ↦ second_of InBounds (change_student os id change f) failed f (ground (arith, h, k)) v
      | inr (student, k) ↦
          second_of InBounds (change_student os id change f) (pos 0)
            (record f { students = some (new_students id students student change k same_id) })
            (ground (arith, h, k))
            (changed_student-InBounds id students student change k same_id f
              (opened_records os.students_open f.students students h) v)
    ]
  ]

  changed_taken_same :
      (students : List Student) (student : Student)
      (k : select_first (is_student_id id) students ≡ some student)
      → ((x : Student) → (change x).enrolled_courses ≡ x.enrolled_courses)
      → (s c : String)
      → taken_by (new_students id students student change k same_id) s c ≡ taken_by students s c
  unfolding taken_by
  changed_taken_same students student k same_courses s c = ground (
    arith,
    changed_taken id students student change k same_id s c,
    same_courses student,
    k,
    eq_iff id s,
  )

  pub change_student-Agrees :
      ((x : Student) → (change x).enrolled_courses ≡ x.enrolled_courses)
      → Agrees f
      → Agrees (change_student os id change f).1
  unfolding change_student
  change_student-Agrees same_courses a =
      elim (Option-cases (open_file os.students_open f.students)) [
        | inl h ↦ second_of Agrees (change_student os id change f) failed f (ground (arith, h)) a
        | inr (students, h) ↦ elim (Option-cases (select_first (is_student_id id) students)) [
          | inl k ↦
              second_of Agrees (change_student os id change f) failed f (ground (arith, h, k)) a
          | inr (student, k) ↦
              second_of Agrees (change_student os id change f) (pos 0)
                (record f { students = some (new_students id students student change k same_id) })
                (ground (arith, h, k))
                (record {
                  same_entries = λ s c full.
                      a.same_entries s c full
                      ∙ ap (λ (xs : List Student). taken_by xs s c)
                          (opened_records os.students_open f.students students h)
                      ∙ sym (changed_taken_same students student k same_courses s c);
                  once = a.once;
                })
        ]
      ]
