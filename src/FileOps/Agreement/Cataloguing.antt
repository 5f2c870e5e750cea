-- ===== src/FileOps/Agreement/Cataloguing.antt =====
-- What add_course does to the lists and to the bounds.
use academia_cr.Prelude.{
  ℕ, ◌≤◌, ◌≡◌, sym, subst, ◌∙◌, inl, inr, String, Bool, true, false, Option, none, some, List, [],
  ◌∷◌, ◌++◌, arith, Option-cases, Bool-cases, ℤ, pos, ◌≤ℤ◌, select_first, has_value, count_where,
}
use academia_cr.FileOps.{Files, Opens, Course, create_file, failed, strncpy, max_id, max_users}
use academia_cr.FileOps.Catalog.{is_course_id, new_course, add_course}
use academia_cr.FileOps.Entries.{length-repeat_empty}
use academia_cr.FileOps.Records.{first-append, found-append, strncpy-suc}
use academia_cr.FileOps.Agreement.{records_of, listed_in, CourseFits, InBounds, Agrees, FitsId}

-- What holds of the second part of a pair holds of what is equal to the pair.
pub second_of :
    (P : Files → Type 0) (r : ℤ × Files) (code : ℤ) (g : Files) → r ≡ (code, g) → P g → P r.1
second_of P r code g h p = subst (λ (q : ℤ × Files). P q.1) (sym h) p

pub created_records :
    {A : Type 0} (ok : Bool) (file : Option (List A)) (xs : List A)
    → create_file ok file ≡ some xs
    → records_of file ≡ xs
created_records true none xs h = ground arith
created_records true (some ys) xs h = ground arith
created_records false file xs h = ground arith

-- Seats that the array of a course has.
pub record SeatsFit (seats : ℤ) : Type 0 where
  pub some_or_none : pos 0 ≤ℤ seats
  pub at_most : seats ≤ℤ pos max_users

new_course-CourseFits :
    (id name faculty_id : String) (seats : ℤ)
    → SeatsFit seats
    → CourseFits (new_course id name faculty_id seats)
new_course-CourseFits id name faculty_id seats h = record {
  long = length-repeat_empty max_users;
  low = ground arith;
  within = h.some_or_none;
  seats = h.at_most;
}

pub stored_id : (id x : String) → FitsId id → strncpy id max_id ≡ x → FitsId x
stored_id id x h k = subst FitsId (sym (strncpy-suc id 9 h) ∙ k) h

with_course :
    (id name faculty_id : String) (seats : ℤ) (f : Files)
    → FitsId id
    → SeatsFit seats
    → InBounds f
    → InBounds (record f {
      courses = some (records_of f.courses ++ new_course id name faculty_id seats ∷ []);
    })
with_course id name faculty_id seats f short room v = record {
  fits = λ x k h.
      elim (found-append (λ (y : Course). y.id) x (records_of f.courses)
        (new_course id name faculty_id seats) k h) [
          | inl old ↦ v.fits x k old
          | inr (new, keyed) ↦
              subst CourseFits new (new_course-CourseFits id name faculty_id seats room)
        ];
  course_ids = λ x k h.
      elim (found-append (λ (y : Course). y.id) x (records_of f.courses)
        (new_course id name faculty_id seats) k h) [
          | inl old ↦ v.course_ids x k old
          | inr (new, keyed) ↦ stored_id id x short keyed
        ];
  student_ids = v.student_ids;
}

same_records_of :
    (f : Files) (xs : List Course)
    → records_of f.courses ≡ xs
    → InBounds f
    → InBounds (record f { courses = some xs })
same_records_of f xs h v =
    subst (λ (ys : List Course). InBounds (record f { courses = some ys })) h
      (record { fits = v.fits; course_ids = v.course_ids; student_ids = v.student_ids })

pub add_course-InBounds :
    (os : Opens) (id name faculty_id : String) (seats : ℤ) (f : Files)
    → FitsId id
    → SeatsFit seats
    → InBounds f
    → InBounds (add_course os id name faculty_id seats f).1
unfolding add_course
add_course-InBounds os id name faculty_id seats f short room v =
    elim (Option-cases (create_file os.courses_open f.courses)) [
      | inl h ↦
          second_of InBounds (add_course os id name faculty_id seats f) failed f (ground (arith, h))
            v
      | inr (courses, h) ↦
          let same = created_records os.courses_open f.courses courses h in
          elim (Bool-cases (has_value (select_first (is_course_id id) courses))) [
            | inl k ↦
                second_of InBounds (add_course os id name faculty_id seats f) failed
                  (record f { courses = some courses }) (ground (arith, h, k))
                  (same_records_of f courses same v)
            | inr k ↦
                second_of InBounds (add_course os id name faculty_id seats f) (pos 0)
                  (record f {
                    courses = some (courses ++ new_course id name faculty_id seats ∷ []);
                  })
                  (ground (arith, h, k))
                  (subst
                    (λ (xs : List Course). InBounds (record f {
                      courses = some (xs ++ new_course id name faculty_id seats ∷ []);
                    }))
                    same (with_course id name faculty_id seats f short room v))
          ]
    ]

-- A course without students adds nothing to the lists.
added_listed :
    (courses : List Course) (id name faculty_id s c : String) (seats : ℤ)
    → listed_in (courses ++ new_course id name faculty_id seats ∷ []) s c ≡ listed_in courses s c
unfolding listed_in count_where
added_listed courses id name faculty_id s c seats = ground (
  arith,
  first-append (λ (x : Course). x.id) c courses (new_course id name faculty_id seats),
  Option-cases (select_first (is_course_id c) courses),
)

pub add_course-Agrees :
    (os : Opens) (id name faculty_id : String) (seats : ℤ) (f : Files)
    → Agrees f
    → Agrees (add_course os id name faculty_id seats f).1
unfolding add_course
add_course-Agrees os id name faculty_id seats f a =
    elim (Option-cases (create_file os.courses_open f.courses)) [
      | inl h ↦
          second_of Agrees (add_course os id name faculty_id seats f) failed f (ground (arith, h)) a
      | inr (courses, h) ↦
          let same = created_records os.courses_open f.courses courses h in
          let kept : Agrees (record f { courses = some courses }) =
            subst (λ (xs : List Course). Agrees (record f { courses = some xs })) same
              (record { same_entries = a.same_entries; once = a.once }) in
          elim (Bool-cases (has_value (select_first (is_course_id id) courses))) [
            | inl k ↦
                second_of Agrees (add_course os id name faculty_id seats f) failed
                  (record f { courses = some courses }) (ground (arith, h, k)) kept
            | inr k ↦
                second_of Agrees (add_course os id name faculty_id seats f) (pos 0)
                  (record f {
                    courses = some (courses ++ new_course id name faculty_id seats ∷ []);
                  })
                  (ground (arith, h, k))
                  (record {
                    same_entries = λ s c full.
                        added_listed courses id name faculty_id s c seats
                        ∙ kept.same_entries s c full;
                    once = λ s c full.
                        subst (λ (n : ℕ). n ≤ 1)
                          (sym (added_listed courses id name faculty_id s c seats))
                          (kept.once s c full);
                  })
          ]
    ]
