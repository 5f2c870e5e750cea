-- ===== src/RegistrationRepository/Listed.antt =====
-- The listings show every registration that the counts count.
use academia_cr.Prelude.{
  ℕ, suc, ◌≡◌, ◌∙◌, refl, Bool, false, ◌&&◌, List, [], ◌∷◌, ◌==◌, arith, ap, length, select,
  order_by, put_in_order, count_where, inl, inr, Bool-cases,
}
use academia_cr.Models.{Registration}
use academia_cr.Database.{Tables}
use academia_cr.CourseRepository.{has_user}
use academia_cr.Integrity.{RegistrationsSound, has_course, of_student, of_course}
use academia_cr.RegistrationRepository.{is_active, count_by_student, count_active}
use academia_cr.RegistrationRepository.Listings.{
  joined_rows, find_by_student, find_all, newest_first,
}

module _ {A : Type 0} (before : A → A → Bool) where
  length-put_in_order : (x : A) (xs : List A) → length (put_in_order before x xs) ≡ suc (length xs)
  unfolding put_in_order
  length-put_in_order x [] = refl
  length-put_in_order x (y ∷ ys) = elim (Bool-cases (before x y)) [
    | inl h ↦ ground arith
    | inr h ↦ ground (arith, length-put_in_order x ys)
  ]

  pub length-order_by : (xs : List A) → length (order_by before xs) ≡ length xs
  unfolding order_by
  length-order_by [] = refl
  length-order_by (x ∷ xs) =
      length-put_in_order x (order_by before xs) ∙ ap suc (length-order_by xs)

-- The joins drop no row whose student and course are there.
length-joined_rows :
    (t : Tables) (p : Registration → Bool) (rs : List Registration)
    → ((s : ℕ) → has_user t s ≡ false → count_where (of_student s) rs ≡ 0)
    → ((c : ℕ) → has_course t c ≡ false → count_where (of_course c) rs ≡ 0)
    → length (joined_rows t (select p rs)) ≡ count_where p rs
unfolding joined_rows select count_where
length-joined_rows t p [] hs hc = refl
length-joined_rows t p (r ∷ rs) hs hc =
    let rest =
      length-joined_rows t p rs (λ s h. ground (arith, hs s h)) (λ c h. ground (arith, hc c h)) in
    elim (Bool-cases (p r)) [
      | inl chosen ↦ elim (Bool-cases (has_user t r.student_id)) [
        | inl known ↦ elim (Bool-cases (has_course t r.course_id)) [
          | inl offered ↦ ground (arith, rest, chosen, known, offered)
          | inr gone ↦ absurd (ground (arith, hc r.course_id gone))
        ]
        | inr gone ↦ absurd (ground (arith, hs r.student_id gone))
      ]
      | inr other ↦ ground (arith, rest, other)
    ]

-- On sound registrations, the list of a student's courses has as many entries as the count of the
-- student's active registrations, and the list of all has as many as the count of all: the joins
-- hide none.
pub length-find_by_student :
    (t : Tables) (s : ℕ)
    → RegistrationsSound t
    → (length (find_by_student t s) ≡ count_by_student t s) × (length (find_all t) ≡ count_active t)
unfolding find_by_student find_all count_by_student count_active
length-find_by_student t s v = (
  length-order_by newest_first
        (joined_rows t (select (λ r. r.student_id == s && is_active r) t.registrations))
      ∙ length-joined_rows t (λ r. r.student_id == s && is_active r) t.registrations v.students
          v.courses,
  length-order_by newest_first (joined_rows t (select is_active t.registrations))
      ∙ length-joined_rows t is_active t.registrations v.students v.courses,
)
