-- ===== src/FileOps/Agreement/Revising.antt =====
-- What update_course does to the lists and to the bounds.
use academia_cr.Prelude.{
  ℕ, ◌≤◌, ◌≡◌, refl, ap, sym, subst, ◌∙◌, ◌⊎◌, inl, inr, String, some, List, arith, Option-cases,
  Bool-cases, eq_iff, ℤ, pos, negsuc, ◌≤ℤ◌, ltb_ℤ, select_first,
}
use academia_cr.FileOps.{Files, Opens, Course, returns, open_file, failed, strncpy, max_name}
use academia_cr.FileOps.Catalog.{is_course_id, clear_from, reduced, updated_course, update_course}
use academia_cr.FileOps.Enrolment.{turns}
use academia_cr.FileOps.Entries.{times, length-clear_from}
use academia_cr.FileOps.Agreement.{
  records_of, roster, listed_in, CourseFits, InBounds, Agrees, count_is_pos, opened_records,
}
use academia_cr.FileOps.Agreement.Cataloguing.{SeatsFit}
use academia_cr.FileOps.Agreement.Changing.{new_courses, changed_listed, changed_course-InBounds}

-- A course that update_course has changed.
pub record Revised (name : String) (seats : ℤ) (course : Course) : Type 0 where
  pub after : Course
  pub revised : updated_course name seats course ≡ returns after
  pub same_id : after.id ≡ course.id
  pub fits : CourseFits after
  pub all_stay :
      course.enrolled_count ≤ℤ seats
      → (s : String) → times s (roster after) ≡ times s (roster course)

reduced-turns :
    (seats : ℤ) (xs : List String)
    → pos 0 ≤ℤ seats
    → reduced seats xs ≡ returns (clear_from (turns seats) xs)
unfolding reduced
reduced-turns (pos n) xs h = refl
reduced-turns (negsuc n) xs h = absurd (omega (arith, h))

pub updated_course-Revised :
    (name : String) (seats : ℤ) (course : Course)
    → SeatsFit seats
    → CourseFits course
    → Revised name seats course
unfolding updated_course
updated_course-Revised name seats course room fit =
    elim (Bool-cases (ltb_ℤ seats course.enrolled_count)) [
      | inl fewer ↦
          let size = count_is_pos seats room.some_or_none in
          record {
            after = record course {
              name = strncpy name max_name;
              total_seats = seats;
              enrolled_count = seats;
              enrolled_students = clear_from (turns seats) course.enrolled_students;
            };
            revised =
                ground
                  (arith, fewer, reduced-turns seats course.enrolled_students room.some_or_none);
            same_id = refl;
            fits = record {
              long = length-clear_from (turns seats) course.enrolled_students ∙ fit.long;
              low = room.some_or_none;
              within = ground (arith, size);
              seats = room.at_most;
            };
            all_stay = λ enough s. ground (arith, fewer, enough);
          }
      | inr enough ↦ record {
        after = record course { name = strncpy name max_name; total_seats = seats };
        revised = ground (arith, enough);
        same_id = refl;
        fits = record {
          long = fit.long;
          low = fit.low;
          within = ground (arith, enough);
          seats = room.at_most;
        };
        all_stay = λ e s. refl;
      }
    ]

pub update_course-cases :
    (os : Opens) (id name : String) (seats : ℤ) (f : Files)
    → SeatsFit seats
    → InBounds f
    → (update_course os id name seats f ≡ returns (failed, f))
      ⊎ ((g : Files) × (update_course os id name seats f ≡ returns (pos 0, g)) × InBounds g)
unfolding update_course
update_course-cases os id name seats f room v =
    elim (Option-cases (open_file os.courses_open f.courses)) [
      | inl h ↦ inl (ground (arith, h))
      | inr (courses, h) ↦ elim (Option-cases (select_first (is_course_id id) courses)) [
        | inl k ↦ inl (ground (arith, h, k))
        | inr (course, k) ↦
            let same = opened_records os.courses_open f.courses courses h in
            let new =
              updated_course-Revised name seats course room
                (v.fits id course (ap (select_first (is_course_id id)) same ∙ k)) in
            inr (
              record f { courses = some (new_courses id courses course new.after k new.same_id) },
              ground (arith, h, k, new.revised),
              changed_course-InBounds id courses course new.after k new.same_id f same new.fits v,
            )
      ]
    ]

-- A change that keeps the students of the course keeps the lists.
revised_listed :
    (id : String) (courses : List Course) (course new : Course)
    (k : select_first (is_course_id id) courses ≡ some course) (same_id : new.id ≡ course.id)
    → ((s : String) → times s (roster new) ≡ times s (roster course))
    → (s c : String)
    → listed_in (new_courses id courses course new k same_id) s c ≡ listed_in courses s c
unfolding listed_in
revised_listed id courses course new k same_id kept s c =
    ground (arith, changed_listed id courses course new k same_id s c, kept s, k, eq_iff id c)

-- Where all students may stay, the agreement does.
pub update_course-Agrees :
    (os : Opens) (id name : String) (seats : ℤ) (f g : Files)
    → SeatsFit seats
    → InBounds f
    → ((c : Course)
        → select_first (is_course_id id) (records_of f.courses) ≡ some c
        → c.enrolled_count ≤ℤ seats)
    → Agrees f
    → update_course os id name seats f ≡ returns (pos 0, g)
    → Agrees g
unfolding update_course
update_course-Agrees os id name seats f g room v stay a r =
    elim (Option-cases (open_file os.courses_open f.courses)) [
      | inl h ↦ absurd (ground (arith, h, r))
      | inr (courses, h) ↦ elim (Option-cases (select_first (is_course_id id) courses)) [
        | inl k ↦ absurd (ground (arith, h, k, r))
        | inr (course, k) ↦
            let same = opened_records os.courses_open f.courses courses h in
            let k' = ap (select_first (is_course_id id)) same ∙ k in
            let new = updated_course-Revised name seats course room (v.fits id course k') in
            let now : g ≡ record f {
              courses = some (new_courses id courses course new.after k new.same_id);
            } =
              ground (arith, h, k, new.revised, r) in
            subst Agrees (sym now) (record {
              same_entries = λ s c full.
                  revised_listed id courses course new.after k new.same_id
                    (new.all_stay (stay course k')) s c
                  ∙ ap (λ (xs : List Course). listed_in xs s c) (sym same)
                  ∙ a.same_entries s c full;
              once = λ s c full.
                  subst (λ (n : ℕ). n ≤ 1)
                    (sym (
                      revised_listed id courses course new.after k new.same_id
                        (new.all_stay (stay course k')) s c
                      ∙ ap (λ (xs : List Course). listed_in xs s c) (sym same)))
                    (a.once s c full);
            })
      ]
    ]
