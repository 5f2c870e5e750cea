-- ===== src/FileOps/Agreement/Leaving.antt =====
-- What unenroll_course does to the course.
use academia_cr.Prelude.{
  ◌+◌, ◌≡◌, refl, ap, ◌∙◌, inl, inr, String, ◌&&◌, some, List, arith, ℤ, pos, ◌-ℤ◌, select_first,
  take, ltb, str_eq, eq_iff, if◌then◌else◌, Bool-cases, Option-cases,
}
use academia_cr.FileOps.{Files, Course, returns}
use academia_cr.FileOps.Catalog.{is_course_id}
use academia_cr.FileOps.Enrolment.{turns}
use academia_cr.FileOps.Unenrolment.{leave_course, leave_courses}
use academia_cr.FileOps.Entries.{times, take_out-cases}
use academia_cr.FileOps.Agreement.{
  records_of, roster, listed_in, CourseFits, InBounds, count_is_pos,
}
use academia_cr.FileOps.Agreement.Changing.{new_courses, changed_listed, changed_course-InBounds}
use academia_cr.FileOps.Agreement.Enrolled.{pair}

-- A course that a student has left, or that did not list them.
pub record LeftCourse (s : String) (course : Course) : Type 0 where
  pub after : Course
  pub left : leave_course s course ≡ returns after
  pub same_id : after.id ≡ course.id
  pub fits : CourseFits after
  pub counts :
      (s' : String)
      → times s' (roster after) + (if str_eq s s' && ltb 0 (times s (roster course)) then 1 else 0)
        ≡ times s' (roster course)

pub leave_course-LeftCourse :
    (s : String) (course : Course) → CourseFits course → LeftCourse s course
unfolding leave_course
leave_course-LeftCourse s course fit =
    let n = turns course.enrolled_count in
    let count_n = count_is_pos course.enrolled_count fit.low in
    elim (take_out-cases s n course.enrolled_students
      (ground (arith, count_n, fit.long, fit.within, fit.seats))) [
        | inl (kept, gone) ↦ record {
          after = course;
          left = ground (arith, kept);
          same_id = refl;
          fits = fit;
          counts = λ s'. ground (arith, gone);
        }
        | inr out ↦
            let count_left : course.enrolled_count -ℤ pos 1 ≡ pos out.left =
              unfold ◌-ℤ◌ in ground (arith, count_n, out.one_less) in
            record {
              after = record course {
                enrolled_students = out.after;
                enrolled_count = course.enrolled_count -ℤ pos 1;
              };
              left = ground (arith, out.taken);
              same_id = refl;
              fits = record {
                long = out.long ∙ fit.long;
                low = ground (arith, count_left);
                within = ground (arith, count_left, count_n, out.one_less, fit.within);
                seats = fit.seats;
              };
              counts = λ s'. ground (
                arith,
                out.counts s',
                out.counts s,
                count_left,
                eq_iff s s',
                ap (λ (k : ℤ). times s' (take (turns k) out.after)) count_left,
              );
            }
      ]

-- courses.dat after unenroll_course.
pub record LeftCourses (s c : String) (f : Files) (courses : List Course) : Type 0 where
  pub after : List Course
  pub left : leave_courses s c courses ≡ returns after
  pub bounded : InBounds (record f { courses = some after })
  pub counts :
      (s' c' : String)
      → listed_in after s' c' + (if ltb 0 (listed_in courses s c) then pair s c s' c' else 0)
        ≡ listed_in courses s' c'

same_courses :
    (f : Files) (courses : List Course)
    → records_of f.courses ≡ courses
    → InBounds f
    → InBounds (record f { courses = some courses })
same_courses f courses h v = record {
  fits = λ id c k. v.fits id c (ap (select_first (is_course_id id)) h ∙ k);
  course_ids = λ id c k. v.course_ids id c (ap (select_first (is_course_id id)) h ∙ k);
  student_ids = v.student_ids;
}

pub leave_courses-LeftCourses :
    (s c : String) (f : Files) (courses : List Course)
    → records_of f.courses ≡ courses
    → InBounds f
    → LeftCourses s c f courses
unfolding leave_courses listed_in
leave_courses-LeftCourses s c f courses h v =
    elim (Option-cases (select_first (is_course_id c) courses)) [
      | inl k ↦ record {
        after = courses;
        left = ground (arith, k);
        bounded = same_courses f courses h v;
        counts = λ s' c'. ground (arith, k);
      }
      | inr (course, k) ↦
          let out =
            leave_course-LeftCourse s course
              (v.fits c course (ap (select_first (is_course_id c)) h ∙ k)) in
          record {
            after = new_courses c courses course out.after k out.same_id;
            left = ground (arith, k, out.left);
            bounded =
                changed_course-InBounds c courses course out.after k out.same_id f h out.fits v;
            counts = λ s' c'. ground (
              arith,
              changed_listed c courses course out.after k out.same_id s' c',
              k,
              out.counts s',
              eq_iff c c',
              Bool-cases (str_eq c c'),
            );
          }
    ]
