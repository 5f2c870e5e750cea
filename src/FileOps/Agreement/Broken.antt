-- ===== src/FileOps/Agreement/Broken.antt =====
-- What update_course, add_course and enroll_course do with seats that do not fit.
use academia_cr.Prelude.{
  ℕ, zero, suc, ◌≤◌, ◌<◌, ◌≡◌, refl, ap, ◌∙◌, String, true, false, Option, some, List, [], ◌∷◌,
  arith, pos, negsuc, ◌≤ℤ◌, leb_ℤ, ltb_ℤ, select_first, length, take, count_where,
}
use academia_cr.Text.{is_empty}
use academia_cr.FileOps.{
  Files, Opens, Course, Student, returns, overflow, open_file, strncpy, max_id, max_name, max_users,
}
use academia_cr.FileOps.Accounts.{is_student_id}
use academia_cr.FileOps.Catalog.{is_course_id, clear_from, reduced, updated_course, update_course}
use academia_cr.FileOps.Enrolment.{
  turns, empty_slot, find_slot, refusal, store, add_to_course, write_both, enroll_found,
  enroll_course,
}
use academia_cr.FileOps.Entries.{times, is_listed-times}
use academia_cr.FileOps.Records.{str_eq_refl}
use academia_cr.FileOps.Agreement.{
  records_of, roster, listed_in, taken_by, InBounds, Agrees, count_is_pos, opened_records,
}
use academia_cr.FileOps.Agreement.Changing.{new_courses, changed_listed}

-- An entry that a shorter take drops.
dropped_entry :
    (n m : ℕ) (xs : List String)
    → n < m
    → m ≤ length xs
    → (x : String) × (times x (take n xs) < times x (take m xs))
unfolding count_where
dropped_entry n zero xs h k = absurd (omega (arith, h))
dropped_entry n (suc m) [] h k = absurd (omega (arith, k))
dropped_entry zero (suc m) (x ∷ xs) h k = (x, ground (arith, str_eq_refl x))
dropped_entry (suc n) (suc m) (x ∷ xs) h k =
    let (y, less) = dropped_entry n m xs (omega arith) (omega arith) in (y, ground (arith, less))

times-take-clear_from :
    (n : ℕ) (xs : List String) (s : String)
    → times s (take n (clear_from n xs)) ≡ times s (take n xs)
unfolding clear_from count_where
times-take-clear_from zero [] s = refl
times-take-clear_from zero (x ∷ xs) s = refl
times-take-clear_from (suc n) [] s = refl
times-take-clear_from (suc n) (x ∷ xs) s = ground (arith, times-take-clear_from n xs s)

listed_found :
    (courses : List Course) (course : Course) (s c : String)
    → select_first (is_course_id c) courses ≡ some course
    → listed_in courses s c ≡ times s (roster course)
unfolding listed_in
listed_found courses course s c k = ground (arith, k)

-- A course of which the first n students are left, on files that agreed before.
cut_disagrees :
    (id : String) (n : ℕ) (f g : Files) (courses : List Course) (course new : Course)
    (k : select_first (is_course_id id) courses ≡ some course) (same_id : new.id ≡ course.id)
    → is_empty id ≡ false
    → records_of f.courses ≡ courses
    → n < turns course.enrolled_count
    → turns course.enrolled_count ≤ length course.enrolled_students
    → roster new ≡ take n (clear_from n course.enrolled_students)
    → Agrees f
    → g.students ≡ f.students
    → records_of g.courses ≡ new_courses id courses course new k same_id
    → ¬ Agrees g
cut_disagrees id n f g courses course new k same_id full same fewer fit cut a students now b =
    let (s, less) =
      dropped_entry n (turns course.enrolled_count) course.enrolled_students fewer fit in
    let listed_cut : listed_in (new_courses id courses course new k same_id) s id
        ≡ times s (roster new) =
      ground (arith, changed_listed id courses course new k same_id s id, str_eq_refl id) in
    omega (
      arith,
      less,
      times-take-clear_from n course.enrolled_students s,
      ap (λ (xs : List String). times s xs) cut,
      listed_found courses course s id k,
      ap (λ (xs : List Course). listed_in xs s id) same,
      a.same_entries s id full,
      b.same_entries s id full,
      ap (λ (x : Option (List Student)). taken_by (records_of x) s id) students,
      ap (λ (xs : List Course). listed_in xs s id) now,
      listed_cut,
    )

-- On files in bounds that agree, update_course to a number of seats that is not negative and less than
-- the number of students, of a course that has an id, where courses.dat can be opened, returns 0 and
-- takes students off the course that keep it in students.dat: the files agree no longer.
pub shrinking-disagrees :
    (os : Opens) (id name : String) (n : ℕ) (f : Files) (courses : List Course) (course : Course)
    → is_empty id ≡ false
    → InBounds f
    → Agrees f
    → open_file os.courses_open f.courses ≡ some courses
    → select_first (is_course_id id) courses ≡ some course
    → ltb_ℤ (pos n) course.enrolled_count ≡ true
    → (g : Files) × (update_course os id name (pos n) f ≡ returns (pos 0, g)) × (¬ Agrees g)
unfolding update_course updated_course reduced
shrinking-disagrees os id name n f courses course full v a h k fewer =
    let same = opened_records os.courses_open f.courses courses h in
    let fit = v.fits id course (ap (select_first (is_course_id id)) same ∙ k) in
    let size = count_is_pos course.enrolled_count fit.low in
    let new : Course = record course {
      name = strncpy name max_name;
      total_seats = pos n;
      enrolled_count = pos n;
      enrolled_students = clear_from n course.enrolled_students;
    } in
    let g : Files = record f { courses = some (new_courses id courses course new k refl) } in
    (
      g,
      ground (arith, h, k, fewer),
      cut_disagrees id n f g courses course new k refl full same (ground (arith, fewer, size))
          (ground (arith, fit.long, fit.within, fit.seats, size)) refl a refl refl,
    )

take-length : (xs : List String) → take (length xs) xs ≡ xs
take-length [] = refl
take-length (x ∷ xs) = ap (λ ys. x ∷ ys) (take-length xs)

store-end : (x : String) (xs : List String) → store (pos (length xs)) x xs ≡ overflow
unfolding store
store-end x [] = refl
store-end x (y ∷ ys) = ground (arith, store-end x ys)

-- update_course to a negative number of seats, on a course with a count that is not negative, writes
-- in front of the array of its students.
pub negative_seats_overflow :
    (os : Opens) (id name : String) (n : ℕ) (f : Files) (courses : List Course) (course : Course)
    → open_file os.courses_open f.courses ≡ some courses
    → select_first (is_course_id id) courses ≡ some course
    → pos 0 ≤ℤ course.enrolled_count
    → update_course os id name (negsuc n) f ≡ overflow
unfolding update_course updated_course reduced
negative_seats_overflow os id name n f courses course h k low =
    ground (arith, h, k, low, count_is_pos course.enrolled_count low)

-- enroll_course on a course of more than 100 seats that has 100 students writes behind the array of
-- its students, where the student is active, has a free entry and is not among the 100.
pub more_seats_overflow :
    (os : Opens) (s c : String) (f : Files) (students : List Student) (courses : List Course)
    (student : Student) (course : Course) (slot : ℕ)
    → open_file os.students_open f.students ≡ some students
    → open_file os.courses_open f.courses ≡ some courses
    → select_first (is_student_id s) students ≡ some student
    → select_first (is_course_id c) courses ≡ some course
    → student.active ≡ true
    → find_slot c student.enrolled_courses ≡ empty_slot slot
    → course.enrolled_count ≡ pos max_users
    → length course.enrolled_students ≡ max_users
    → leb_ℤ course.total_seats (pos max_users) ≡ false
    → times s course.enrolled_students ≡ 0
    → enroll_course os s c f ≡ overflow
unfolding enroll_course enroll_found refusal write_both add_to_course
more_seats_overflow os s c f students courses student course slot h o k m a e n long more gone =
    ground (
      arith,
      h,
      o,
      k,
      m,
      a,
      e,
      n,
      long,
      more,
      is_listed-times s max_users course.enrolled_students,
      take-length course.enrolled_students,
      gone,
      store-end (strncpy s max_id) course.enrolled_students,
    )
