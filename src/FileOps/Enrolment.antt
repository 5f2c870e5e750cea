-- ===== src/FileOps/Enrolment.antt =====
-- academia/file_ops.c: enrolling, which adds to courses.dat and students.dat together.
use academia_cr.Prelude.{
  ℕ, zero, suc, String, Bool, true, false, Option, none, some, List, [], ◌∷◌, ℤ, pos, negsuc, ◌+ℤ◌,
  leb_ℤ, str_eq, if◌then◌else◌, select_first,
}
use academia_cr.Text.{is_empty}
use academia_cr.FileOps.{
  Files, Opens, Course, Student, Outcome, returns, overflow, strncpy, open_file, update_first,
  max_id, failed, err_not_found, err_full, err_already_enrolled, err_invalid_input,
  err_course_not_found,
}
use academia_cr.FileOps.Accounts.{is_student_id}
use academia_cr.FileOps.Catalog.{is_course_id}

-- how often a loop from 0 up to `n` turns
abbrev pub turns : ℤ → ℕ
turns (pos n) = n
turns (negsuc n) = 0

-- What the loop over a student's courses finds: the course, or the first empty entry, if any.
pub data Slot : Type 0 where
  enrolled : Slot
  no_slot : Slot
  empty_slot : ℕ → Slot

-- an entry further on
unfoldable pub next_slot : Slot → Slot
next_slot (empty_slot i) = empty_slot (suc i)
next_slot s = s

-- an empty entry in front
unfoldable pub first_slot : Slot → Slot
first_slot enrolled = enrolled
first_slot _ = empty_slot 0

-- the loop of enroll_course over the student's courses
unfoldable pub find_slot : String → List String → Slot
unfolding next_slot first_slot
find_slot course_id [] = no_slot
find_slot course_id (x ∷ xs) =
    let rest = find_slot course_id xs in
    if str_eq x course_id then enrolled else if is_empty x then first_slot rest else next_slot rest

-- xs[i] = x, for an i that find_slot gave
unfoldable pub set_slot : ℕ → String → List String → List String
set_slot i x [] = []
set_slot zero x (y ∷ ys) = x ∷ ys
set_slot (suc i) x (y ∷ ys) = y ∷ set_slot i x ys

-- the loop of enroll_course over the first `n` students of the course
unfoldable pub is_listed : String → ℕ → List String → Outcome Bool
is_listed student_id zero xs = returns false
is_listed student_id (suc n) [] = overflow
is_listed student_id (suc n) (x ∷ xs) =
    let rest = is_listed student_id n xs in if str_eq x student_id then returns true else rest

-- xs[i] = x in an array
unfoldable pub store : ℤ → String → List String → Outcome (List String)
store (negsuc n) x xs = overflow
store (pos n) x [] = overflow
store (pos zero) x (y ∷ ys) = returns (x ∷ ys)
store (pos (suc n)) x (y ∷ ys) = elim (store (pos n) x ys) [
  | overflow ↦ overflow
  | returns zs ↦ returns (y ∷ zs)
]

-- what step 2 of enroll_course says of the course: the code of a refusal, or none
unfoldable pub refusal : String → Course → Outcome (Option ℤ)
refusal student_id c =
    if leb_ℤ c.total_seats c.enrolled_count
    then returns (some err_full)
    else elim (is_listed student_id (turns c.enrolled_count) c.enrolled_students) [
      | overflow ↦ overflow
      | returns true ↦ returns (some err_already_enrolled)
      | returns false ↦ returns none
    ]

-- step 3 for the course
unfoldable pub add_to_course : String → Course → Outcome Course
add_to_course student_id c =
    elim (store c.enrolled_count (strncpy student_id max_id) c.enrolled_students) [
      | overflow ↦ overflow
      | returns students ↦
          returns
            (record c { enrolled_students = students; enrolled_count = c.enrolled_count +ℤ pos 1 })
    ]

-- step 3 for the student
abbrev pub add_to_student : String → ℕ → Student → Student
add_to_student course_id i s = record s {
  enrolled_courses = set_slot i (strncpy course_id max_id) s.enrolled_courses;
}

-- step 3: both records are written
unfoldable pub write_both :
    String → String → ℕ → List Student → List Course → Course → Files → Outcome (ℤ × Files)
unfolding add_to_course
write_both student_id course_id i students courses course f =
    elim (add_to_course student_id course) [
      | overflow ↦ overflow
      | returns new ↦ returns (
        pos 0,
        record f {
          students =
              some (update_first (is_student_id student_id) (add_to_student course_id i) students);
          courses = some (update_first (is_course_id course_id) (λ _. new) courses);
        },
      )
    ]

-- steps 2 and 3, with the entry that is free
unfoldable pub enroll_found :
    Opens → String → String → ℕ → List Student → Files → Outcome (ℤ × Files)
unfolding refusal write_both
enroll_found os student_id course_id i students f = elim (open_file os.courses_open f.courses) [
  | none ↦ returns (failed, f)
  | some courses ↦ elim (select_first (is_course_id course_id) courses) [
    | none ↦ returns (err_course_not_found, f)
    | some course ↦ elim (refusal student_id course) [
      | overflow ↦ overflow
      | returns (some code) ↦ returns (code, f)
      | returns none ↦ write_both student_id course_id i students courses course f
    ]
  ]
]

-- enroll_course
unfoldable pub enroll_course : Opens → String → String → Files → Outcome (ℤ × Files)
unfolding enroll_found
enroll_course os student_id course_id f = elim (open_file os.students_open f.students) [
  | none ↦ returns (failed, f)
  | some students ↦ elim (select_first (is_student_id student_id) students) [
    | none ↦ returns (err_not_found, f)
    | some s ↦
        if s.active
        then elim (find_slot course_id s.enrolled_courses) [
          | enrolled ↦ returns (err_already_enrolled, f)
          | no_slot ↦ returns (err_full, f)
          | empty_slot i ↦ enroll_found os student_id course_id i students f
        ]
        else returns (err_invalid_input, f)
  ]
]
