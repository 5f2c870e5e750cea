-- ===== src/FileOps/Unenrolment.antt =====
-- academia/file_ops.c: unenrolling, which takes out of courses.dat and then out of students.dat.
use academia_cr.Prelude.{
  ℕ, zero, suc, String, Bool, Option, none, some, List, [], ◌∷◌, ℤ, pos, ◌-ℤ◌, str_eq,
  if◌then◌else◌, has_value, select_first,
}
use academia_cr.FileOps.{
  Files, Opens, Course, Outcome, returns, overflow, open_file, update_first, failed,
  err_not_enrolled,
}
use academia_cr.FileOps.Accounts.{is_student_id}
use academia_cr.FileOps.Catalog.{is_course_id}
use academia_cr.FileOps.Enrolment.{turns}

-- the loop that moves the entries behind the first of `n + 1` one place down
unfoldable pub move_down : ℕ → List String → Outcome (List String)
move_down zero xs = returns xs
move_down (suc n) [] = overflow
move_down (suc n) (x ∷ []) = overflow
move_down (suc n) (x ∷ y ∷ ys) = elim (move_down n (y ∷ ys)) [
  | overflow ↦ overflow
  | returns zs ↦ returns (y ∷ zs)
]

-- the entries after the student is taken out of the first `n`, or none if they are not there
unfoldable pub take_out : String → ℕ → List String → Outcome (Option (List String))
unfolding move_down
take_out student_id zero xs = returns none
take_out student_id (suc n) [] = overflow
take_out student_id (suc n) (x ∷ xs) =
    let rest = take_out student_id n xs in
    if str_eq x student_id
    then elim (move_down n (x ∷ xs)) [ overflow ↦ overflow | returns zs ↦ returns (some zs) ]
    else elim rest [
      | overflow ↦ overflow
      | returns none ↦ returns none
      | returns (some zs) ↦ returns (some (x ∷ zs))
    ]

-- unenroll_course for the course
unfoldable pub leave_course : String → Course → Outcome Course
unfolding take_out
leave_course student_id c =
    elim (take_out student_id (turns c.enrolled_count) c.enrolled_students) [
      | overflow ↦ overflow
      | returns none ↦ returns c
      | returns (some students) ↦
          returns
            (record c { enrolled_students = students; enrolled_count = c.enrolled_count -ℤ pos 1 })
    ]

-- unenroll_course for the courses, where the file could be opened
unfoldable pub leave_courses : String → String → List Course → Outcome (List Course)
unfolding leave_course
leave_courses student_id course_id courses = elim (select_first (is_course_id course_id) courses) [
  | none ↦ returns courses
  | some course ↦ elim (leave_course student_id course) [
    | overflow ↦ overflow
    | returns new ↦ returns (update_first (is_course_id course_id) (λ _. new) courses)
  ]
]

-- the first entry that holds the course is cleared
unfoldable pub clear_slot : String → List String → List String
clear_slot course_id [] = []
clear_slot course_id (x ∷ xs) =
    let rest = clear_slot course_id xs in if str_eq x course_id then "" ∷ xs else x ∷ rest

abbrev pub holds : String → String → Bool
holds course_id x = str_eq x course_id

-- unenroll_course for the students
unfoldable pub leave_student : Opens → String → String → Files → ℤ × Files
unfolding clear_slot
leave_student os student_id course_id f = elim (open_file os.students_open f.students) [
  | none ↦ (failed, f)
  | some students ↦ elim (select_first (is_student_id student_id) students) [
    | none ↦ (failed, f)
    | some s ↦
        if has_value (select_first (holds course_id) s.enrolled_courses)
        then (
          pos 0,
          record f {
            students = some (
                update_first (is_student_id student_id)
                  (λ t. record t { enrolled_courses = clear_slot course_id t.enrolled_courses })
                  students);
          },
        )
        else (err_not_enrolled, f)
  ]
]

-- unenroll_course
unfoldable pub unenroll_course : Opens → String → String → Files → Outcome (ℤ × Files)
unfolding leave_courses leave_student
unenroll_course os student_id course_id f = elim (open_file os.courses_open f.courses) [
  | none ↦ returns (failed, f)
  | some courses ↦ elim (leave_courses student_id course_id courses) [
    | overflow ↦ overflow
    | returns new ↦
        returns (leave_student os student_id course_id (record f { courses = some new }))
  ]
]

-- the part of unenroll_course up to its first sem_post: the course
unfoldable pub unenroll_from_course : Opens → String → String → Files → Outcome (ℤ × Files)
unfolding leave_courses
unenroll_from_course os student_id course_id f = elim (open_file os.courses_open f.courses) [
  | none ↦ returns (failed, f)
  | some courses ↦ elim (leave_courses student_id course_id courses) [
    | overflow ↦ overflow
    | returns new ↦ returns (pos 0, record f { courses = some new })
  ]
]
