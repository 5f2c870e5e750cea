-- ===== src/FileOps/Views.antt =====
-- academia/file_ops.c: the listings, each in a buffer that grows. `memory n` says whether malloc or
-- realloc finds n bytes. A character is one byte.
pub mod Buffers
use Prim.Native.String.{count}
use academia_cr.Prelude.{
  ℕ, zero, suc, ◌+◌, String, str_append, Bool, true, false, Option, none, some, List, [], ◌∷◌, ltb,
  ℤ, pos, negsuc, str_eq, if◌then◌else◌, select, select_first, take,
}
use academia_cr.Text.{is_empty, to_string}
use academia_cr.FileOps.{Files, Opens, Course, Student, Faculty, strncpy, open_file}
use academia_cr.FileOps.Accounts.{is_student_id}
use academia_cr.FileOps.Catalog.{is_course_id}
use academia_cr.FileOps.Enrolment.{turns}

-- result, and buffer_size
pub record Buffer : Type 0 where
  pub text : String
  pub size : ℕ

-- snprintf into an array of n + 1 bytes
abbrev pub snprintf : ℕ → String → String
snprintf n s = strncpy s n

-- "%d"
unfoldable pub decimal : ℤ → String
decimal (pos n) = to_string n
decimal (negsuc n) = str_append "-" (to_string (suc n))

text_of : Option Buffer → Option String
text_of none = none
text_of (some b) = some b.text

-- the lines, numbered by count++
unfoldable pub numbered {ℓ} : {A : Type ℓ} → (ℕ → A → String) → ℕ → List A → List String
numbered line n [] = []
numbered line n (x ∷ xs) = line n x ∷ numbered line (suc n) xs

infixr 5 ◌+++◌
abbrev pub ◌+++◌ : String → String → String
s +++ t = str_append s t

abbrev pub course_line : ℕ → Course → String
course_line n c = snprintf 199 (
    to_string n
    +++ ". ID: "
    +++ c.id
    +++ ", Name: "
    +++ c.name
    +++ ", Faculty ID: "
    +++ c.faculty_id
    +++ ", Seats: "
    +++ decimal c.total_seats
    +++ ", Enrolled: "
    +++ decimal c.enrolled_count
    +++ "\n")

abbrev pub offered_line : ℕ → Course → String
offered_line n c = snprintf 199 (
    to_string n
    +++ ". ID: "
    +++ c.id
    +++ ", Name: "
    +++ c.name
    +++ ", Seats: "
    +++ decimal c.total_seats
    +++ ", Enrolled: "
    +++ decimal c.enrolled_count
    +++ "\n")

abbrev pub student_line : ℕ → Student → String
student_line n s = snprintf 199 (
    to_string n
    +++ ". ID: "
    +++ s.id
    +++ ", Name: "
    +++ s.name
    +++ ", Status: "
    +++ (if s.active then "Active" else "Blocked")
    +++ "\n")

abbrev pub faculty_line : ℕ → Faculty → String
faculty_line n m =
    snprintf 199 (to_string n +++ ". ID: " +++ m.id +++ ", Name: " +++ m.name +++ "\n")

abbrev pub entry_line : ℕ → String → String
entry_line n id = snprintf 99 (to_string n +++ ". " +++ id +++ "\n")

abbrev pub is_used : String → Bool
is_used x = if is_empty x then false else true

module _ (memory : ℕ → Bool) where
  -- realloc if the text does not fit, and strcat
  unfoldable pub append : String → Buffer → Option Buffer
  append part b =
      let needed_size = count b.text + count part + 1 in
      if ltb b.size needed_size
      then (if memory (needed_size + 1024)
          then some (record { text = str_append b.text part; size = needed_size + 1024 })
          else none)
      else some (record { text = str_append b.text part; size = b.size })

  -- the loop over the lines
  unfoldable pub append_all : List String → Buffer → Option Buffer
  unfolding append
  append_all [] b = some b
  append_all (line ∷ lines) b = elim (append line b) [ none ↦ none | some c ↦ append_all lines c ]

  -- `count == 1` after the loop: the text for an empty list
  unfoldable pub append_none : String → List String → Buffer → Option Buffer
  append_none nothing [] b = append nothing b
  append_none nothing (line ∷ lines) b = some b

  -- malloc of 2048 bytes, the head, the lines, and the text for none
  unfoldable pub listing : String → List String → String → Option Buffer
  unfolding append_all append_none
  listing head lines nothing =
      if memory 2048
      then elim (append_all lines (record { text = head; size = 2048 })) [
        | none ↦ none
        | some b ↦ append_none nothing lines b
      ]
      else none

  -- view_all_courses
  unfoldable pub view_all_courses : Opens → Files → Option String
  unfolding listing numbered text_of
  view_all_courses os f = elim (open_file os.courses_open f.courses) [
    | none ↦ none
    | some courses ↦ text_of (
        listing "All Available Courses:\n" (numbered course_line 1 courses)
          "No courses available.\n")
  ]

  -- view_faculty_courses
  unfoldable pub view_faculty_courses : Opens → String → Files → Option String
  unfolding listing numbered text_of
  view_faculty_courses os faculty_id f = elim (open_file os.courses_open f.courses) [
    | none ↦ none
    | some courses ↦ text_of (
        listing (snprintf 2047 ("Courses Offered by Faculty " +++ faculty_id +++ ":\n"))
          (numbered offered_line 1
            (select (λ (c : Course). str_eq c.faculty_id faculty_id) courses))
          "No courses offered.\n")
  ]

  -- view_all_students
  unfoldable pub view_all_students : Opens → Files → Option String
  unfolding listing numbered text_of
  view_all_students os f = elim (open_file os.students_open f.students) [
    | none ↦ none
    | some students ↦
        text_of
          (listing "All Students:\n" (numbered student_line 1 students) "No students available.\n")
  ]

  -- view_all_faculty
  unfoldable pub view_all_faculty : Opens → Files → Option String
  unfolding listing numbered text_of
  view_all_faculty os f = elim (open_file os.faculty_open f.faculty) [
    | none ↦ none
    | some members ↦
        text_of
          (listing "All Faculty:\n" (numbered faculty_line 1 members) "No faculty available.\n")
  ]

  -- the text where the record is not found; it fits in the 2048 bytes
  not_found : String → Option String
  not_found text = if memory 2048 then some text else none

  -- view_enrolled_courses
  unfoldable pub view_enrolled_courses : Opens → String → Files → Option String
  unfolding listing numbered text_of not_found
  view_enrolled_courses os student_id f = elim (open_file os.students_open f.students) [
    | none ↦ none
    | some students ↦ elim (select_first (is_student_id student_id) students) [
      | none ↦ not_found "Student not found\n"
      | some s ↦ text_of (
          listing "Enrolled Courses:\n" (numbered entry_line 1 (select is_used s.enrolled_courses))
            "No courses enrolled.\n")
    ]
  ]

  -- view_course_enrollments, for a course of at most as many students as its array holds
  unfoldable pub view_course_enrollments : Opens → String → Files → Option String
  unfolding listing numbered text_of not_found
  view_course_enrollments os course_id f = elim (open_file os.courses_open f.courses) [
    | none ↦ none
    | some courses ↦ elim (select_first (is_course_id course_id) courses) [
      | none ↦ not_found "Course not found\n"
      | some c ↦ text_of (
          listing (snprintf 2047 ("Enrollments for Course " +++ course_id +++ ":\n"))
            (numbered entry_line 1 (take (turns c.enrolled_count) c.enrolled_students))
            "No students enrolled.\n")
    ]
  ]
