-- ===== src/FileOps/Catalog.antt =====
-- academia/file_ops.c: the operations of the faculty on courses.dat.
use academia_cr.Prelude.{
  ℕ, zero, suc, String, Bool, none, some, List, [], ◌∷◌, ◌++◌, map, ℤ, pos, negsuc, ltb_ℤ, str_eq,
  if◌then◌else◌, has_value, select_first, delete_where,
}
use academia_cr.FileOps.{
  Files, Opens, Course, Student, Outcome, returns, overflow, strncpy, open_file, create_file,
  update_first, max_users, max_name, max_id, failed,
}
use academia_cr.FileOps.Accounts.{repeat_empty}

-- strcmp(course.id, id) == 0
abbrev pub is_course_id : String → Course → Bool
is_course_id id c = str_eq c.id id

-- the Course that add_course writes
abbrev pub new_course : String → String → String → ℤ → Course
new_course id name faculty_id seats = record {
  id = strncpy id max_id;
  name = strncpy name max_name;
  faculty_id = strncpy faculty_id max_id;
  total_seats = seats;
  enrolled_count = pos 0;
  enrolled_students = repeat_empty max_users;
}

-- add_course
unfoldable pub add_course : Opens → String → String → String → ℤ → Files → ℤ × Files
add_course os id name faculty_id seats f = elim (create_file os.courses_open f.courses) [
  | none ↦ (failed, f)
  | some courses ↦
      if has_value (select_first (is_course_id id) courses)
      then (failed, record f { courses = some courses })
      else (
        pos 0,
        record f { courses = some (courses ++ new_course id name faculty_id seats ∷ []) },
      )
]

-- for (i = n; ...; i++) memset(xs[i], 0, MAX_ID)
unfoldable pub clear_from : ℕ → List String → List String
clear_from n [] = []
clear_from zero (x ∷ xs) = "" ∷ clear_from zero xs
clear_from (suc n) (x ∷ xs) = x ∷ clear_from n xs

-- the students of a course of which `seats` seats are left; a negative number starts the loop in
-- front of the array
unfoldable pub reduced : ℤ → List String → Outcome (List String)
unfolding clear_from
reduced (pos n) students = returns (clear_from n students)
reduced (negsuc n) students = overflow

-- the course after update_course
unfoldable pub updated_course : String → ℤ → Course → Outcome Course
unfolding reduced
updated_course new_name new_seats c =
    if ltb_ℤ new_seats c.enrolled_count
    then elim (reduced new_seats c.enrolled_students) [
      | overflow ↦ overflow
      | returns students ↦ returns (record c {
        name = strncpy new_name max_name;
        total_seats = new_seats;
        enrolled_count = new_seats;
        enrolled_students = students;
      })
    ]
    else returns (record c { name = strncpy new_name max_name; total_seats = new_seats })

-- update_course
unfoldable pub update_course : Opens → String → String → ℤ → Files → Outcome (ℤ × Files)
update_course os id new_name new_seats f = elim (open_file os.courses_open f.courses) [
  | none ↦ returns (failed, f)
  | some courses ↦ elim (select_first (is_course_id id) courses) [
    | none ↦ returns (failed, f)
    | some course ↦ elim (updated_course new_name new_seats course) [
      | overflow ↦ overflow
      | returns new ↦
          returns
            (pos 0, record f { courses = some (update_first (is_course_id id) (λ _. new) courses) })
    ]
  ]
]

-- memset of the entries that hold the id
abbrev pub cleared : String → String → String
cleared id x = if str_eq x id then "" else x

-- remove_course, after courses.dat: unenroll all students from the course
unfoldable pub forget_course : Opens → String → Files → Files
forget_course os id f = elim (open_file os.students_open f.students) [
  | none ↦ f
  | some students ↦ record f {
    students = some (
        map (λ (s : Student). record s { enrolled_courses = map (cleared id) s.enrolled_courses })
          students);
  }
]

-- remove_course
unfoldable pub remove_course : Opens → String → Files → ℤ × Files
unfolding forget_course
remove_course os id f = elim (open_file os.courses_open f.courses) [
  | none ↦ (failed, f)
  | some courses ↦
      if has_value (select_first (is_course_id id) courses)
      then (if os.temp_open
          then (
            pos 0,
            forget_course os id
                (record f { courses = some (delete_where (is_course_id id) courses) }),
          )
          else (failed, f))
      else (failed, forget_course os id f)
]

-- the part of remove_course up to its first sem_post: courses.dat
unfoldable pub remove_from_catalog : Opens → String → Files → ℤ × Files
remove_from_catalog os id f = elim (open_file os.courses_open f.courses) [
  | none ↦ (failed, f)
  | some courses ↦
      if has_value (select_first (is_course_id id) courses)
      then (if os.temp_open
          then (pos 0, record f { courses = some (delete_where (is_course_id id) courses) })
          else (failed, f))
      else (failed, f)
]
