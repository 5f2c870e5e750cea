-- ===== src/FileOps/Accounts.antt =====
-- academia/file_ops.c: the operations on users.dat, students.dat and faculty.dat, and the
-- authentication of server/server.c.
pub mod Logins
use academia_cr.Prelude.{
  ℕ, zero, suc, String, Bool, true, false, ◌&&◌, Option, none, some, List, [], ◌∷◌, ◌++◌, ℤ, pos,
  str_eq, if◌then◌else◌, has_value, select_first,
}
use academia_cr.FileOps.{
  Files, Opens, User, Student, Faculty, Role, admin, student, faculty, strncpy, open_file,
  create_file, update_first, max_courses, max_name, max_pass, max_id, failed,
}

-- `n` empty entries
unfoldable pub repeat_empty : ℕ → List String
repeat_empty zero = []
repeat_empty (suc n) = "" ∷ repeat_empty n

-- the User that add_user writes
abbrev pub new_user : String → String → Role → User
new_user id password role = record {
  id = strncpy id max_id;
  role = role;
  password = strncpy password max_pass;
}

-- add_user
unfoldable pub add_user : Opens → String → String → Role → Files → ℤ × Files
add_user os id password role f = elim (create_file os.users_open f.users) [
  | none ↦ (failed, f)
  | some users ↦ (pos 0, record f { users = some (users ++ new_user id password role ∷ []) })
]

-- the Student that add_student writes
abbrev pub new_student : String → String → Student
new_student id name = record {
  id = strncpy id max_id;
  name = strncpy name max_name;
  active = true;
  enrolled_courses = repeat_empty max_courses;
}

-- add_student
unfoldable pub add_student : Opens → String → String → Files → ℤ × Files
add_student os id name f = elim (create_file os.students_open f.students) [
  | none ↦ (failed, f)
  | some students ↦ (pos 0, record f { students = some (students ++ new_student id name ∷ []) })
]

-- add_faculty
unfoldable pub add_faculty : Opens → String → String → Files → ℤ × Files
add_faculty os id name f = elim (create_file os.faculty_open f.faculty) [
  | none ↦ (failed, f)
  | some members ↦ (
    pos 0,
    record f {
      faculty =
          some (members ++ record { id = strncpy id max_id; name = strncpy name max_name } ∷ []);
    },
  )
]

-- strcmp(student.id, id) == 0
abbrev pub is_student_id : String → Student → Bool
is_student_id id s = str_eq s.id id

abbrev pub is_user_id : String → User → Bool
is_user_id id u = str_eq u.id id

abbrev pub is_faculty_id : String → Faculty → Bool
is_faculty_id id m = str_eq m.id id

-- the loop of the operations that change one student
unfoldable pub change_student : Opens → String → (Student → Student) → Files → ℤ × Files
change_student os id change f = elim (open_file os.students_open f.students) [
  | none ↦ (failed, f)
  | some students ↦
      if has_value (select_first (is_student_id id) students)
      then (pos 0, record f { students = some (update_first (is_student_id id) change students) })
      else (failed, f)
]

-- activate_deactivate_student
unfoldable pub activate_deactivate_student : Opens → String → Bool → Files → ℤ × Files
unfolding change_student
activate_deactivate_student os id activate f =
    change_student os id (λ s. record s { active = activate }) f

-- update_student
unfoldable pub update_student : Opens → String → String → Files → ℤ × Files
unfolding change_student
update_student os id new_name f =
    change_student os id (λ s. record s { name = strncpy new_name max_name }) f

-- update_faculty
unfoldable pub update_faculty : Opens → String → String → Files → ℤ × Files
update_faculty os id new_name f = elim (open_file os.faculty_open f.faculty) [
  | none ↦ (failed, f)
  | some members ↦
      if has_value (select_first (is_faculty_id id) members)
      then (
        pos 0,
        record f {
          faculty = some (
              update_first (is_faculty_id id) (λ m. record m { name = strncpy new_name max_name })
                members);
        },
      )
      else (failed, f)
]

-- change_password
unfoldable pub change_password : Opens → String → String → Files → ℤ × Files
change_password os user_id new_password f = elim (open_file os.users_open f.users) [
  | none ↦ (failed, f)
  | some users ↦
      if has_value (select_first (is_user_id user_id) users)
      then (
        pos 0,
        record f {
          users = some (
              update_first (is_user_id user_id)
                (λ u. record u { password = strncpy new_password max_pass }) users);
        },
      )
      else (failed, f)
]

is_empty_file : Opens → Files → Bool
is_empty_file os f = elim (open_file os.users_open f.users) [
  | none ↦ true
  | some [] ↦ true
  | some (u ∷ us) ↦ false
]

-- the two calls that are joined by &&: the second only after the first has succeeded
abbrev pub and_then : ℤ × Files → (Files → ℤ × Files) → Files
and_then (pos zero, f) next = (next f).1
and_then (_, f) next = f

-- initial_setup
unfoldable pub initial_setup : Opens → Files → Files
unfolding is_empty_file
initial_setup os f =
    if is_empty_file os f
    then and_then (add_user os "admin1" "adminpass" admin f) (λ g.
      let h = and_then (add_user os "s1" "pass1" student g) (add_student os "s1" "John") in
      (pos 0, and_then (add_user os "f1" "pass2" faculty h) (add_faculty os "f1" "Dr. Smith")))
    else f

abbrev pub same_role : Role → Role → Bool
same_role admin admin = true
same_role student student = true
same_role faculty faculty = true
same_role _ _ = false

-- the record that client_handler looks for in users.dat
abbrev pub has_credentials : String → String → Role → User → Bool
has_credentials user_id password expected_role u =
    str_eq u.id user_id && (str_eq u.password password && same_role u.role expected_role)

-- the authentication of client_handler; `none` if users.dat cannot be opened
unfoldable pub authenticate : Opens → String → String → Role → Files → Option Bool
authenticate os user_id password expected_role f = elim (open_file os.users_open f.users) [
  | none ↦ none
  | some users ↦
      some (has_value (select_first (has_credentials user_id password expected_role) users))
]
