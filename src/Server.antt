-- ===== src/Server.antt =====
-- server/server.c: what a session does with what its client sends. Each read from the socket is given
-- as the text (or, for seats, the number) that it leaves in its array, and choices as what atoi
-- makes of them; a session ends where its inputs end, when the client has disconnected. A character
-- is one byte.
pub mod Sessions
use academia_cr.Prelude.{
  ℕ, zero, suc, ◌-◌, String, Bool, true, false, ◌||◌, Option, none, some, List, [], ◌∷◌, ◌++◌, ◌==◌,
  ltb, ℤ, pos, negsuc, if◌then◌else◌,
}
use academia_cr.FileOps.{
  Files, Opens, Role, admin, student, faculty, Outcome, returns, overflow, strncpy, max_id,
  max_pass, err_full, err_already_enrolled, err_course_not_found, err_invalid_input,
  err_not_enrolled,
}
use academia_cr.FileOps.Accounts.{
  add_user, add_student, add_faculty, activate_deactivate_student, update_student, update_faculty,
  change_password, authenticate,
}
use academia_cr.FileOps.Catalog.{add_course, update_course, remove_course}
use academia_cr.FileOps.Enrolment.{enroll_course}
use academia_cr.FileOps.Unenrolment.{unenroll_course}
use academia_cr.FileOps.Views.{
  snprintf, view_all_courses, view_enrolled_courses, view_all_students, view_all_faculty,
  view_faculty_courses,
}

-- ret == 0 ? yes : no
abbrev pub answer : ℤ → String → String → String
answer (pos zero) good bad = good
answer _ good bad = bad

-- an answer with the files after it
abbrev pub reply : ℤ × Files → String → String → String × Files
reply (ret, f) good bad = (answer ret good bad, f)

-- if (ret == 0) ret = ...
abbrev pub then_also : ℤ × Files → (Files → ℤ × Files) → ℤ × Files
then_also (pos zero, f) next = next f
then_also (ret, f) next = (ret, f)

-- snprintf(temp_response, 1024, "%s", listing ? listing : other)
abbrev pub shown : Option String → String → String
shown none other = snprintf 1023 other
shown (some text) other = snprintf 1023 text

-- ret == code
abbrev pub is_code : ℤ → ℤ → Bool
is_code (pos m) (pos n) = m == n
is_code (negsuc m) (negsuc n) = m == n
is_code _ _ = false

-- the texts for the codes of enroll_course
abbrev pub enroll_answer : ℤ → String
enroll_answer ret =
    if is_code ret (pos 0)
    then "Enrolled successfully\n"
    else if is_code ret err_full
    then "Course is full\n"
    else if is_code ret err_already_enrolled
    then "Already enrolled in this course\n"
    else if is_code ret err_course_not_found
    then "Course not found\n"
    else if is_code ret err_invalid_input
    then "Student is blocked\n"
    else "Failed to enroll\n"

-- the texts for the codes of unenroll_course
abbrev pub drop_answer : ℤ → String
drop_answer ret =
    if is_code ret (pos 0)
    then "Dropped successfully\n"
    else if is_code ret err_not_enrolled
    then "Not enrolled in this course\n"
    else "Failed to drop course\n"

-- What is read in one turn of a menu: the choice, and the fields that the choice reads.
pub record Input : Type 0 where
  pub choice : ℤ
  pub id : String
  pub name : String
  pub password : String
  pub seats : ℤ

-- What a turn comes to: the answer and the files, or the end of the menu.
pub data Turn : Type 0 where
  logout : Turn
  answered : String × Files → Turn

-- the menus and the login screen
abbrev pub admin_menu : String
admin_menu =
    "....... Welcome to Admin Menu .......\n1. Add Student\n2. View Student Details\n3. Add Faculty\n4. View Faculty Details\n5. Activate Student\n6. Block Student\n7. Modify Student Details\n8. Modify Faculty Details\n9. Logout and Exit\nEnter Your Choice: "

abbrev pub student_menu : String
student_menu =
    "....... Welcome to Student Menu .......\n1. View All Courses\n2. Enroll New Course\n3. Drop Course\n4. View Enrolled Course Details\n5. Change Password\n6. Logout and Exit\nEnter Your Choice: "

abbrev pub faculty_menu : String
faculty_menu =
    "....... Welcome to Faculty Menu .......\n1. View Offering Courses\n2. Add New Course\n3. Remove Course from Catalog\n4. Update Course Details\n5. Change Password\n6. Logout and Exit\nEnter Your Choice: "

abbrev pub login_screen : String
login_screen =
    "....................Welcome Back to Academia :: Course Registration....................\nLogin Type\nEnter Your Choice { 1.Admin , 2.Professor, 3. Student } : "

-- a turn that answers by the code of a call
unfoldable pub enrolled_turn : Outcome (ℤ × Files) → (ℤ → String) → Outcome Turn
enrolled_turn overflow text = overflow
enrolled_turn (returns (ret, f)) text = returns (answered (text ret, f))

-- a menu in its loop: the messages that are sent, and the files at the end
unfoldable pub menu_loop :
    (Input → Files → Outcome Turn) → String → List Input → Files → Outcome (List String × Files)
menu_loop turn menu [] f = returns (menu ∷ [], f)
menu_loop turn menu (i ∷ is) f = elim (turn i f) [
  | overflow ↦ overflow
  | returns logout ↦ returns (menu ∷ "Logout successful\n" ∷ [], f)
  | returns (answered (text, g)) ↦ elim (menu_loop turn menu is g) [
    | overflow ↦ overflow
    | returns (sent, h) ↦ returns (menu ∷ text ∷ sent, h)
  ]
]

-- the role of a login choice
abbrev pub expected_role : ℤ → Option Role
expected_role choice =
    if is_code choice (pos 1)
    then some admin
    else if is_code choice (pos 2)
    then some faculty
    else if is_code choice (pos 3)
    then some student
    else none

module _ (memory : ℕ → Bool) (os : Opens) where
  -- the switch of handle_admin
  unfoldable pub admin_turn : Input → Files → Outcome Turn
  admin_turn i f =
      if is_code i.choice (pos 9)
      then returns logout
      else if is_code i.choice (pos 1)
      then returns (
          answered (
            reply (then_also (add_user os i.id i.password student f) (add_student os i.id i.name))
              "Student added successfully\n" "Failed to add student\n"))
      else if is_code i.choice (pos 2)
      then returns (
          answered
            (shown (view_all_students memory os f) "No students found or error occurred\n", f))
      else if is_code i.choice (pos 3)
      then returns (
          answered (
            reply (then_also (add_user os i.id i.password faculty f) (add_faculty os i.id i.name))
              "Faculty added successfully\n" "Failed to add faculty\n"))
      else if is_code i.choice (pos 4)
      then returns (
          answered (shown (view_all_faculty memory os f) "No faculty found or error occurred\n", f))
      else if is_code i.choice (pos 5)
      then returns (
          answered (
            reply (activate_deactivate_student os i.id true f) "Student activated successfully\n"
              "Failed to activate student\n"))
      else if is_code i.choice (pos 6)
      then returns (
          answered (
            reply (activate_deactivate_student os i.id false f) "Student blocked successfully\n"
              "Failed to block student\n"))
      else if is_code i.choice (pos 7)
      then returns (
          answered (
            reply (update_student os i.id i.name f) "Student details updated successfully\n"
              "Failed to update student details\n"))
      else if is_code i.choice (pos 8)
      then returns (
          answered (
            reply (update_faculty os i.id i.name f) "Faculty details updated successfully\n"
              "Failed to update faculty details\n"))
      else returns (answered ("Invalid choice\n", f))

  -- the switch of handle_student
  unfoldable pub student_turn : String → Input → Files → Outcome Turn
  unfolding enrolled_turn
  student_turn student_id i f =
      if is_code i.choice (pos 6)
      then returns logout
      else if is_code i.choice (pos 1)
      then returns (
          answered (shown (view_all_courses memory os f) "No courses found or error occurred\n", f))
      else if is_code i.choice (pos 2)
      then enrolled_turn (enroll_course os student_id i.id f) enroll_answer
      else if is_code i.choice (pos 3)
      then enrolled_turn (unenroll_course os student_id i.id f) drop_answer
      else if is_code i.choice (pos 4)
      then returns (
          answered (
            shown (view_enrolled_courses memory os student_id f)
                "No courses enrolled or error occurred\n",
            f,
          ))
      else if is_code i.choice (pos 5)
      then returns (
          answered (
            reply (change_password os student_id i.password f) "Password changed successfully\n"
              "Failed to change password\n"))
      else returns (answered ("Invalid choice\n", f))

  -- the switch of handle_faculty
  unfoldable pub faculty_turn : String → Input → Files → Outcome Turn
  unfolding enrolled_turn
  faculty_turn faculty_id i f =
      if is_code i.choice (pos 6)
      then returns logout
      else if is_code i.choice (pos 1)
      then returns (
          answered (
            shown (view_faculty_courses memory os faculty_id f)
                "No courses found or error occurred\n",
            f,
          ))
      else if is_code i.choice (pos 2)
      then returns (
          answered (
            reply (add_course os i.id i.name faculty_id i.seats f) "Course added successfully\n"
              "Failed to add course\n"))
      else if is_code i.choice (pos 3)
      then returns (
          answered (
            reply (remove_course os i.id f) "Course removed successfully\n"
              "Failed to remove course\n"))
      else if is_code i.choice (pos 4)
      then enrolled_turn (update_course os i.id i.name i.seats f)
          (λ ret. answer ret "Course updated successfully\n" "Failed to update course\n")
      else if is_code i.choice (pos 5)
      then returns (
          answered (
            reply (change_password os faculty_id i.password f) "Password changed successfully\n"
              "Failed to change password\n"))
      else returns (answered ("Invalid choice\n", f))

  -- the menu of a role
  unfoldable pub serve : Role → String → List Input → Files → Outcome (List String × Files)
  unfolding menu_loop
  serve admin user_id is f = menu_loop admin_turn admin_menu is f
  serve faculty user_id is f = menu_loop (faculty_turn user_id) faculty_menu is f
  serve student user_id is f = menu_loop (student_turn user_id) student_menu is f

  -- client_handler after its three reads, for a login choice of a role
  unfoldable pub log_in :
      Role → String → String → List Input → Files → Outcome (List String × Files)
  unfolding serve
  log_in role user_id password is f = elim (authenticate os user_id password role f) [
    | none ↦ returns ("Server error: Cannot open users file\n" ∷ [], f)
    | some false ↦ returns ("Login failed\n" ∷ [], f)
    | some true ↦ elim (serve role user_id is f) [
      | overflow ↦ overflow
      | returns (sent, g) ↦ returns ("Login successful\n" ∷ sent, g)
    ]
  ]

  -- client_handler, for a client that sends a choice, an id and a password
  unfoldable pub client_handler :
      ℤ → String → String → List Input → Files → Outcome (List String × Files)
  unfolding log_in
  client_handler choice user_id password is f = elim (expected_role choice) [
    | none ↦ returns (login_screen ∷ "Invalid choice\n" ∷ [], f)
    | some role ↦
        elim (log_in role (strncpy user_id (max_id - 1)) (strncpy password (max_pass - 1)) is f) [
          | overflow ↦ overflow
          | returns (sent, g) ↦
              returns (login_screen ∷ "Enter User ID: " ∷ "Enter Password: " ∷ sent, g)
        ]
  ]
