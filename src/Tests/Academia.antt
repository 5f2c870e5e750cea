-- ===== src/Tests/Academia.antt =====
-- The theorems on the older server at concrete files.
use Prim.Native.Char.{Char}
use academia_cr.Prelude.{
  ◌≤◌, ◌++◌, take, drop, ◌≡◌, refl, ◌⊎◌, String, true, ◌||◌, ◌&&◌, Option, none, some, List, [],
  ◌∷◌, arith, ℤ, ◌+ℤ◌, pos, str_eq, if◌then◌else◌, select, select_first, count_where,
}
use academia_cr.FileOps.{
  Files, Opens, Course, student, Outcome, returns, overflow, strncpy, update_first,
}
use academia_cr.FileOps.Accounts.{
  repeat_empty, add_user, add_student, change_password, same_role, authenticate,
}
use academia_cr.FileOps.Accounts.Logins.{known, logins_after_add_user, logins_after_change_password}
use academia_cr.FileOps.Catalog.{add_course, update_course, is_course_id, new_course}
use academia_cr.FileOps.Enrolment.{
  enroll_course, enroll_found, write_both, add_to_course, refusal, store, is_listed, find_slot,
  next_slot, first_slot, set_slot,
}
use academia_cr.FileOps.Unenrolment.{unenroll_course}
use academia_cr.FileOps.Views.{Buffer, append, append_all, append_none, listing}
use academia_cr.FileOps.Views.Buffers.{listing-Fits, listed_text, Fits}
use academia_cr.FileOps.Agreement.{records_of, listed_in, taken_by, InBounds, Agrees}
use academia_cr.FileOps.Agreement.Enrolling.{Refused}
use academia_cr.FileOps.Agreement.Enrolled.{Enrolled}
use academia_cr.FileOps.Agreement.RoundTrip.{
  TakenOff, enroll_all_or_nothing, unenroll_both, unenroll_after_enroll,
}
use academia_cr.FileOps.Agreement.Broken.{shrinking-disagrees}
use academia_cr.FileOps.Agreement.Cataloguing.{SeatsFit}
use academia_cr.FileOps.History.{
  adding_student, adding_course, enrolling, perform, Sized, Careful, no_files, Reached, start, next,
}
use academia_cr.FileOps.History.Histories.{
  calls_return, files_agree, Reached-InBounds, Reached-Agrees,
}
use academia_cr.Client.Messages.{
  send_with_length, read_with_length, delivered, read-send_with_length,
}
use academia_cr.Server.{Input, client_handler, student_turn, student_menu, menu_loop}
use academia_cr.Server.Sessions.{AllSized, Served}
use academia_cr.Server.Sessions.Students.{OthersKept, students_menu}
use academia_cr.Server.Sessions.Clients.{Account, client_handler-Served, only_after_login}

abbrev all_open : Opens
all_open = record {
  users_open = true;
  students_open = true;
  faculty_open = true;
  courses_open = true;
  temp_open = true;
}

-- The files of a call that returned.
abbrev files_of : Outcome (ℤ × Files) → Files
files_of (returns (code, f)) = f
files_of overflow = no_files

-- A student, a course of two seats, and the student in the course.
abbrev one_student : Files
one_student = (add_student all_open "s1" "Ann" no_files).1

abbrev one_course : Files
one_course = (add_course all_open "c1" "Logic" "f1" (pos 2) one_student).1

abbrev one_enrolled : Files
one_enrolled = files_of (enroll_course all_open "s1" "c1" one_course)

seats_fit : SeatsFit (pos 2)
seats_fit = record { some_or_none = ground arith; at_most = ground arith }

course-Reached : Reached Careful one_course
unfolding perform Sized Careful add_student add_course strncpy repeat_empty select_first
course-Reached =
    next all_open (adding_course "c1" "Logic" "f1" (pos 2)) one_student (pos 0) one_course
      (next all_open (adding_student "s1" "Ann") no_files (pos 0) one_student start refl refl refl)
      (refl, seats_fit) refl refl

enrolled-Reached : Reached Careful one_enrolled
unfolding perform Sized Careful add_student add_course strncpy repeat_empty select_first
    enroll_course enroll_found write_both add_to_course refusal store is_listed find_slot next_slot
    first_slot set_slot update_first
enrolled-Reached =
    next all_open (enrolling "s1" "c1") one_course (pos 0) one_enrolled course-Reached refl refl
      refl

-- Both files list the student in the course.
files_agree_example :
    (listed_in (records_of one_enrolled.courses) "s1" "c1"
      ≡ taken_by (records_of one_enrolled.students) "s1" "c1")
    × (listed_in (records_of one_enrolled.courses) "s1" "c1" ≤ 1)
files_agree_example = files_agree one_enrolled "s1" "c1" enrolled-Reached refl

-- A second course can be added to the first student.
calls_return_example :
    (code : ℤ) × (g : Files) × (perform all_open (adding_student "s2" "Bob") one_student
      ≡ returns (code, g))
    × InBounds g
unfolding perform Sized add_student strncpy repeat_empty
calls_return_example =
    calls_return one_student all_open (adding_student "s2" "Bob")
      (next all_open (adding_student "s1" "Ann") no_files (pos 0) one_student start refl refl refl)
      refl

course_bounded : InBounds one_course
course_bounded = Reached-InBounds Careful one_course course-Reached

enrolled_bounded : InBounds one_enrolled
enrolled_bounded = Reached-InBounds Careful one_enrolled enrolled-Reached

enroll_all_or_nothing_example :
    Refused all_open "s1" "c1" one_course ⊎ Enrolled all_open "s1" "c1" one_course
enroll_all_or_nothing_example = enroll_all_or_nothing all_open "s1" "c1" one_course course_bounded

unenroll_both_example : TakenOff all_open "s1" "c1" one_enrolled
unfolding listed_in taken_by count_where add_student add_course strncpy repeat_empty select_first
    enroll_course enroll_found write_both add_to_course refusal store is_listed find_slot next_slot
    first_slot set_slot update_first ◌+ℤ◌
unenroll_both_example =
    unenroll_both all_open "s1" "c1" one_enrolled enrolled_bounded refl refl (omega arith)
      (omega arith)

unenroll_after_enroll_example :
    (h : Files) × (unenroll_course all_open "s1" "c1" one_enrolled ≡ returns (pos 0, h))
    × (listed_in (records_of h.courses) "s1" "c1"
        ≡ listed_in (records_of one_course.courses) "s1" "c1")
    × (taken_by (records_of h.students) "s1" "c1"
        ≡ taken_by (records_of one_course.students) "s1" "c1")
unfolding add_student add_course strncpy repeat_empty select_first enroll_course enroll_found
    write_both add_to_course refusal store is_listed find_slot next_slot first_slot set_slot
    update_first
unenroll_after_enroll_example =
    unenroll_after_enroll all_open all_open "s1" "c1" one_course one_enrolled course_bounded refl
      refl refl refl "s1" "c1" refl

abbrev course_of : Option Course → Course
course_of none = new_course "" "" "" (pos 0)
course_of (some c) = c

-- The course loses both seats while it has a student.
shrinking-disagrees_example :
    (g : Files) × (update_course all_open "c1" "Logic" (pos 0) one_enrolled ≡ returns (pos 0, g))
    × (¬ Agrees g)
unfolding add_student add_course strncpy repeat_empty select_first enroll_course enroll_found
    write_both add_to_course refusal store is_listed find_slot next_slot first_slot set_slot
    update_first ◌+ℤ◌
shrinking-disagrees_example =
    shrinking-disagrees all_open "c1" "Logic" 0 one_enrolled (records_of one_enrolled.courses)
      (course_of (select_first (is_course_id "c1") (records_of one_enrolled.courses))) refl
      enrolled_bounded (Reached-Agrees one_enrolled enrolled-Reached) refl refl refl

abbrev one_user : Files
one_user = (add_user all_open "s1" "pass1" student no_files).1

logins_after_add_user_example :
    authenticate all_open "s1" "pass1" student one_user
    ≡ some (
        known "s1" "pass1" student []
        || (str_eq "s1" "s1" && (str_eq "pass1" "pass1" && same_role student student)))
unfolding add_user strncpy
logins_after_add_user_example =
    logins_after_add_user all_open all_open "s1" "pass1" student no_files one_user refl refl refl
      refl "s1" "pass1" student

logins_after_change_password_example :
    authenticate all_open "s1" "new" student (change_password all_open "s1" "new" one_user).1
    ≡ some (
        if str_eq "s1" "s1"
        then str_eq "new" "new" && same_role student student
        else known "s1" "new" student (records_of one_user.users))
unfolding add_user strncpy change_password select select_first update_first
logins_after_change_password_example =
    logins_after_change_password all_open all_open "s1" "new" one_user
      (change_password all_open "s1" "new" one_user).1
      (record { id = "s1"; role = student; password = "pass1" }) refl refl refl refl "s1" "new"
      student

abbrev short_listing : Buffer
short_listing = record { text = "All Students:\n1. Ann\n"; size = 2048 }

listing-Fits_example :
    (short_listing.text
      ≡ listed_text "All Students:\n" ("1. Ann\n" ∷ []) "No students available.\n")
    × Fits short_listing
unfolding listing append append_all append_none
listing-Fits_example =
    listing-Fits (λ n. true) "All Students:\n" ("1. Ann\n" ∷ []) "No students available.\n"
      short_listing (omega arith) refl

-- the character behind c
abbrev one : Char
one = "1"

-- The student enrolls, and logs out.
abbrev enroll_input : Input
enroll_input = record { choice = pos 2; id = "c1"; name = ""; password = ""; seats = pos 2 }

abbrev inputs : List Input
inputs = enroll_input ∷ record enroll_input { choice = pos 6 } ∷ []

inputs-AllSized : AllSized inputs
unfolding AllSized strncpy
inputs-AllSized =
    (record { id = refl; seats = seats_fit }, (record { id = refl; seats = seats_fit }, refl))

students_menu_example :
    Served
      (OthersKept "s1" one_course)
      (menu_loop (student_turn (λ n. true) all_open "s1") student_menu inputs one_course)
students_menu_example =
    students_menu "s1" one_course (λ n. true) all_open inputs inputs-AllSized course_bounded

abbrev with_user : Files
with_user = record one_course { users = one_user.users }

client_handler-Served_example :
    Served InBounds (client_handler (λ n. true) all_open (pos 3) "s1" "pass1" inputs one_course)
client_handler-Served_example =
    client_handler-Served (λ n. true) all_open (pos 3) "s1" "pass1" inputs one_course
      inputs-AllSized course_bounded

only_after_login_example :
    Account (pos 3) "s1" "pass1" with_user
    ⊎ ((sent : List String) × (client_handler
            (λ n. true)
            all_open
            (pos 3)
            "s1"
            "pass1"
            inputs
            with_user
          ≡ returns (sent, with_user)))
only_after_login_example =
    only_after_login (λ n. true) all_open (pos 3) "s1" "pass1" inputs with_user

-- Two bytes of three arrive at once.
read-send_with_length_example :
    read_with_length [] 2048
      (record { incoming = send_with_length (7 ∷ 8 ∷ 9 ∷ []) ++ []; cuts = 3 ∷ 1 ∷ [] })
    ≡ (
      some (take (delivered 1 3) (7 ∷ 8 ∷ 9 ∷ [])),
      record { incoming = drop (delivered 1 3) ((7 ∷ 8 ∷ 9 ∷ []) ++ []); cuts = [] },
    )
read-send_with_length_example =
    read-send_with_length [] (7 ∷ 8 ∷ 9 ∷ []) [] 2048 1 [] (omega arith) (omega arith) (omega arith)
