-- ===== src/Server/Sessions/Menus.antt =====
-- Every turn of a menu of server/server.c returns and leaves the files in bounds.
use academia_cr.Prelude.{ℕ, ◌≡◌, refl, String, Bool, true, false, List, ℤ, pos, subst, arith}
use academia_cr.FileOps.{Files, Opens, returns, Role, admin, student, faculty}
use academia_cr.FileOps.Accounts.{
  add_user, add_student, add_faculty, activate_deactivate_student, update_student, update_faculty,
  change_password,
}
use academia_cr.FileOps.Catalog.{add_course, remove_course}
use academia_cr.FileOps.Agreement.{InBounds}
use academia_cr.FileOps.History.{
  Call, adding_user, adding_student, adding_faculty, activating, updating_student, updating_faculty,
  changing_password, adding_course, updating_course, removing_course, enrolling, unenrolling,
  perform, Sized,
}
use academia_cr.FileOps.History.Performing.{perform-Returned}
use academia_cr.FileOps.Views.{view_all_students, view_all_faculty}
use academia_cr.Server.{
  Input, answer, then_also, shown, admin_turn, student_turn, faculty_turn, serve, is_code,
}
use academia_cr.Server.Sessions.{
  SizedInput, AllSized, Kept, ended, kept, Served, if-Kept, reply-Kept, then_also-kept,
  enrolled_turn-Kept, menu_loop-Served,
}

-- A call that returns a pair leaves files in bounds.
returned :
    (os : Opens) (call : Call) (f : Files) (r : ℤ × Files)
    → Sized call
    → InBounds f
    → perform os call f ≡ returns r
    → InBounds r.1
returned os call f (code, g) z v h =
    let out = perform-Returned os f call z v in
    subst InBounds (ground (arith, out.result, h)) out.bounded

module _ (memory : ℕ → Bool) (os : Opens) where
  pub admin_turn-Kept :
      (i : Input) (f : Files) → SizedInput i → InBounds f → Kept InBounds (admin_turn memory os i f)
  unfolding admin_turn perform Sized
  admin_turn-Kept i f z v = if-Kept (is_code i.choice (pos 9)) ended (
      if-Kept (is_code i.choice (pos 1))
        (reply-Kept (then_also (add_user os i.id i.password student f) (add_student os i.id i.name))
          "Student added successfully\n" "Failed to add student\n"
          (then_also-kept (add_user os i.id i.password student f) (add_student os i.id i.name)
            (returned os (adding_user i.id i.password student) f _ refl v refl)
            (λ g q. returned os (adding_student i.id i.name) g _ z.id q refl)))
        (if-Kept (is_code i.choice (pos 2))
          (kept (shown (view_all_students memory os f) "No students found or error occurred\n") _ v)
          (if-Kept (is_code i.choice (pos 3))
            (reply-Kept
              (then_also (add_user os i.id i.password faculty f) (add_faculty os i.id i.name))
              "Faculty added successfully\n" "Failed to add faculty\n"
              (then_also-kept (add_user os i.id i.password faculty f) (add_faculty os i.id i.name)
                (returned os (adding_user i.id i.password faculty) f _ refl v refl)
                (λ g q. returned os (adding_faculty i.id i.name) g _ refl q refl)))
            (if-Kept (is_code i.choice (pos 4))
              (kept (shown (view_all_faculty memory os f) "No faculty found or error occurred\n") _
                v)
              (if-Kept (is_code i.choice (pos 5))
                (reply-Kept (activate_deactivate_student os i.id true f)
                  "Student activated successfully\n" "Failed to activate student\n"
                  (returned os (activating i.id true) f _ refl v refl))
                (if-Kept (is_code i.choice (pos 6))
                  (reply-Kept (activate_deactivate_student os i.id false f)
                    "Student blocked successfully\n" "Failed to block student\n"
                    (returned os (activating i.id false) f _ refl v refl))
                  (if-Kept (is_code i.choice (pos 7))
                    (reply-Kept (update_student os i.id i.name f)
                      "Student details updated successfully\n" "Failed to update student details\n"
                      (returned os (updating_student i.id i.name) f _ refl v refl))
                    (if-Kept (is_code i.choice (pos 8))
                      (reply-Kept (update_faculty os i.id i.name f)
                        "Faculty details updated successfully\n"
                        "Failed to update faculty details\n"
                        (returned os (updating_faculty i.id i.name) f _ refl v refl))
                      (kept "Invalid choice\n" _ v)))))))))

  pub faculty_turn-Kept :
      (faculty_id : String) (i : Input) (f : Files)
      → SizedInput i
      → InBounds f
      → Kept InBounds (faculty_turn memory os faculty_id i f)
  unfolding faculty_turn perform Sized
  faculty_turn-Kept faculty_id i f z v =
      let changed = perform-Returned os f (updating_course i.id i.name i.seats) z.seats v in
      if-Kept (is_code i.choice (pos 6)) ended (
        if-Kept (is_code i.choice (pos 1)) (kept _ _ v) (
          if-Kept (is_code i.choice (pos 2))
            (reply-Kept (add_course os i.id i.name faculty_id i.seats f)
              "Course added successfully\n" "Failed to add course\n"
              (returned os (adding_course i.id i.name faculty_id i.seats) f _ (z.id, z.seats) v
                refl))
            (if-Kept (is_code i.choice (pos 3))
              (reply-Kept (remove_course os i.id f) "Course removed successfully\n"
                "Failed to remove course\n" (returned os (removing_course i.id) f _ refl v refl))
              (if-Kept (is_code i.choice (pos 4))
                (enrolled_turn-Kept _
                  (λ x. answer x "Course updated successfully\n" "Failed to update course\n")
                  changed.code changed.after changed.result changed.bounded)
                (if-Kept (is_code i.choice (pos 5))
                  (reply-Kept (change_password os faculty_id i.password f)
                    "Password changed successfully\n" "Failed to change password\n"
                    (returned os (changing_password faculty_id i.password) f _ refl v refl))
                  (kept "Invalid choice\n" _ v))))))

  pub student_turn-Kept :
      (student_id : String) (i : Input) (f : Files)
      → InBounds f
      → Kept InBounds (student_turn memory os student_id i f)
  unfolding student_turn perform Sized
  student_turn-Kept student_id i f v =
      let joined = perform-Returned os f (enrolling student_id i.id) refl v in
      let left = perform-Returned os f (unenrolling student_id i.id) refl v in
      if-Kept (is_code i.choice (pos 6)) ended (
        if-Kept (is_code i.choice (pos 1)) (kept _ _ v) (
          if-Kept (is_code i.choice (pos 2))
            (enrolled_turn-Kept _ _ joined.code joined.after joined.result joined.bounded)
            (if-Kept (is_code i.choice (pos 3))
              (enrolled_turn-Kept _ _ left.code left.after left.result left.bounded)
              (if-Kept (is_code i.choice (pos 4)) (kept _ _ v) (
                if-Kept (is_code i.choice (pos 5))
                  (reply-Kept (change_password os student_id i.password f)
                    "Password changed successfully\n" "Failed to change password\n"
                    (returned os (changing_password student_id i.password) f _ refl v refl))
                  (kept "Invalid choice\n" _ v))))))

  pub serve-Served :
      (role : Role) (user_id : String) (is : List Input) (f : Files)
      → AllSized is
      → InBounds f
      → Served InBounds (serve memory os role user_id is f)
  unfolding serve
  serve-Served admin user_id is f z v = menu_loop-Served _ _ admin_turn-Kept is f z v
  serve-Served faculty user_id is f z v = menu_loop-Served _ _ (faculty_turn-Kept user_id) is f z v
  serve-Served student user_id is f z v =
      menu_loop-Served _ _ (λ i g k. student_turn-Kept user_id i g) is f z v
