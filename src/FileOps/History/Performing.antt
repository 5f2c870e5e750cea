-- ===== src/FileOps/History/Performing.antt =====
-- Each call returns, inside its arrays, and keeps the invariants of the files.
use academia_cr.Prelude.{
  ◌≡◌, refl, ap, inl, inr, String, true, false, ◌&&◌, some, delete_where, arith, ℤ, pos, negsuc,
  select_first, has_value, Option-cases, Bool-cases,
}
use academia_cr.FileOps.{Files, Opens, returns, failed, strncpy, max_name, open_file}
use academia_cr.FileOps.Accounts.{activate_deactivate_student, update_student}
use academia_cr.FileOps.Catalog.{is_course_id, remove_from_catalog, forget_course}
use academia_cr.FileOps.Unenrolment.{unenroll_from_course}
use academia_cr.FileOps.Agreement.{InBounds, Agrees, opened_records}
use academia_cr.FileOps.Agreement.Enrolling.{enroll-cases}
use academia_cr.FileOps.Agreement.Enrolled.{enroll-Enrolled}
use academia_cr.FileOps.Agreement.Leaving.{leave_courses-LeftCourses}
use academia_cr.FileOps.Agreement.LeavingStudent.{leave_student-LeftStudent}
use academia_cr.FileOps.Agreement.Unenrolled.{unenroll-cases, unenroll-Agrees, enroll-Agrees}
use academia_cr.FileOps.Agreement.Cataloguing.{SeatsFit, add_course-InBounds, add_course-Agrees}
use academia_cr.FileOps.Agreement.Admitting.{
  add_student-InBounds, add_student-Agrees, change_student-InBounds, change_student-Agrees,
}
use academia_cr.FileOps.Agreement.Revising.{update_course-cases, update_course-Agrees}
use academia_cr.FileOps.Agreement.Removing.{
  remove_course-InBounds, remove_course-Agrees, forget_course-InBounds, deleted-InBounds,
}
use academia_cr.FileOps.History.Elsewhere.{
  Alike, Alike-InBounds, Alike-Agrees, add_user-Alike, add_faculty-Alike, update_faculty-Alike,
  change_password-Alike,
}
use academia_cr.FileOps.History.{
  Call, adding_user, adding_student, adding_faculty, activating, updating_student, updating_faculty,
  changing_password, adding_course, updating_course, removing_course, enrolling, unenrolling,
  unenrolling_from_course, unenrolling_from_student, removing_from_catalog, removing_from_students,
  perform, Sized, Careful,
}

-- A call that returns, with files that are in bounds again.
pub record Returned (os : Opens) (call : Call) (f : Files) : Type 0 where
  pub code : ℤ
  pub after : Files
  pub result : perform os call f ≡ returns (code, after)
  pub bounded : InBounds after
  pub agrees : Careful os call f → Agrees f → Agrees after

module _ (os : Opens) (f : Files) where
  -- A call that returns at once.
  at_once :
      (call : Call) (r : ℤ × Files)
      → perform os call f ≡ returns r
      → InBounds r.1
      → (Careful os call f → Agrees f → Agrees r.1)
      → Returned os call f
  at_once call (code, g) h v a = record {
    code = code;
    after = g;
    result = h;
    bounded = v;
    agrees = a;
  }

  elsewhere :
      (call : Call) (r : ℤ × Files)
      → perform os call f ≡ returns r
      → Alike f r.1
      → InBounds f
      → Returned os call f
  elsewhere call r h same v =
      at_once call r h (Alike-InBounds f r.1 same v) (λ c a. Alike-Agrees f r.1 same a)

  enrolling-Returned : (s c : String) → InBounds f → Returned os (enrolling s c) f
  unfolding perform
  enrolling-Returned s c v = elim (enroll-cases os s c f v) [
    | inl m ↦
        let e = enroll-Enrolled os s c f v m in
        at_once (enrolling s c) (pos 0, e.after) e.result e.bounded
          (λ k a. enroll-Agrees os s c f a e)
    | inr (n, r) ↦ at_once (enrolling s c) (negsuc n, f) r v (λ k a. a)
  ]

  unenrolling-Returned : (s c : String) → InBounds f → Returned os (unenrolling s c) f
  unfolding perform Careful
  unenrolling-Returned s c v = elim (unenroll-cases os s c f v) [
    | inl (r, h) ↦ at_once (unenrolling s c) (failed, f) r v (λ k a. a)
    | inr u ↦
        at_once (unenrolling s c) (u.code, u.after) u.result u.bounded
          (λ o a. unenroll-Agrees os s c f o a u)
  ]

  updating_course-Returned :
      (id name : String) (seats : ℤ)
      → SeatsFit seats
      → InBounds f
      → Returned os (updating_course id name seats) f
  unfolding perform Careful
  updating_course-Returned id name seats room v =
      elim (update_course-cases os id name seats f room v) [
        | inl r ↦ at_once (updating_course id name seats) (failed, f) r v (λ k a. a)
        | inr (g, r, bounded) ↦
            at_once (updating_course id name seats) (pos 0, g) r bounded
              (λ stay a. update_course-Agrees os id name seats f g room v stay a r)
      ]

  parts_apart : (g : Files) → true ≡ false → Agrees f → Agrees g
  parts_apart g h a = absurd (ground (arith, h))

  unenrolling_from_course-Returned :
      (s c : String) → InBounds f → Returned os (unenrolling_from_course s c) f
  unfolding perform Careful unenroll_from_course
  unenrolling_from_course-Returned s c v =
      elim (Option-cases (open_file os.courses_open f.courses)) [
        | inl h ↦
            at_once (unenrolling_from_course s c) (failed, f) (ground (arith, h)) v (parts_apart f)
        | inr (courses, h) ↦
            let left =
              leave_courses-LeftCourses s c f courses
                (opened_records os.courses_open f.courses courses h) v in
            let g : Files = record f { courses = some left.after } in
            at_once (unenrolling_from_course s c) (pos 0, g) (ground (arith, h, left.left))
              left.bounded (parts_apart g)
      ]

  unenrolling_from_student-Returned :
      (s c : String) → InBounds f → Returned os (unenrolling_from_student s c) f
  unfolding perform Careful
  unenrolling_from_student-Returned s c v =
      let left = leave_student-LeftStudent os s c f v in
      at_once (unenrolling_from_student s c) (left.code, left.after) (ap returns left.left)
        left.bounded (parts_apart left.after)

  removing_from_catalog-Returned :
      (id : String) → InBounds f → Returned os (removing_from_catalog id) f
  unfolding perform Careful remove_from_catalog
  removing_from_catalog-Returned id v = elim (Option-cases (open_file os.courses_open f.courses)) [
    | inl h ↦ at_once (removing_from_catalog id) (failed, f) (ground (arith, h)) v (parts_apart f)
    | inr (courses, h) ↦
        let g : Files = record f { courses = some (delete_where (is_course_id id) courses) } in
        elim (Bool-cases (has_value (select_first (is_course_id id) courses) && os.temp_open)) [
          | inl k ↦
              at_once (removing_from_catalog id) (pos 0, g) (ground (arith, h, k))
                (deleted-InBounds id f courses (opened_records os.courses_open f.courses courses h)
                  v)
                (parts_apart g)
          | inr k ↦
              at_once (removing_from_catalog id) (failed, f) (ground (arith, h, k)) v
                (parts_apart f)
        ]
  ]

  pub perform-Returned : (call : Call) → Sized call → InBounds f → Returned os call f
  unfolding perform Sized Careful activate_deactivate_student update_student
  perform-Returned (adding_user id password role) z v =
      elsewhere (adding_user id password role) _ refl (add_user-Alike os f id password role) v
  perform-Returned (adding_student id name) z v =
      at_once (adding_student id name) _ refl (add_student-InBounds os id name f z v)
        (λ k a. add_student-Agrees os id name f a)
  perform-Returned (adding_faculty id name) z v =
      elsewhere (adding_faculty id name) _ refl (add_faculty-Alike os f id name) v
  perform-Returned (activating id active) z v =
      at_once (activating id active) _ refl
        (change_student-InBounds os id (λ s. record s { active = active }) f (λ x. refl) v)
        (λ k a.
          change_student-Agrees os id (λ s. record s { active = active }) f (λ x. refl) (λ x. refl)
            a)
  perform-Returned (updating_student id name) z v =
      at_once (updating_student id name) _ refl
        (change_student-InBounds os id (λ s. record s { name = strncpy name max_name }) f
          (λ x. refl) v)
        (λ k a.
          change_student-Agrees os id (λ s. record s { name = strncpy name max_name }) f (λ x. refl)
            (λ x. refl) a)
  perform-Returned (updating_faculty id name) z v =
      elsewhere (updating_faculty id name) _ refl (update_faculty-Alike os f id name) v
  perform-Returned (changing_password id password) z v =
      elsewhere (changing_password id password) _ refl (change_password-Alike os f id password) v
  perform-Returned (adding_course id name faculty_id seats) z v =
      at_once (adding_course id name faculty_id seats) _ refl
        (add_course-InBounds os id name faculty_id seats f z.0 z.1 v)
        (λ k a. add_course-Agrees os id name faculty_id seats f a)
  perform-Returned (updating_course id name seats) z v = updating_course-Returned id name seats z v
  perform-Returned (removing_course id) z v =
      at_once (removing_course id) _ refl (remove_course-InBounds os id f v)
        (λ k a. remove_course-Agrees os id f k a)
  perform-Returned (enrolling s c) z v = enrolling-Returned s c v
  perform-Returned (unenrolling s c) z v = unenrolling-Returned s c v
  perform-Returned (unenrolling_from_course s c) z v = unenrolling_from_course-Returned s c v
  perform-Returned (unenrolling_from_student s c) z v = unenrolling_from_student-Returned s c v
  perform-Returned (removing_from_catalog id) z v = removing_from_catalog-Returned id v
  perform-Returned (removing_from_students id) z v =
      at_once (removing_from_students id) _ refl (forget_course-InBounds os id f v)
        (parts_apart (forget_course os id f))
