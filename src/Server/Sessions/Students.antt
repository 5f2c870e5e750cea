-- ===== src/Server/Sessions/Students.antt =====
-- What the menu of a student can change.
use academia_cr.Prelude.{
  ℕ, ◌≡◌, refl, ap, ◌∙◌, inl, inr, String, Bool, false, Option, List, ℤ, pos, negsuc, str_eq, arith,
  Bool-cases,
}
use academia_cr.Text.{is_empty}
use academia_cr.FileOps.{Files, Opens, Course, Student, failed}
use academia_cr.FileOps.Accounts.{change_password}
use academia_cr.FileOps.Enrolment.{enroll_course}
use academia_cr.FileOps.Unenrolment.{unenroll_course}
use academia_cr.FileOps.Agreement.{records_of, listed_in, taken_by, InBounds}
use academia_cr.FileOps.Agreement.RoundTrip.{enroll_all_or_nothing}
use academia_cr.FileOps.Agreement.Unenrolled.{unenroll-cases}
use academia_cr.FileOps.Agreement.Enrolled.{pair}
use academia_cr.FileOps.History.Elsewhere.{Alike-InBounds, change_password-Alike}
use academia_cr.Server.{
  Input, student_turn, student_menu, menu_loop, is_code, enrolled_turn, enroll_answer, drop_answer,
}
use academia_cr.Server.Sessions.{
  SizedInput, AllSized, Kept, ended, kept, Served, if-Kept, reply-Kept, enrolled_turn-Kept,
  menu_loop-Served,
}

-- Files in bounds that list all students but one as before.
pub record OthersKept (id : String) (f g : Files) : Type 0 where
  pub bounded : InBounds g
  pub listed :
      (s c : String)
      → str_eq id s ≡ false
      → listed_in (records_of g.courses) s c ≡ listed_in (records_of f.courses) s c
  pub taken :
      (s c : String)
      → str_eq id s ≡ false
      → is_empty c ≡ false
      → taken_by (records_of g.students) s c ≡ taken_by (records_of f.students) s c

module _ (id : String) (f : Files) where
  other_pair : (s c c' : String) → str_eq id s ≡ false → pair id c s c' ≡ 0
  other_pair s c c' h = ground (arith, h, Bool-cases (str_eq c c'))

  enrolling-OthersKept :
      (os : Opens) (c : String) (text : ℤ → String) (g : Files)
      → OthersKept id f g
      → Kept (OthersKept id f) (enrolled_turn (enroll_course os id c g) text)
  enrolling-OthersKept os c text g v = elim (enroll_all_or_nothing os id c g v.bounded) [
    | inl (n, r) ↦ enrolled_turn-Kept _ text (negsuc n) g r v
    | inr e ↦ enrolled_turn-Kept _ text (pos 0) e.after e.result (record {
      bounded = e.bounded;
      listed = λ s c' h. ground (arith, e.listed s c', other_pair s c c' h, v.listed s c' h);
      taken = λ s c' h full.
          ground (arith, e.taken s c' full, other_pair s c c' h, v.taken s c' h full);
    })
  ]

  unenrolling-OthersKept :
      (os : Opens) (c : String) (text : ℤ → String) (g : Files)
      → OthersKept id f g
      → Kept (OthersKept id f) (enrolled_turn (unenroll_course os id c g) text)
  unenrolling-OthersKept os c text g v = elim (unenroll-cases os id c g v.bounded) [
    | inl (r, closed) ↦ enrolled_turn-Kept _ text failed g r v
    | inr u ↦ enrolled_turn-Kept _ text u.code u.after u.result (record {
      bounded = u.bounded;
      listed = λ s c' h. ground (arith, u.listed s c', other_pair s c c' h, v.listed s c' h);
      taken = λ s c' h full. u.others s c' h ∙ v.taken s c' h full;
    })
  ]

  password-OthersKept :
      (os : Opens) (password : String) (g : Files)
      → OthersKept id f g
      → OthersKept id f (change_password os id password g).1
  password-OthersKept os password g v =
      let same = change_password-Alike os g id password in
      record {
        bounded = Alike-InBounds g (change_password os id password g).1 same v.bounded;
        listed = λ s c h.
            ap (λ (x : Option (List Course)). listed_in (records_of x) s c) same.courses
            ∙ v.listed s c h;
        taken = λ s c h full.
            ap (λ (x : Option (List Student)). taken_by (records_of x) s c) same.students
            ∙ v.taken s c h full;
      }

  module _ (memory : ℕ → Bool) (os : Opens) where
    student_turn-OthersKept :
        (i : Input) (g : Files)
        → SizedInput i
        → OthersKept id f g
        → Kept (OthersKept id f) (student_turn memory os id i g)
    unfolding student_turn
    student_turn-OthersKept i g z v = if-Kept (is_code i.choice (pos 6)) ended (
        if-Kept (is_code i.choice (pos 1)) (kept _ _ v) (
          if-Kept (is_code i.choice (pos 2)) (enrolling-OthersKept os i.id enroll_answer g v) (
            if-Kept (is_code i.choice (pos 3)) (unenrolling-OthersKept os i.id drop_answer g v) (
              if-Kept (is_code i.choice (pos 4)) (kept _ _ v) (
                if-Kept (is_code i.choice (pos 5))
                  (reply-Kept (change_password os id i.password g) "Password changed successfully\n"
                    "Failed to change password\n" (password-OthersKept os i.password g v))
                  (kept "Invalid choice\n" _ v))))))

    -- On files in bounds, a session of a student comes to its end, for any inputs with ids of at most
    -- 9 characters and seats from 0 to 100, keeps the files in bounds, and lists every other student
    -- in the same courses as before, in both files.
    pub students_menu :
        (is : List Input)
        → AllSized is
        → InBounds f
        → Served (OthersKept id f) (menu_loop (student_turn memory os id) student_menu is f)
    students_menu is z v =
        menu_loop-Served (student_turn memory os id) student_menu student_turn-OthersKept is f z
          (record { bounded = v; listed = λ s c h. refl; taken = λ s c h full. refl })
