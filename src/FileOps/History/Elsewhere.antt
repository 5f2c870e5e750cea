-- ===== src/FileOps/History/Elsewhere.antt =====
-- Calls that leave courses.dat and students.dat as they are.
use academia_cr.Prelude.{
  ℕ, ◌≡◌, ◌≤◌, ap, sym, subst, ◌∙◌, inl, inr, String, arith, select_first, has_value, Option-cases,
  Bool-cases,
}
use academia_cr.FileOps.{Files, Opens, Role, open_file, create_file}
use academia_cr.FileOps.Accounts.{
  is_user_id, is_faculty_id, is_student_id, add_user, add_faculty, update_faculty, change_password,
}
use academia_cr.FileOps.Catalog.{is_course_id}
use academia_cr.FileOps.Agreement.{records_of, listed_in, taken_by, InBounds, Agrees}

-- Files with the same courses and the same students.
pub record Alike (f g : Files) : Type 0 where
  pub courses : g.courses ≡ f.courses
  pub students : g.students ≡ f.students

pub Alike-InBounds : (f g : Files) → Alike f g → InBounds f → InBounds g
Alike-InBounds f g h v = record {
  fits = λ id c k.
      v.fits id c (sym (ap (λ x. select_first (is_course_id id) (records_of x)) h.courses) ∙ k);
  course_ids = λ id c k.
      v.course_ids id c
        (sym (ap (λ x. select_first (is_course_id id) (records_of x)) h.courses) ∙ k);
  student_ids = λ id c k.
      v.student_ids id c
        (sym (ap (λ x. select_first (is_student_id id) (records_of x)) h.students) ∙ k);
}

pub Alike-Agrees : (f g : Files) → Alike f g → Agrees f → Agrees g
Alike-Agrees f g h a = record {
  same_entries = λ s c full.
      ap (λ x. listed_in (records_of x) s c) h.courses
      ∙ a.same_entries s c full
      ∙ sym (ap (λ x. taken_by (records_of x) s c) h.students);
  once = λ s c full.
      subst (λ (n : ℕ). n ≤ 1) (sym (ap (λ x. listed_in (records_of x) s c) h.courses))
        (a.once s c full);
}

module _ (os : Opens) (f : Files) where
  pub add_user-Alike :
      (id password : String) (role : Role) → Alike f (add_user os id password role f).1
  unfolding add_user
  add_user-Alike id password role = elim (Option-cases (create_file os.users_open f.users)) [
    | inl h ↦ record { courses = ground (arith, h); students = ground (arith, h) }
    | inr (xs, h) ↦ record { courses = ground (arith, h); students = ground (arith, h) }
  ]

  pub add_faculty-Alike : (id name : String) → Alike f (add_faculty os id name f).1
  unfolding add_faculty
  add_faculty-Alike id name = elim (Option-cases (create_file os.faculty_open f.faculty)) [
    | inl h ↦ record { courses = ground (arith, h); students = ground (arith, h) }
    | inr (xs, h) ↦ record { courses = ground (arith, h); students = ground (arith, h) }
  ]

  pub update_faculty-Alike : (id name : String) → Alike f (update_faculty os id name f).1
  unfolding update_faculty
  update_faculty-Alike id name = elim (Option-cases (open_file os.faculty_open f.faculty)) [
    | inl h ↦ record { courses = ground (arith, h); students = ground (arith, h) }
    | inr (xs, h) ↦ record {
      courses = ground (arith, h, Bool-cases (has_value (select_first (is_faculty_id id) xs)));
      students = ground (arith, h, Bool-cases (has_value (select_first (is_faculty_id id) xs)));
    }
  ]

  pub change_password-Alike : (id password : String) → Alike f (change_password os id password f).1
  unfolding change_password
  change_password-Alike id password = elim (Option-cases (open_file os.users_open f.users)) [
    | inl h ↦ record { courses = ground (arith, h); students = ground (arith, h) }
    | inr (xs, h) ↦ record {
      courses = ground (arith, h, Bool-cases (has_value (select_first (is_user_id id) xs)));
      students = ground (arith, h, Bool-cases (has_value (select_first (is_user_id id) xs)));
    }
  ]
