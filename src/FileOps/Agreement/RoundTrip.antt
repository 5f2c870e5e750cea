-- ===== src/FileOps/Agreement/RoundTrip.antt =====
-- Enrolling and unenrolling, in both files at once.
use academia_cr.Prelude.{◌+◌, ◌≤◌, ◌≡◌, subst, ◌⊎◌, inl, inr, String, true, false, arith, pos}
use academia_cr.Text.{is_empty}
use academia_cr.FileOps.{Files, Opens, returns}
use academia_cr.FileOps.Enrolment.{enroll_course}
use academia_cr.FileOps.Unenrolment.{unenroll_course}
use academia_cr.FileOps.Records.{str_eq_refl}
use academia_cr.FileOps.Agreement.{records_of, listed_in, taken_by, no_course_file, InBounds}
use academia_cr.FileOps.Agreement.Enrolling.{Refused, enroll-cases}
use academia_cr.FileOps.Agreement.Enrolled.{pair, Enrolled, enroll-Enrolled}
use academia_cr.FileOps.Agreement.Unenrolled.{unenroll-cases}

-- enroll_course on files in bounds either returns a negative code and leaves the files as they are, or
-- returns 0 and adds the student to the course in courses.dat and the course to the student in
-- students.dat, neither of which listed the pair before, and changes no other pair with a course that
-- has an id, no user and no faculty member; the files stay in bounds.
pub enroll_all_or_nothing :
    (os : Opens) (s c : String) (f : Files) → InBounds f → Refused os s c f ⊎ Enrolled os s c f
enroll_all_or_nothing os s c f v = elim (enroll-cases os s c f v) [
  | inl m ↦ inr (enroll-Enrolled os s c f v m)
  | inr r ↦ inl r
]

-- What a successful unenrolment leaves.
pub record TakenOff (os : Opens) (s c : String) (f : Files) : Type 0 where
  pub after : Files
  pub result : unenroll_course os s c f ≡ returns (pos 0, after)
  pub bounded : InBounds after
  pub listed :
      (s' c' : String)
      → listed_in (records_of after.courses) s' c' + pair s c s' c'
        ≡ listed_in (records_of f.courses) s' c'
  pub taken :
      (s' c' : String)
      → is_empty c' ≡ false
      → taken_by (records_of after.students) s' c' + pair s c s' c'
        ≡ taken_by (records_of f.students) s' c'

-- unenroll_course returns 0 and takes the pair out of both files, and changes no other pair, on files
-- in bounds that list the pair in both, where the two files can be opened.
pub unenroll_both :
    (os : Opens) (s c : String) (f : Files)
    → InBounds f
    → os.courses_open ≡ true
    → os.students_open ≡ true
    → 1 ≤ listed_in (records_of f.courses) s c
    → 1 ≤ taken_by (records_of f.students) s c
    → TakenOff os s c f
unenroll_both os s c f v oc o l t = elim (unenroll-cases os s c f v) [
  | inl (r, h) ↦ absurd (omega (arith, l, no_course_file f.courses s c (ground (arith, oc, h))))
  | inr u ↦ record {
    after = u.after;
    result = ground (arith, u.result, u.success o t);
    bounded = u.bounded;
    listed = λ s' c'. ground (arith, u.listed s' c', l);
    taken = λ s' c' full. ground (arith, u.taken o s' c' full, t);
  }
]

-- On files in bounds, unenroll_course after an enroll_course that went through returns 0, and then both files list every
-- student in every course that has an id as they did before, if both files can be opened.
pub unenroll_after_enroll :
    (os os' : Opens) (s c : String) (f g : Files)
    → InBounds f
    → is_empty c ≡ false
    → os'.courses_open ≡ true
    → os'.students_open ≡ true
    → enroll_course os s c f ≡ returns (pos 0, g)
    → (s' c' : String) → is_empty c' ≡ false
    → (h : Files) × (unenroll_course os' s c g ≡ returns (pos 0, h))
      × (listed_in (records_of h.courses) s' c' ≡ listed_in (records_of f.courses) s' c')
      × (taken_by (records_of h.students) s' c' ≡ taken_by (records_of f.students) s' c')
unenroll_after_enroll os os' s c f g v full oc o r s' c' k =
    elim (enroll_all_or_nothing os s c f v) [
      | inl (n, refused) ↦ absurd (ground (arith, refused, r))
      | inr e ↦
          let same : e.after ≡ g = ground (arith, e.result, r) in
          let own : pair s c s c ≡ 1 = ground (arith, str_eq_refl s, str_eq_refl c) in
          let u =
            unenroll_both os' s c e.after e.bounded oc o (omega (arith, e.listed s c, own))
              (omega (arith, e.taken s c full, own)) in
          (
            u.after,
            subst (λ (x : Files). unenroll_course os' s c x ≡ returns (pos 0, u.after)) same
                u.result,
            omega (arith, u.listed s' c', e.listed s' c'),
            omega (arith, u.taken s' c' k, e.taken s' c' k),
          )
    ]
