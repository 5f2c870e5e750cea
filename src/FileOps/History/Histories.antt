-- ===== src/FileOps/History/Histories.antt =====
-- What holds of the files after any sequence of calls.
use academia_cr.Prelude.{◌≡◌, ◌≤◌, refl, subst, String, false, arith, ℤ, select_first}
use academia_cr.Text.{is_empty}
use academia_cr.FileOps.{Files, Opens, returns}
use academia_cr.FileOps.Agreement.{records_of, listed_in, taken_by, InBounds, Agrees}
use academia_cr.FileOps.History.{
  Call, perform, Sized, Careful, no_files, Reached, start, next, Anyhow,
}
use academia_cr.FileOps.History.Performing.{Returned, perform-Returned}

no_files-InBounds : InBounds no_files
unfolding select_first
no_files-InBounds = record {
  fits = λ id c k. absurd (ground (arith, k));
  course_ids = λ id c k. absurd (ground (arith, k));
  student_ids = λ id c k. absurd (ground (arith, k));
}

no_files-Agrees : Agrees no_files
unfolding listed_in taken_by select_first
no_files-Agrees = record { same_entries = λ s c k. refl; once = λ s c k. ground arith }

same_result :
    (os : Opens) (call : Call) (f g : Files) (code : ℤ) (r : Returned os call f)
    → perform os call f ≡ returns (code, g)
    → r.after ≡ g
same_result os call f g code r h = ground (arith, h, r.result)

pub Reached-InBounds :
    (Allowed : Opens → Call → Files → Type 0) (f : Files) → Reached Allowed f → InBounds f
Reached-InBounds Allowed f start = no_files-InBounds
Reached-InBounds Allowed _ (next os call f code g rest z k h) =
    let r = perform-Returned os f call z (Reached-InBounds Allowed f rest) in
    subst InBounds (same_result os call f g code r h) r.bounded

-- Every call on files that any calls have left returns, within all arrays, whatever files can be
-- opened and also where unenroll_course or remove_course was or is at work between its two parts, if
-- ids have at most 9 characters and seats lie between 0 and 100; every course has then at most as many
-- students as seats, and at most 100 seats.
pub calls_return :
    (f : Files) (os : Opens) (call : Call)
    → Reached Anyhow f
    → Sized call
    → (code : ℤ) × (g : Files) × (perform os call f ≡ returns (code, g)) × InBounds g
calls_return f os call h z =
    let r = perform-Returned os f call z (Reached-InBounds Anyhow f h) in
    (r.code, r.after, r.result, r.bounded)

pub Reached-Agrees : (f : Files) → Reached Careful f → Agrees f
Reached-Agrees f start = no_files-Agrees
Reached-Agrees _ (next os call f code g rest z k h) =
    let r = perform-Returned os f call z (Reached-InBounds Careful f rest) in
    subst Agrees (same_result os call f g code r h) (r.agrees k (Reached-Agrees f rest))

-- After calls, each in one piece, with ids of at most 9 characters and seats from 0 to 100, in which no
-- course loses seats that are taken, and in which students.dat can be opened where a course is left or
-- removed, courses.dat lists a student in a course as often as students.dat lists the course with the
-- student, and at most once, if the course has an id.
pub files_agree :
    (f : Files) (s c : String)
    → Reached Careful f
    → is_empty c ≡ false
    → (listed_in (records_of f.courses) s c ≡ taken_by (records_of f.students) s c)
      × (listed_in (records_of f.courses) s c ≤ 1)
files_agree f s c h full = let a = Reached-Agrees f h in (a.same_entries s c full, a.once s c full)
