-- ===== src/Controllers/Status.antt =====
-- What POST /api/courses/<int>/register answers, and what its status means.
use academia_cr.Prelude.{ℕ, ◌≡◌, refl, String, true, false, none, some, arith}
use academia_cr.Models.{User, student}
use academia_cr.Text.{contains}
use academia_cr.Database.{Connection, Answers}
use academia_cr.Integrity.{RegistrationsSound}
use academia_cr.AuthService.{authenticate_request}
use academia_cr.RegistrationService.Verdict.{
  Verdict, no_course, already_enrolled, course_full, no_account, accepted, verdict, is_accepted,
  verdict_message, IsWorking, register_student-verdict,
}
use academia_cr.Controllers.Registrations.{refusal_status, post_register}

-- The status that a client is to see for a verdict.
abbrev pub verdict_status : Verdict → ℕ
verdict_status no_course = 404
verdict_status already_enrolled = 409
verdict_status course_full = 409
verdict_status no_account = 400
verdict_status accepted = 201

message_status :
    (w : Verdict) → is_accepted w ≡ false → refusal_status (verdict_message w) ≡ verdict_status w
unfolding refusal_status contains
message_status no_course h = refl
message_status already_enrolled h = refl
message_status course_full h = refl
message_status no_account h = refl
message_status accepted h = absurd (ground arith)

accepted_status : (w : Verdict) → is_accepted w ≡ true → verdict_status w ≡ 201
accepted_status accepted h = refl
accepted_status no_course h = absurd (ground arith)
accepted_status already_enrolled h = absurd (ground arith)
accepted_status course_full h = absurd (ground arith)
accepted_status no_account h = absurd (ground arith)

-- For a student's valid token and with SQLite doing what it is asked, POST /api/courses/<int>/register
-- answers with the status that the verdict on the tables deserves: 201 for a registration, 404 for
-- a course that is not there, 409 for one that is full or that the student has.
pub post_register-status :
    (e : Answers) (now c : ℕ) (auth_header : String) (u : User) (d : Connection)
    → IsWorking e
    → d.backup ≡ none
    → RegistrationsSound d.tables
    → authenticate_request d.tables now auth_header ≡ some u
    → u.role ≡ student
    → (post_register e now auth_header c d).0.status ≡ verdict_status (verdict d.tables u.id c)
unfolding post_register
post_register-status e now c auth_header u d w idle v known role =
    let judged = register_student-verdict e now u.id c d w idle v in
    let answer = verdict d.tables u.id c in
    ground (arith, judged, known, role, message_status answer, accepted_status answer)
