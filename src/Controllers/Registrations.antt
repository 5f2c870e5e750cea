-- ===== src/Controllers/Registrations.antt =====
-- backend/include/controllers/RegistrationController.hpp: registering and dropping.
use academia_cr.Prelude.{ℕ, String, none, some, if◌then◌else◌}
use academia_cr.Models.{User}
use academia_cr.Text.{contains}
use academia_cr.Database.{Connection, Answers}
use academia_cr.AuthService.{authenticate_request}
use academia_cr.RegistrationService.{RegistrationResult, register_student, drop_student}
use academia_cr.Controllers.{
  Response, error_response, success_response, registration, seats, is_student,
}

-- the status of a refusal: the three tests in turn, of which the last that holds decides
unfoldable pub refusal_status : String → ℕ
refusal_status error =
    let full = if contains error "full" then 409 else 400 in
    let already = if contains error "Already" then 409 else full in
    if contains error "not found" then 404 else already

registered : RegistrationResult × Connection → Response × Connection
registered (result, c) =
    if result.success
    then (
      success_response (registration result.registration_id result.remaining_seats)
          "Registration successful" 201,
      c,
    )
    else (error_response result.error (refusal_status result.error), c)

register_as : Answers → ℕ → User → ℕ → Connection → Response × Connection
register_as e now user course_id c =
    if is_student user.role
    then registered (register_student e now user.id course_id c)
    else (error_response "Only students can register for courses" 403, c)

-- POST /api/courses/<int>/register
unfoldable pub post_register : Answers → ℕ → String → ℕ → Connection → Response × Connection
unfolding register_as registered
post_register e now auth_header course_id c = elim (authenticate_request c.tables now auth_header) [
  | none ↦ (error_response "Not authenticated" 401, c)
  | some user ↦ register_as e now user course_id c
]

dropped : RegistrationResult × Connection → Response × Connection
dropped (result, c) =
    if result.success
    then (success_response (seats result.remaining_seats) "Course dropped" 200, c)
    else (error_response result.error 400, c)

drop_as : Answers → User → ℕ → Connection → Response × Connection
drop_as e user course_id c =
    if is_student user.role
    then dropped (drop_student e user.id course_id c)
    else (error_response "Only students can drop courses" 403, c)

-- DELETE /api/courses/<int>/register
unfoldable pub delete_register : Answers → ℕ → String → ℕ → Connection → Response × Connection
unfolding drop_as dropped
delete_register e now auth_header course_id c =
    elim (authenticate_request c.tables now auth_header) [
      | none ↦ (error_response "Not authenticated" 401, c)
      | some user ↦ drop_as e user course_id c
    ]
