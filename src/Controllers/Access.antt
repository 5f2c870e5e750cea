-- ===== src/Controllers/Access.antt =====
-- Who can change the tables through the routes.
use academia_cr.Prelude.{
  ℕ, ◌≡◌, ◌≢◌, ◌⊎◌, inl, inr, String, Option, some, arith, Option-cases, Bool-cases, ◌==◌,
}
use academia_cr.Models.{User, Course, admin, student}
use academia_cr.Database.{Connection, Answers}
use academia_cr.AuthService.{authenticate_request}
use academia_cr.Controllers.{is_student}
use academia_cr.Controllers.Registrations.{post_register, delete_register}
use academia_cr.Controllers.Courses.{post_course, put_course}
use academia_cr.Controllers.Admin.{NewUser, admin_of, post_user, UserChanges, put_user, delete_user}
use academia_cr.CourseService.{is_admin}
use academia_cr.RegistrationService.{register_student, drop_student}

-- The registration routes change nothing, or do for a student with a valid token what the service
-- does with that student's own id.
pub register_routes_own :
    (e : Answers) (now c : ℕ) (auth_header : String) (d : Connection)
    → (((post_register e now auth_header c d).1 ≡ d)
        × ((delete_register e now auth_header c d).1 ≡ d))
      ⊎ ((u : User) × (authenticate_request d.tables now auth_header ≡ some u)
          × (u.role ≡ student)
          × ((post_register e now auth_header c d).1 ≡ (register_student e now u.id c d).1)
          × ((delete_register e now auth_header c d).1 ≡ (drop_student e u.id c d).1))
unfolding post_register delete_register
register_routes_own e now c auth_header d =
    elim (Option-cases (authenticate_request d.tables now auth_header)) [
      | inl h ↦ inl (ground arith, ground arith)
      | inr (u, h) ↦ elim (Bool-cases (is_student u.role)) [
        | inl own ↦ inr (u, h, ground arith, ground arith, ground arith)
        | inr other ↦ inl (ground arith, ground arith)
      ]
    ]

-- Only an admin's valid token lets the account routes change anything, and no admin deletes the
-- account that they use: a deletion by its own admin leaves everything as it was.
pub admin_routes :
    (e : Answers) (now id : ℕ) (auth_header : String) (body : Option NewUser)
    (changes : Option UserChanges) (d : Connection)
    → (((post_user e now auth_header body d).1 ≡ d)
        × ((put_user e now auth_header id changes d).1 ≡ d)
        × ((delete_user e now auth_header id d).1 ≡ d))
      ⊎ ((u : User) × (authenticate_request d.tables now auth_header ≡ some u)
          × (u.role ≡ admin)
          × ((u.id ≢ id) ⊎ ((delete_user e now auth_header id d).1 ≡ d)))
unfolding post_user put_user delete_user admin_of
admin_routes e now id auth_header body changes d =
    elim (Option-cases (authenticate_request d.tables now auth_header)) [
      | inl h ↦ inl (ground arith, ground arith, ground arith)
      | inr (u, h) ↦ elim (Bool-cases (is_admin u.role)) [
        | inl own ↦ inr (
          u,
          h,
          ground arith,
          elim (Bool-cases (u.id == id)) [
            | inl same ↦ inr (ground arith)
            | inr other ↦ inl (λ (k : u.id ≡ id). absurd (ground (arith, other, k)))
          ],
        )
        | inr other ↦ inl (ground arith, ground arith, ground arith)
      ]
    ]

-- POST and PUT on courses change nothing, or have a valid token of somebody who is no student.
pub course_routes :
    (e : Answers) (now id : ℕ) (auth_header : String) (body : Option Course) (d : Connection)
    → (((post_course e now auth_header body d).1 ≡ d)
        × ((put_course e now auth_header id body d).1 ≡ d))
      ⊎ ((u : User) × (authenticate_request d.tables now auth_header ≡ some u) × (u.role ≢ student))
unfolding post_course put_course
course_routes e now id auth_header body d =
    elim (Option-cases (authenticate_request d.tables now auth_header)) [
      | inl h ↦ inl (ground arith, ground arith)
      | inr (u, h) ↦ elim (Bool-cases (is_student u.role)) [
        | inl own ↦ inl (ground arith, ground arith)
        | inr other ↦ inr (u, h, λ (k : u.role ≡ student). absurd (ground (arith, other, k)))
      ]
    ]
