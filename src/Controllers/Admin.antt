-- ===== src/Controllers/Admin.antt =====
-- backend/include/controllers/AdminController.hpp: creating, updating and deleting accounts.
use academia_cr.Prelude.{Bool, ℕ, String, Option, none, some, if◌then◌else◌, ◌==◌, has_value}
use academia_cr.Models.{User}
use academia_cr.Text.{is_empty}
use academia_cr.Database.{Connection, Answers, Result, ok, throw}
use academia_cr.UserRepository
use academia_cr.UserRepository.{find_by_id, find_by_username}
use academia_cr.CourseService.{is_admin}
use academia_cr.AuthService.{authenticate_request, hash_password}
use academia_cr.Controllers.{Response, error_response, success_response, one_user, no_data}

-- the test at the head of every route
unfoldable pub admin_of : Connection → ℕ → String → Option User
admin_of c now auth_header = elim (authenticate_request c.tables now auth_header) [
  | none ↦ none
  | some user ↦ if is_admin user.role then some user else none
]

-- The body of a creation: the User of from_json, and the password, "" if there is none.
pub record NewUser : Type 0 where
  pub user : User
  pub password : String

created : Result ℕ × Connection → Result Response × Connection
created (ok id, c) =
    (ok (success_response (one_user (find_by_id c.tables id)) "User created" 201), c)
created (throw message, c) = (throw message, c)

unfoldable pub create_checked : Answers → ℕ → NewUser → Connection → Result Response × Connection
unfolding created
create_checked e now new c =
    if is_empty new.user.username
    then (ok (error_response "Username is required" 400), c)
    else if is_empty new.user.name
    then (ok (error_response "Name is required" 400), c)
    else if is_empty new.password
    then (ok (error_response "Password is required" 400), c)
    else if has_value (find_by_username c.tables new.user.username)
    then (ok (error_response "Username already exists" 409), c)
    else created (
        UserRepository.create e now (record new.user { password_hash = hash_password new.password })
          c)

-- POST /api/admin/users; it throws what create throws
unfoldable pub post_user :
    Answers → ℕ → String → Option NewUser → Connection → Result Response × Connection
unfolding create_checked
post_user e now auth_header body c = elim (admin_of c now auth_header) [
  | none ↦ (ok (error_response "Admin access required" 403), c)
  | some admin ↦ elim body [
    | none ↦ (ok (error_response "Invalid JSON body" 400), c)
    | some new ↦ create_checked e now new c
  ]
]

-- DELETE /api/admin/users/<int>
unfoldable pub delete_user : Answers → ℕ → String → ℕ → Connection → Response × Connection
delete_user e now auth_header id c = elim (admin_of c now auth_header) [
  | none ↦ (error_response "Admin access required" 403, c)
  | some user ↦
      if user.id == id
      then (error_response "Cannot delete your own account" 400, c)
      else (success_response no_data "User deleted" 200, (UserRepository.remove e id c).1)
]

-- A value of a JSON object: not there, of another type, which makes get throw, or there.
pub data Field (A : Type 0) : Type 0 where
  absent wrong : Field A
  value : A → Field A

-- The body of an update.
pub record UserChanges : Type 0 where
  pub name : Field String
  pub email : Field String
  pub active : Field Bool
  pub password : Field String

-- `none` where get throws
module _ {A : Type 0} where
  abbrev pub field_or : A → Field A → Option A
  field_or old absent = some old
  field_or old wrong = none
  field_or old (value new) = some new

-- `existing` with the changes, or `none` where one of the three gets throws
unfoldable pub changed : User → UserChanges → Option User
changed existing body = elim (field_or existing.name body.name) [
  | none ↦ none
  | some name ↦ elim (field_or existing.email body.email) [
    | none ↦ none
    | some email ↦ elim (field_or existing.active body.active) [
      | none ↦ none
      | some active ↦ some (record existing { name = name; email = email; active = active })
    ]
  ]
]

-- from the password on, after the update
unfoldable pub change_password : Answers → ℕ → Field String → Connection → Response × Connection
change_password e id wrong c = (error_response "Invalid JSON body" 400, c)
change_password e id absent c =
    (success_response (one_user (find_by_id c.tables id)) "User updated" 200, c)
change_password e id (value password) c =
    let d =
      (if is_empty password
        then c
        else (UserRepository.update_password e id (hash_password password) c).1) in
    (success_response (one_user (find_by_id d.tables id)) "User updated" 200, d)

-- PUT /api/admin/users/<int>
unfoldable pub put_user :
    Answers → ℕ → String → ℕ → Option UserChanges → Connection → Response × Connection
unfolding changed change_password
put_user e now auth_header id body c = elim (admin_of c now auth_header) [
  | none ↦ (error_response "Admin access required" 403, c)
  | some admin ↦ elim body [
    | none ↦ (error_response "Invalid JSON body" 400, c)
    | some changes ↦ elim (find_by_id c.tables id) [
      | none ↦ (error_response "User not found" 404, c)
      | some existing ↦ elim (changed existing changes) [
        | none ↦ (error_response "Invalid JSON body" 400, c)
        | some user ↦ change_password e id changes.password (UserRepository.update e user c).1
      ]
    ]
  ]
]
