-- ===== src/Controllers/Auth.antt =====
-- backend/include/controllers/AuthController.hpp: login, logout and the account of a token.
use academia_cr.Prelude.{ℕ, String, ◌||◌, Option, none, some, if◌then◌else◌}
use academia_cr.Text.{is_empty}
use academia_cr.Database.{Connection, Answers}
use academia_cr.AuthService
use academia_cr.AuthService.{LoginResult, authenticate_request}
use academia_cr.Controllers.{
  Response, error_response, success_response, token_of, one_user, no_data,
}

-- The body of a login: the user name and the password, "" where there is none.
pub record Credentials : Type 0 where
  pub username : String
  pub password : String

logged_in : LoginResult × Connection → Response × Connection
logged_in (result, c) =
    if result.success
    then (success_response (token_of result.token result.user) "Login successful" 200, c)
    else (error_response result.error 401, c)

-- POST /api/auth/login, where `token` is what generate_token draws
unfoldable pub post_login :
    Answers → ℕ → String → Option Credentials → Connection → Response × Connection
unfolding logged_in
post_login e now token none c = (error_response "Invalid JSON body" 400, c)
post_login e now token (some body) c =
    if is_empty body.username || is_empty body.password
    then (error_response "Username and password are required" 400, c)
    else logged_in (AuthService.login e now token body.username body.password c)

-- auth.substr(7), if auth has more than seven characters
unfoldable pub after_seven : String → Option String
after_seven
      (String.◌∷◌ _ (
        String.◌∷◌ _ (
          String.◌∷◌ _
            (String.◌∷◌ _ (String.◌∷◌ _ (String.◌∷◌ _ (String.◌∷◌ _ (String.◌∷◌ c s)))))))) =
    some (String.◌∷◌ c s)
after_seven _ = none

-- POST /api/auth/logout
unfoldable pub post_logout : Answers → String → Connection → Response × Connection
post_logout e auth c = elim (after_seven auth) [
  | none ↦ (success_response no_data "Logged out" 200, c)
  | some token ↦ (success_response no_data "Logged out" 200, AuthService.logout e token c)
]

-- GET /api/auth/me
unfoldable pub get_me : ℕ → String → Connection → Response
get_me now auth_header c = elim (authenticate_request c.tables now auth_header) [
  | none ↦ error_response "Not authenticated" 401
  | some user ↦ success_response (one_user (some user)) "Success" 200
]
