-- ===== src/Tests/Auth.antt =====
-- The theorems on accounts and sessions at the demo database.
use academia_cr.Prelude.{
  ℕ, ◌+◌, ◌≡◌, refl, String, str_append, true, false, none, some, [], ◌∷◌, arith, ltb,
  if◌then◌else◌, str_eq, select_first, count_where, ap,
}
use academia_cr.Models.{User}
use academia_cr.Database.{Connection}
use academia_cr.UserRepository.{find_by_id, find_by_username, validate_session}
use academia_cr.AuthService.{
  hash_password, login, validate_token, authenticate_request, LoginResult,
}
use academia_cr.AuthService.Sessions.{UniqueUsers, login_success}
use academia_cr.AuthService.Header.{accepted_header}
use academia_cr.Text.{is_empty, drop_prefix}
use academia_cr.Tests.{all_done, alice, bob, demo, demo_tables}

-- The hash that the demo accounts of Database::seed_data have.
abbrev carol : User
carol = record alice {
  username = "carol";
  password_hash = "791aa6d4a76a5dcc35e93e72f7db8d766e03434c966def4e9aa09bdc9be6130a";
}

abbrev with_carol : Connection
with_carol = record demo { tables = record demo_tables { users = carol ∷ bob ∷ [] } }

hash_of_admin123 :
    hash_password "admin123" ≡ "791aa6d4a76a5dcc35e93e72f7db8d766e03434c966def4e9aa09bdc9be6130a"
unfolding hash_password
hash_of_admin123 = refl

logs_in :
    (login all_done 100 "t0k3n" "carol" "admin123" with_carol).0
    ≡ record { success = true; token = "t0k3n"; user = carol; error = "" }
unfolding login find_by_username hash_password select_first
logs_in = refl

with_carol-UniqueUsers : UniqueUsers with_carol.tables
unfolding count_where
with_carol-UniqueUsers id = ground arith

-- The token is good one second before the end of the 24 hours.
login_success_example :
    (u : User) × (find_by_username with_carol.tables "carol" ≡ some u)
    × (u.active ≡ true)
    × (hash_password "admin123" ≡ u.password_hash)
    × ((t : ℕ) (other : String)
        → validate_token (login all_done 100 "t0k3n" "carol" "admin123" with_carol).1.tables t other
          ≡ (if str_eq "t0k3n" other
              then (if ltb t (100 + 86400) then some u else none)
              else validate_token with_carol.tables t other))
login_success_example =
    login_success all_done 100 "t0k3n" "carol" "admin123" with_carol with_carol-UniqueUsers refl
      (ap (λ (r : LoginResult). r.success) logs_in)

-- Carol's session, as the table holds it.
abbrev logged_in : Connection
logged_in = record with_carol {
  tables = record with_carol.tables {
    sessions =
        (record { token = "t0k3n"; user_id = 1; created_at = 100; expires_at = some 86500 }) ∷ [];
  };
}

valid : validate_token logged_in.tables 200 "t0k3n" ≡ some carol
unfolding validate_token validate_session find_by_id select_first
valid = refl

expired : validate_token logged_in.tables 86500 "t0k3n" ≡ none
unfolding validate_token validate_session find_by_id select_first
expired = refl

authenticates : authenticate_request logged_in.tables 200 "Bearer t0k3n" ≡ some carol
unfolding authenticate_request drop_prefix validate_token validate_session find_by_id select_first
authenticates = refl

accepted_header_example :
    (token : String) × ("Bearer t0k3n" ≡ str_append "Bearer " token)
    × (is_empty token ≡ false)
    × (validate_token logged_in.tables 200 token ≡ some carol)
accepted_header_example = accepted_header logged_in.tables 200 "Bearer t0k3n" carol authenticates
