-- ===== src/AuthService/Header.antt =====
-- The Authorization header, and what a validated token does not check.
use Prim.Native.Char.{Char, code}
use Prim.Native.String.append
use text.Mathlib.TextEquality.{Char-path}
use academia_cr.Prelude.{
  ℕ, ◌≡◌, ◌∙◌, sym, ap, ap₂, refl, inl, inr, String, str_append, true, false, none, some, arith,
  ◌==◌, if◌then◌else◌, eq_of_==, ==_refl, Bool-cases, Option-cases,
}
use academia_cr.Prelude.Counting.{select_first-update_where, select_first-some}
use academia_cr.Models.{User}
use academia_cr.Database.{Tables, Connection, Answers}
use academia_cr.UserRepository.{find_by_id, validate_session, update, user_has_id}
use academia_cr.Text.{is_empty, drop_prefix}
use academia_cr.AuthService.{validate_token, authenticate_request}

cons_path : {c d : Char} {s t : String} → c ≡ d → s ≡ t → String.◌∷◌ c s ≡ String.◌∷◌ d t
cons_path h k = ap₂ (λ (x : Char) (y : String). String.◌∷◌ x y) h k

-- A text has a prefix exactly when it is that prefix followed by the rest.
drop_prefix-append : (p s : String) → drop_prefix p (str_append p s) ≡ some s
unfolding drop_prefix
drop_prefix-append String.[] s = ap some (append.nil s)
drop_prefix-append (String.◌∷◌ c p) s =
    rw (append.cons c p s) (ground (arith, drop_prefix-append p s, ==_refl (code c)))

drop_prefix-some : (p s rest : String) → drop_prefix p s ≡ some rest → s ≡ str_append p rest
unfolding drop_prefix
drop_prefix-some String.[] s rest h = ground (arith, append.nil rest)
drop_prefix-some (String.◌∷◌ c p) String.[] rest h = absurd (ground arith)
drop_prefix-some (String.◌∷◌ c p) (String.◌∷◌ d s) rest h = elim (Bool-cases (code c == code d)) [
  | inl same ↦
      let tail = drop_prefix-some p s rest (ground arith) in
      cons_path (sym (Char-path c d (eq_of_== (code c) (code d) same))) tail
      ∙ sym (append.cons c p rest)
  | inr differ ↦ absurd (ground arith)
]

-- A header that authenticate_request accepts is "Bearer " and a token that is not empty and of which
-- the user is at that time.
pub accepted_header :
    (t : Tables) (now : ℕ) (auth_header : String) (u : User)
    → authenticate_request t now auth_header ≡ some u
    → (token : String) × (auth_header ≡ str_append "Bearer " token)
      × (is_empty token ≡ false)
      × (validate_token t now token ≡ some u)
unfolding authenticate_request
accepted_header t now auth_header u h = elim (Option-cases (drop_prefix "Bearer " auth_header)) [
  | inl k ↦ absurd (ground arith)
  | inr (token, k) ↦
      (token, drop_prefix-some "Bearer " auth_header token k, ground arith, ground arith)
]

no_prefix : (p s : String) → is_empty p ≡ false → is_empty s ≡ true → drop_prefix p s ≡ none
unfolding drop_prefix
no_prefix String.[] s h k = absurd (ground arith)
no_prefix (String.◌∷◌ c p) String.[] h k = refl
no_prefix (String.◌∷◌ c p) (String.◌∷◌ d s) h k = absurd (ground arith)

-- "Bearer " and a token authenticate the user, if any, of whom the token is at that time; an empty
-- token authenticates nobody.
pub bearer_header :
    (t : Tables) (now : ℕ) (token : String)
    → authenticate_request t now (str_append "Bearer " token)
      ≡ (if is_empty token then none else validate_token t now token)
unfolding authenticate_request
bearer_header t now token =
    ground
      (arith, drop_prefix-append "Bearer " token, no_prefix "Bearer " (str_append "Bearer " token))

own_id : (t : Tables) (id : ℕ) (u : User) → find_by_id t id ≡ some u → u.id ≡ id
unfolding find_by_id
own_id t id u h = eq_of_== u.id id (select_first-some (user_has_id id) t.users u h).0

-- The row of a user after UserRepository::update with that user.
updated_user :
    (e : Answers) (id : ℕ) (u v : User) (c : Connection)
    → e.update_done ≡ true
    → v.id ≡ id
    → find_by_id c.tables id ≡ some u
    → find_by_id (update e v c).1.tables id
      ≡ some (record u { name = v.name; email = v.email; active = v.active })
unfolding find_by_id update
updated_user e id u v c carried own h =
    rw (carried, own)
      (select_first-update_where (user_has_id id)
        (λ (x : User). record x { name = v.name; email = v.email; active = v.active })
        c.tables.users u (λ x. refl) h)

same_sessions :
    (e : Answers) (now : ℕ) (token : String) (v : User) (c : Connection)
    → validate_session (update e v c).1.tables now token ≡ validate_session c.tables now token
unfolding validate_session update
same_sessions e now token v c = ground arith

-- Deactivating an account leaves its sessions valid: a token that was a user's is still accepted,
-- for the user with the account deactivated.
pub deactivated_token :
    (e : Answers) (now : ℕ) (token : String) (u : User) (c : Connection)
    → e.update_done ≡ true
    → validate_token c.tables now token ≡ some u
    → validate_token (update e (record u { active = false }) c).1.tables now token
      ≡ some (record u { active = false })
unfolding validate_token
deactivated_token e now token u c carried h =
    elim (Option-cases (validate_session c.tables now token)) [
      | inl k ↦ absurd (ground arith)
      | inr (id, k) ↦
          let found : find_by_id c.tables id ≡ some u = ground arith in
          ground (
            arith,
            same_sessions e now token (record u { active = false }) c,
            updated_user e id u (record u { active = false }) c carried (own_id c.tables id u found)
                found,
          )
    ]
