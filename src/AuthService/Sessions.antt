-- ===== src/AuthService/Sessions.antt =====
-- Sessions: what login, logout and validate_token promise together.
use mathlib.Core.Bool.{false≢true}
use academia_cr.Prelude.{
  ℕ, ◌+◌, ◌≤◌, ◌≡◌, ◌≢◌, sym, ◌∙◌, inl, inr, String, str_eq, eq_iff, eq_refl, Bool, true, false,
  ◌&&◌, none, some, List, [], ◌∷◌, arith, ltb, if◌then◌else◌, has_value, Bool-cases, Option-cases,
  select_first, count_where, delete_where,
}
use academia_cr.Prelude.Counting.{
  select_first-append, select_first-delete_where, select_first-delete_where-all, count_where-pos,
}
use academia_cr.Models.{User, Session}
use academia_cr.Database.{Tables, Connection, Answers}
use academia_cr.UserRepository.{
  find_by_id, find_by_username, user_has_id, has_token, is_current, create_session,
  validate_session, delete_session,
}
use academia_cr.AuthService.{hash_password, login, login_as, logout, validate_token}

-- UNIQUE keys of the table users.
abbrev pub UniqueUsers : Tables → Type 0
UniqueUsers t = (id : ℕ) → count_where (user_has_id id) t.users ≤ 1

-- The only row with its id is found by it.
found_by_id :
    (p : User → Bool) (users : List User) (u : User)
    → select_first p users ≡ some u
    → count_where (user_has_id u.id) users ≤ 1
    → select_first (user_has_id u.id) users ≡ some u
unfolding select_first count_where
found_by_id p [] u h k = ground arith
found_by_id p (x ∷ xs) u h k = elim (Bool-cases (p x)) [
  | inl own ↦ ground arith
  | inr other ↦ ground (arith, found_by_id p xs u, count_where-pos p (user_has_id u.id) xs u)
]

-- The test of validate_session.
abbrev is_valid : ℕ → String → Session → Bool
is_valid now token s = has_token token s && is_current now s

not_eq : (s t : String) → str_eq s t ≡ false → s ≢ t
not_eq s t h e = false≢true (sym h ∙ (eq_iff s t).1 e)

-- The sessions of other tokens are not touched by a deletion of one.
other_token :
    (token other : String) (now : ℕ)
    → token ≢ other
    → (s : Session) → is_valid now other s ≡ true
    → has_token token s ≡ false
other_token token other now differ s h = ground (arith, eq_iff s.token token, eq_iff s.token other)

own_token :
    (token : String) (now : ℕ) (s : Session)
    → is_valid now token s ≡ true
    → has_token token s ≡ true
own_token token now s h = ground arith

module _ (e : Answers) (now : ℕ) (token : String) (user_id : ℕ) (c : Connection) where
  abbrev opened : Connection
  opened = create_session e now token user_id c

  module _ (stored : e.insert_done ≡ true)
      (known : has_value (select_first (user_has_id user_id) c.tables.users) ≡ true) where
    -- The new session is the only one of its token, and lasts 24 hours.
    pub opened-validate_session :
        (t : ℕ)
        → validate_session opened.tables t token
          ≡ (if ltb t (now + 86400) then some user_id else none)
    unfolding create_session validate_session select_first
    opened-validate_session t = ground (
      arith,
      eq_refl token,
      select_first-append (is_valid t token) (delete_where (has_token token) c.tables.sessions) (
          (record {
            token = token;
            user_id = user_id;
            created_at = now;
            expires_at = some (now + 86400);
          })
          ∷ []),
      select_first-delete_where-all (has_token token) (is_valid t token) c.tables.sessions
          (own_token token t),
    )

  pub opened-validate_other :
      (t : ℕ) (other : String)
      → token ≢ other
      → validate_session opened.tables t other ≡ validate_session c.tables t other
  unfolding create_session validate_session select_first
  opened-validate_other t other differ = ground (
    arith,
    eq_iff token other,
    select_first-append (is_valid t other) (delete_where (has_token token) c.tables.sessions) (
        (record {
          token = token;
          user_id = user_id;
          created_at = now;
          expires_at = some (now + 86400);
        })
        ∷ []),
    select_first-delete_where (has_token token) (is_valid t other) c.tables.sessions
        (other_token token other t differ),
  )

-- The user whom find_by_username gives is the one of their id.
by_id :
    (t : Tables) (username : String) (u : User)
    → UniqueUsers t
    → find_by_username t username ≡ some u
    → find_by_id t u.id ≡ some u
unfolding find_by_username find_by_id
by_id t username u unique h =
    found_by_id (λ (x : User). str_eq x.username username) t.users u h (unique u.id)

create_session-users :
    (e : Answers) (now : ℕ) (token : String) (user_id : ℕ) (c : Connection)
    → (create_session e now token user_id c).tables.users ≡ c.tables.users
unfolding create_session
create_session-users e now token user_id c = ground arith

module _ (e : Answers) (now : ℕ) (token : String) (u : User) (c : Connection) where
  opened-validate_token :
      e.insert_done ≡ true
      → find_by_id c.tables u.id ≡ some u
      → (t : ℕ)
      → validate_token (create_session e now token u.id c).tables t token
        ≡ (if ltb t (now + 86400) then some u else none)
  unfolding validate_token find_by_id
  opened-validate_token stored known t = ground (
    arith,
    opened-validate_session e now token u.id c stored (ground arith) t,
    create_session-users e now token u.id c,
  )

  opened-validate_other_token :
      (t : ℕ) (other : String)
      → token ≢ other
      → validate_token (create_session e now token u.id c).tables t other
        ≡ validate_token c.tables t other
  unfolding validate_token find_by_id
  opened-validate_other_token t other differ = ground (
    arith,
    opened-validate_other e now token u.id c t other differ,
    create_session-users e now token u.id c,
  )

  opened-validate_any :
      e.insert_done ≡ true
      → find_by_id c.tables u.id ≡ some u
      → (t : ℕ) (other : String)
      → validate_token (create_session e now token u.id c).tables t other ≡ (
          if str_eq token other
          then (if ltb t (now + 86400) then some u else none)
          else validate_token c.tables t other)
  opened-validate_any stored known t other = elim (Bool-cases (str_eq token other)) [
    | inl own ↦
        let same : token ≡ other = (eq_iff token other).0 own in
        ground (arith, opened-validate_token stored known t)
    | inr differ ↦ ground (arith, opened-validate_other_token t other (not_eq token other differ))
  ]

  -- A login that succeeds has passed the three checks and stored a session.
  login_as_success :
      (password : String)
      → (login_as e now token password u c).0.success ≡ true
      → (u.active ≡ true)
        × (hash_password password ≡ u.password_hash)
        × ((login_as e now token password u c).1 ≡ create_session e now token u.id c)
  unfolding login_as
  login_as_success password h =
      (ground arith, ground (arith, eq_iff (hash_password password) u.password_hash), ground arith)

-- A login that succeeds, where names and ids of users are unique and SQLite has stored the session, was
-- for an active account whose stored hash is that of the password; its token is that user's for
-- exactly 24 hours, and every other token is whose it was.
pub login_success :
    (e : Answers) (now : ℕ) (token username password : String) (c : Connection)
    → UniqueUsers c.tables
    → e.insert_done ≡ true
    → (login e now token username password c).0.success ≡ true
    → (u : User) × (find_by_username c.tables username ≡ some u)
      × (u.active ≡ true)
      × (hash_password password ≡ u.password_hash)
      × ((t : ℕ) (other : String)
          → validate_token (login e now token username password c).1.tables t other ≡ (
              if str_eq token other
              then (if ltb t (now + 86400) then some u else none)
              else validate_token c.tables t other))
unfolding login
login_success e now token username password c unique stored h =
    elim (Option-cases (find_by_username c.tables username)) [
      | inl k ↦ absurd (ground arith)
      | inr (u, k) ↦
          let ran = login_as_success e now token u c password (ground arith) in
          let found = by_id c.tables username u unique k in
          (
            u,
            k,
            ran.0,
            ran.1,
            λ t other. ground (arith, opened-validate_any e now token u c stored found t other),
          )
    ]

-- After a logout that SQLite carries out its token is nobody's, at any time, and every other token is
-- whose it was.
pub logout_ends :
    (e : Answers) (token other : String) (c : Connection) (t : ℕ)
    → e.delete_done ≡ true
    → validate_token (logout e token c).tables t other
      ≡ (if str_eq token other then none else validate_token c.tables t other)
unfolding logout delete_session validate_token validate_session find_by_id
logout_ends e token other c t done = elim (Bool-cases (str_eq token other)) [
  | inl own ↦
      let gone =
        select_first-delete_where-all (has_token token) (is_valid t other) c.tables.sessions
          (λ s k. ground (arith, eq_iff s.token token, eq_iff s.token other, eq_iff token other)) in
      ground (arith, gone)
  | inr differ ↦ ground (
    arith,
    select_first-delete_where (has_token token) (is_valid t other) c.tables.sessions
        (other_token token other t (not_eq token other differ)),
  )
]
