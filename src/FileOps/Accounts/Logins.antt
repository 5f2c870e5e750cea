-- ===== src/FileOps/Accounts/Logins.antt =====
-- Which logins users.dat allows after add_user and change_password.
use academia_cr.Prelude.{
  ◌≡◌, refl, sym, ap, ◌∙◌, String, Bool, true, false, ◌&&◌, ◌||◌, some, List, [], ◌∷◌, ◌++◌, pos,
  arith, str_eq, eq_iff, has_value, select, select_first, Option-cases, Bool-cases, inl, inr,
  if◌then◌else◌,
}
use academia_cr.FileOps.{
  Files, Opens, User, Role, strncpy, open_file, create_file, update_first, max_pass,
}
use academia_cr.FileOps.Accounts.{
  new_user, add_user, is_user_id, change_password, same_role, has_credentials, authenticate,
}
use academia_cr.FileOps.Agreement.{records_of, opened_records}
use academia_cr.FileOps.Agreement.Cataloguing.{created_records}
use academia_cr.FileOps.Records.{strncpy-suc}

-- Whether a list has the credentials.
abbrev pub known : String → String → Role → List User → Bool
known id password role users = has_value (select_first (has_credentials id password role) users)

known-append :
    (id password : String) (role : Role) (users : List User) (u : User)
    → known id password role (users ++ u ∷ [])
      ≡ (known id password role users || has_credentials id password role u)
unfolding select_first
known-append id password role [] u = ground arith
known-append id password role (x ∷ users) u = ground (arith, known-append id password role users u)

cut_password :
    (password : String) → strncpy password 49 ≡ password → strncpy password max_pass ≡ password
cut_password password h = strncpy-suc password 49 h

-- After an add_user that returned 0, with an id of at most 9 and a password of at most 49 characters,
-- a login goes through if and only if users.dat had its credentials before or they are those of the
-- new user, where users.dat can be opened.
pub logins_after_add_user :
    (os os' : Opens) (id password : String) (role : Role) (f g : Files)
    → strncpy id 9 ≡ id
    → strncpy password 49 ≡ password
    → os'.users_open ≡ true
    → add_user os id password role f ≡ (pos 0, g)
    → (id' password' : String) (role' : Role)
    → authenticate os' id' password' role' g
      ≡ some (
          known id' password' role' (records_of f.users)
          || (str_eq id id' && (str_eq password password' && same_role role role')))
unfolding add_user authenticate
logins_after_add_user os os' id password role f g short fits o r id' password' role' =
    elim (Option-cases (create_file os.users_open f.users)) [
      | inl k ↦ absurd (ground (arith, k, r))
      | inr (users, k) ↦
          let now : g.users ≡ some (users ++ new_user id password role ∷ []) =
            ground (arith, k, r) in
          ground (
            arith,
            o,
            now,
            known-append id' password' role' users (new_user id password role),
            created_records os.users_open f.users users k,
            strncpy-suc id 9 short,
            cut_password password fits,
          )
    ]

-- Nobody logs in with an id that no record has.
nobody :
    (id password : String) (role : Role) (users : List User)
    → select (is_user_id id) users ≡ []
    → known id password role users ≡ false
unfolding select select_first
nobody id password role [] h = refl
nobody id password role (v ∷ users) h =
    ground (arith, h, nobody id password role users, Bool-cases (str_eq v.id id))

-- the only record with an id, changed
sole-update :
    (id new id' password : String) (role : Role) (users : List User) (u : User)
    → select (is_user_id id) users ≡ u ∷ []
    → known id' password role
        (update_first (is_user_id id) (λ v. record v { password = new }) users)
      ≡ (if str_eq id id'
          then str_eq new password && same_role u.role role
          else known id' password role users)
unfolding select select_first update_first
sole-update id new id' password role [] u h = absurd (ground (arith, h))
sole-update id new id' password role (v ∷ users) u h = elim (Bool-cases (str_eq v.id id)) [
  | inl found ↦ ground (
    arith,
    h,
    found,
    eq_iff v.id id,
    eq_iff v.id id',
    eq_iff id id',
    nobody id password role users,
    Bool-cases (str_eq id id'),
  )
  | inr other ↦ ground (
    arith,
    h,
    other,
    eq_iff v.id id,
    eq_iff v.id id',
    eq_iff id id',
    sole-update id new id' password role users u,
    Bool-cases (str_eq id id'),
  )
]

-- After a change_password that returned 0, to a password of at most 49 characters, for an id of which
-- users.dat has one record, a login with that id goes through if and only if it has the new password
-- and the role of the record, and one with another id as before, where users.dat can be opened.
pub logins_after_change_password :
    (os os' : Opens) (id password : String) (f g : Files) (u : User)
    → strncpy password 49 ≡ password
    → os'.users_open ≡ true
    → select (is_user_id id) (records_of f.users) ≡ u ∷ []
    → change_password os id password f ≡ (pos 0, g)
    → (id' password' : String) (role' : Role)
    → authenticate os' id' password' role' g
      ≡ some (
          if str_eq id id'
          then str_eq password password' && same_role u.role role'
          else known id' password' role' (records_of f.users))
unfolding change_password authenticate
logins_after_change_password os os' id password f g u fits o one r id' password' role' =
    elim (Option-cases (open_file os.users_open f.users)) [
      | inl k ↦ absurd (ground (arith, k, r))
      | inr (users, k) ↦
          let same = opened_records os.users_open f.users users k in
          ground (
            arith,
            o,
            k,
            r,
            same,
            cut_password password fits,
            Bool-cases (has_value (select_first (is_user_id id) users)),
            sole-update id password id' password' role' users u
                (ap (select (is_user_id id)) (sym same) ∙ one),
          )
    ]
