-- ===== src/Server/Sessions/Clients.antt =====
-- What a client can do with and without a login.
use academia_cr.Prelude.{
  refl, ap, ◌∙◌, eq_iff, negsuc, Option, ◌++◌, pos, false, ℕ, ◌-◌, ◌≡◌, ◌⊎◌, inl, inr, String, Bool,
  true, some, List, [], ◌∷◌, ℤ, arith, Option-cases, Bool-cases,
}
use academia_cr.FileOps.{
  Files, Opens, User, Role, admin, student, faculty, open_file, returns, strncpy, max_id, max_pass,
}
use academia_cr.FileOps.Accounts.{authenticate, same_role, has_credentials}
use academia_cr.FileOps.Records.{found_apart}
use academia_cr.FileOps.Agreement.{InBounds}
use academia_cr.Server.{Input, is_code, expected_role, log_in, client_handler, login_screen}
use academia_cr.Server.Sessions.{AllSized, Served}
use academia_cr.Server.Sessions.Menus.{serve-Served}

-- A login choice and its role: 1 for an admin, 2 for a faculty member, 3 for a student.
abbrev pub Chosen : ℤ → Role → Type 0
Chosen choice role =
    ((choice ≡ pos 1) × (role ≡ admin))
    ⊎ (((choice ≡ pos 2) × (role ≡ faculty)) ⊎ ((choice ≡ pos 3) × (role ≡ student)))

-- The record of users.dat that a login is for: its place in the file, its id and password, cut to 9
-- and 49 characters, and the role of its login choice.
pub record Account (choice : ℤ) (id password : String) (f : Files) : Type 0 where
  pub front : List User
  pub user : User
  pub back : List User
  pub stored : f.users ≡ some (front ++ user ∷ back)
  pub same_id : user.id ≡ strncpy id 9
  pub same_password : user.password ≡ strncpy password 49
  pub chosen : Chosen choice user.role

module _ (memory : ℕ → Bool) (os : Opens) where
  -- A login that the server refuses.
  record NoLogin (role : Role) (id password : String) (is : List Input) (f : Files) : Type 0 where
    text : String
    refused : log_in memory os role id password is f ≡ returns (text ∷ [], f)

  log_in-cases :
      (role : Role) (id password : String) (is : List Input) (f : Files)
      → NoLogin role id password is f ⊎ (authenticate os id password role f ≡ some true)
  unfolding log_in
  log_in-cases role id password is f = elim (Option-cases (authenticate os id password role f)) [
    | inl h ↦
        inl
          (record { text = "Server error: Cannot open users file\n"; refused = ground (arith, h) })
    | inr (answer, h) ↦ elim (Bool-cases answer) [
      | inl k ↦ inr (ground (arith, h, k))
      | inr k ↦ inl (record { text = "Login failed\n"; refused = ground (arith, h, k) })
    ]
  ]

  log_in-Served :
      (role : Role) (id password : String) (is : List Input) (f : Files)
      → AllSized is
      → InBounds f
      → Served InBounds (log_in memory os role id password is f)
  unfolding log_in
  log_in-Served role id password is f z v = elim (log_in-cases role id password is f) [
    | inl no_login ↦ record {
      sent = no_login.text ∷ [];
      after = f;
      result = no_login.refused;
      holds = v;
    }
    | inr h ↦
        let s = serve-Served memory os role id is f z v in
        record {
          sent = "Login successful\n" ∷ s.sent;
          after = s.after;
          result = ground (arith, h, s.result);
          holds = s.holds;
        }
  ]

  -- client_handler comes to its end for every choice, id, password and inputs, and leaves files in
  -- bounds in bounds, if the ids in the inputs have at most 9 characters and the seats lie between
  -- 0 and 100.
  pub client_handler-Served :
      (choice : ℤ) (id password : String) (is : List Input) (f : Files)
      → AllSized is
      → InBounds f
      → Served InBounds (client_handler memory os choice id password is f)
  unfolding client_handler
  client_handler-Served choice id password is f z v = elim (Option-cases (expected_role choice)) [
    | inl h ↦ record {
      sent = login_screen ∷ "Invalid choice\n" ∷ [];
      after = f;
      result = ground (arith, h);
      holds = v;
    }
    | inr (role, h) ↦
        let s =
          log_in-Served role (strncpy id (max_id - 1)) (strncpy password (max_pass - 1)) is f z v in
        record {
          sent = login_screen ∷ "Enter User ID: " ∷ "Enter Password: " ∷ s.sent;
          after = s.after;
          result = ground (arith, h, s.result);
          holds = s.holds;
        }
  ]

  code_is : (a : ℤ) (n : ℕ) → is_code a (pos n) ≡ true → a ≡ pos n
  code_is (pos m) n h = ground (arith, h)
  code_is (negsuc m) n h = absurd (ground (arith, h))

  role_is : (r role : Role) → same_role r role ≡ true → r ≡ role
  role_is admin admin h = refl
  role_is admin student h = absurd (ground (arith, h))
  role_is admin faculty h = absurd (ground (arith, h))
  role_is student admin h = absurd (ground (arith, h))
  role_is student student h = refl
  role_is student faculty h = absurd (ground (arith, h))
  role_is faculty admin h = absurd (ground (arith, h))
  role_is faculty student h = absurd (ground (arith, h))
  role_is faculty faculty h = refl

  choice_of :
      (choice : ℤ) (role r : Role)
      → expected_role choice ≡ some role
      → same_role r role ≡ true
      → Chosen choice r
  choice_of choice role r h k = ground (
    arith,
    h,
    role_is r role k,
    code_is choice 1,
    code_is choice 2,
    code_is choice 3,
    Bool-cases (is_code choice (pos 1)),
    Bool-cases (is_code choice (pos 2)),
    Bool-cases (is_code choice (pos 3)),
  )

  opened_users :
      (ok : Bool) (file : Option (List User)) (users : List User)
      → open_file ok file ≡ some users
      → file ≡ some users
  opened_users true file users h = h
  opened_users false file users h = absurd (ground (arith, h))

  stored_login :
      (choice : ℤ) (role : Role) (id password : String) (f : Files)
      → expected_role choice ≡ some role
      → authenticate os (strncpy id 9) (strncpy password 49) role f ≡ some true
      → Account choice id password f
  unfolding authenticate
  stored_login choice role id password f h k =
      elim (Option-cases (open_file os.users_open f.users)) [
        | inl o ↦ absurd (ground (arith, o, k))
        | inr (users, o) ↦
            let (front, u, back, apart, fits) =
              found_apart (has_credentials (strncpy id 9) (strncpy password 49) role) users
                (ground (arith, o, k)) in
            record {
              front = front;
              user = u;
              back = back;
              stored = opened_users os.users_open f.users users o ∙ ap some apart;
              same_id = ground (arith, fits, eq_iff u.id (strncpy id 9));
              same_password = ground (arith, fits, eq_iff u.password (strncpy password 49));
              chosen = choice_of choice role u.role h (ground (arith, fits));
            }
      ]

  -- Either users.dat has a record with the id and the password that a client sent, cut to 9 and 49
  -- characters, and with the role of its choice, 1 for an admin, 2 for a faculty member and 3 for a
  -- student, or client_handler returns and leaves the files as they are.
  pub only_after_login :
      (choice : ℤ) (id password : String) (is : List Input) (f : Files)
      → Account choice id password f
        ⊎ ((sent : List String) × (client_handler memory os choice id password is f
              ≡ returns (sent, f)))
  unfolding client_handler
  only_after_login choice id password is f = elim (Option-cases (expected_role choice)) [
    | inl h ↦ inr (login_screen ∷ "Invalid choice\n" ∷ [], ground (arith, h))
    | inr (role, h) ↦ elim (log_in-cases role (strncpy id 9) (strncpy password 49) is f) [
      | inl no_login ↦ inr (
        login_screen ∷ "Enter User ID: " ∷ "Enter Password: " ∷ no_login.text ∷ [],
        ground (arith, h, no_login.refused),
      )
      | inr k ↦ inl (stored_login choice role id password f h k)
    ]
  ]
