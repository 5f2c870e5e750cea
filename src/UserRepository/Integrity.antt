-- ===== src/UserRepository/Integrity.antt =====
-- The statements of UserRepository keep the registrations sound and every course within capacity.
use academia_cr.Prelude.{ℕ, suc, ◌≡◌, refl, false, [], ◌∷◌, arith, String}
use academia_cr.Prelude.Counting.{select_first-append, has_value-update_where}
use academia_cr.Models.{User}
use academia_cr.Database.{Tables, Connection, Answers}
use academia_cr.CourseRepository.{has_user, get_enrolled_count}
use academia_cr.Integrity.{IsSafe}
use academia_cr.UserRepository.{
  user_has_id, create, update, update_password, create_session, delete_session,
  cleanup_expired_sessions,
}

-- Only registrations, courses and the ids of users matter for the two invariants.
pub users_IsSafe :
    (t u : Tables)
    → u.registrations ≡ t.registrations
    → u.registration_seq ≡ t.registration_seq
    → u.courses ≡ t.courses
    → ((id : ℕ) → has_user u id ≡ false → has_user t id ≡ false)
    → IsSafe t
    → IsSafe u
unfolding get_enrolled_count
users_IsSafe t u rows seq courses users v = record {
  sound = record {
    pairs = λ s c. rw rows (v.sound.pairs s c);
    ids = λ n. rw rows (v.sound.ids n);
    fresh = λ n h. rw rows (v.sound.fresh n (ground arith));
    students = λ s h. rw rows (v.sound.students s (users s h));
    courses = λ c h. rw rows (v.sound.courses c (ground (arith, courses)));
  };
  capacity = λ c row found. rw rows (v.capacity c row (ground (arith, courses)));
}

module _ (e : Answers) (c : Connection) (v : IsSafe c.tables) where
  pub create-IsSafe : (now : ℕ) (user : User) → IsSafe (create e now user c).1.tables
  unfolding create
  create-IsSafe now user =
      users_IsSafe c.tables (create e now user c).1.tables (ground arith) (ground arith)
        (ground arith)
        (λ id h. ground (
          arith,
          select_first-append (user_has_id id) c.tables.users
              (record user { id = suc c.tables.user_seq; created_at = now } ∷ []),
        ))
        v

  pub update-IsSafe : (user : User) → IsSafe (update e user c).1.tables
  unfolding update
  update-IsSafe user =
      users_IsSafe c.tables (update e user c).1.tables (ground arith) (ground arith) (ground arith)
        (λ id h. ground (
          arith,
          has_value-update_where (user_has_id user.id) (user_has_id id)
              (λ (u : User). record u {
                name = user.name;
                email = user.email;
                active = user.active;
              })
              c.tables.users (λ r. refl),
        ))
        v

  pub update_password-IsSafe :
      (id : ℕ) (password_hash : String) → IsSafe (update_password e id password_hash c).1.tables
  unfolding update_password
  update_password-IsSafe id password_hash =
      users_IsSafe c.tables (update_password e id password_hash c).1.tables (ground arith)
        (ground arith) (ground arith)
        (λ id' h. ground (
          arith,
          has_value-update_where (user_has_id id) (user_has_id id')
              (λ (u : User). record u { password_hash = password_hash }) c.tables.users (λ r. refl),
        ))
        v

  pub create_session-IsSafe :
      (now : ℕ) (token : String) (user_id : ℕ)
      → IsSafe (create_session e now token user_id c).tables
  unfolding create_session
  create_session-IsSafe now token user_id =
      users_IsSafe c.tables (create_session e now token user_id c).tables (ground arith)
        (ground arith) (ground arith) (λ id h. ground arith) v

  pub delete_session-IsSafe : (token : String) → IsSafe (delete_session e token c).tables
  unfolding delete_session
  delete_session-IsSafe token =
      users_IsSafe c.tables (delete_session e token c).tables (ground arith) (ground arith)
        (ground arith) (λ id h. ground arith) v

pub cleanup_expired_sessions-IsSafe :
    (now : ℕ) (c : Connection) → IsSafe c.tables → IsSafe (cleanup_expired_sessions now c).tables
unfolding cleanup_expired_sessions
cleanup_expired_sessions-IsSafe now c v =
    users_IsSafe c.tables (cleanup_expired_sessions now c).tables (ground arith) (ground arith)
      (ground arith) (λ id h. ground arith) v
