-- ===== src/System/Safety.antt =====
-- The invariants of the tables, after any history of requests.
use academia_cr.Prelude.{
  ℕ, ◌≡◌, ◌⊎◌, refl, sym, subst, String, inl, inr, Bool-cases, List, [], ◌∷◌, arith, Option-cases,
  count_where, select_first,
}
use academia_cr.Database.{Tables, Connection, Answers}
use academia_cr.Integrity.{IsSafe}
use academia_cr.CourseRepository.{get_enrolled_count}
use academia_cr.RegistrationService.Safety.{register_student-IsSafe, drop_student-IsSafe}
use academia_cr.CourseService.Safety.{
  create_course-IsSafe, update_course-IsSafe, delete_course-IsSafe,
}
use academia_cr.UserRepository.{find_by_username, create_session}
use academia_cr.UserRepository.Integrity.{
  create-IsSafe, update-IsSafe, update_password-IsSafe, create_session-IsSafe,
  delete_session-IsSafe, cleanup_expired_sessions-IsSafe,
}
use academia_cr.UserRepository.Removal.{remove-IsSafe}
use academia_cr.AuthService
use academia_cr.System.{
  Request, Call, register, drop, create_course, update_course, delete_course, create_user,
  update_user, update_password, remove_user, login, logout, cleanup, perform, run, initial,
}

-- A login leaves the connection alone, or creates a session.
login_cases :
    (e : Answers) (now : ℕ) (token name password : String) (d : Connection)
    → ((AuthService.login e now token name password d).1 ≡ d)
      ⊎ ((id : ℕ) × ((AuthService.login e now token name password d).1
            ≡ create_session e now token id d))
unfolding AuthService.login AuthService.login_as
login_cases e now token name password d = elim (Option-cases (find_by_username d.tables name)) [
  | inl h ↦ inl (ground arith)
  | inr (u, h) ↦ elim (Bool-cases (AuthService.login_as e now token password u d).0.success) [
    | inl k ↦ inr (u.id, ground arith)
    | inr k ↦ inl (ground arith)
  ]
]

-- A property of the tables, carried over to an equal connection.
same : {c d : Connection} (P : Tables → Type 0) → d ≡ c → P c.tables → P d.tables
same P h v = subst (λ (x : Connection). P x.tables) (sym h) v

login-IsSafe :
    (e : Answers) (now : ℕ) (token name password : String) (d : Connection)
    → IsSafe d.tables
    → IsSafe (AuthService.login e now token name password d).1.tables
login-IsSafe e now token name password d v = elim (login_cases e now token name password d) [
  | inl h ↦ same IsSafe h v
  | inr (id, h) ↦ same IsSafe h (create_session-IsSafe e d v now token id)
]

logout-IsSafe :
    (e : Answers) (token : String) (d : Connection)
    → IsSafe d.tables
    → IsSafe (AuthService.logout e token d).tables
unfolding AuthService.logout
logout-IsSafe e token d v = delete_session-IsSafe e d v token

perform-IsSafe :
    (e : Answers) (now : ℕ) (r : Request) (d : Connection)
    → IsSafe d.tables
    → IsSafe (perform e now r d).tables
unfolding perform
perform-IsSafe e now (register s c) d v = register_student-IsSafe e now s c d v
perform-IsSafe e now (drop s c) d v = drop_student-IsSafe e s c d v
perform-IsSafe e now (create_course course u) d v = create_course-IsSafe e u d v now course
perform-IsSafe e now (update_course course u) d v = update_course-IsSafe e u d v course
perform-IsSafe e now (delete_course id u) d v = delete_course-IsSafe e u d v id
perform-IsSafe e now (create_user u) d v = create-IsSafe e d v now u
perform-IsSafe e now (update_user u) d v = update-IsSafe e d v u
perform-IsSafe e now (update_password id hash) d v = update_password-IsSafe e d v id hash
perform-IsSafe e now (remove_user id) d v = remove-IsSafe e id d v
perform-IsSafe e now (login token name password) d v = login-IsSafe e now token name password d v
perform-IsSafe e now (logout token) d v = logout-IsSafe e token d v
perform-IsSafe e now cleanup d v = cleanup_expired_sessions-IsSafe now d v

run-IsSafe : (calls : List Call) (d : Connection) → IsSafe d.tables → IsSafe (run calls d).tables
unfolding run
run-IsSafe [] d v = v
run-IsSafe (x ∷ xs) d v =
    run-IsSafe xs (perform x.answers x.now x.request d)
      (perform-IsSafe x.answers x.now x.request d v)

initial-IsSafe : IsSafe initial.tables
unfolding get_enrolled_count count_where select_first
initial-IsSafe = record {
  sound = record {
    pairs = λ s c. omega arith;
    ids = λ n. omega arith;
    fresh = λ n h. refl;
    students = λ s h. refl;
    courses = λ c h. refl;
  };
  capacity = λ c row h. absurd (ground arith);
}

-- After any history of requests to a new database, whatever SQLite answered to each, no course has
-- more active registrations than its capacity, no student has two rows for one course, and no
-- registration names a student or a course that is not there.
pub run-initial-IsSafe : (calls : List Call) → IsSafe (run calls initial).tables
run-initial-IsSafe calls = run-IsSafe calls initial initial-IsSafe
