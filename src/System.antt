-- ===== src/System.antt =====
-- The services over the one connection, one call after another, as backend/src/main.cpp wires them:
-- what each operation leaves in the tables, with the answers that SQLite gave it.
pub mod Safety
use academia_cr.Prelude.{ℕ, zero, String, Option, none, List, [], ◌∷◌}
use academia_cr.Models.{User, Course}
use academia_cr.Database.{Connection, Answers, empty_tables}
use academia_cr.RegistrationService
use academia_cr.CourseService
use academia_cr.AuthService
use academia_cr.UserRepository

-- The operations that change the tables. The course operations name the user who asks.
pub data Request : Type 0 where
  register drop : ℕ → ℕ → Request
  create_course update_course : Course → User → Request
  delete_course : ℕ → User → Request
  create_user update_user : User → Request
  update_password : ℕ → String → Request
  remove_user : ℕ → Request
  login : String → String → String → Request
  logout : String → Request
  cleanup : Request

-- A request at a time, with what SQLite answers to it.
pub record Call : Type 0 where
  pub answers : Answers
  pub now : ℕ
  pub request : Request

-- The connection after a request.
unfoldable pub perform : Answers → ℕ → Request → Connection → Connection
perform e now (register s c) d = (RegistrationService.register_student e now s c d).1
perform e now (drop s c) d = (RegistrationService.drop_student e s c d).1
perform e now (create_course course u) d = (CourseService.create_course e now course u d).1
perform e now (update_course course u) d = (CourseService.update_course e course u d).1
perform e now (delete_course id u) d = (CourseService.delete_course e id u d).1
perform e now (create_user u) d = (UserRepository.create e now u d).1
perform e now (update_user u) d = (UserRepository.update e u d).1
perform e now (update_password id hash) d = (UserRepository.update_password e id hash d).1
perform e now (remove_user id) d = (UserRepository.remove e id d).1
perform e now (login token name password) d = (AuthService.login e now token name password d).1
perform e now (logout token) d = AuthService.logout e token d
perform e now cleanup d = UserRepository.cleanup_expired_sessions now d

unfoldable pub run : List Call → Connection → Connection
unfolding perform
run [] d = d
run (x ∷ xs) d = run xs (perform x.answers x.now x.request d)

-- The connection to a new database.
abbrev pub initial : Connection
initial = record { tables = empty_tables; backup = none; changed_rows = 0; last_rowid = 0 }
