-- ===== src/UserRepository.antt =====
-- backend/include/repositories/UserRepository.hpp: each SQL statement over the tables users and
-- sessions.
pub mod Listings
pub mod Integrity
pub mod Removal
use academia_cr.Prelude.{
  ℕ, ◌+◌, suc, String, Bool, true, false, not, ◌&&◌, Option, none, some, List, [], ◌∷◌, ◌++◌, ◌==◌,
  ltb, if◌then◌else◌, has_value, str_eq, length, select_first, count_where, update_where,
  delete_where,
}
use academia_cr.Models.{Role, admin, faculty, student, User, CourseRow, Registration, Session}
use academia_cr.Database.{Tables, Connection, Result, ok, throw, Answers}

-- WHERE id = ?
abbrev pub user_has_id : ℕ → User → Bool
user_has_id id u = u.id == id

-- UserRepository::find_by_id
unfoldable pub find_by_id : Tables → ℕ → Option User
find_by_id t id = select_first (user_has_id id) t.users

-- UserRepository::find_by_username
unfoldable pub find_by_username : Tables → String → Option User
find_by_username t username = select_first (λ (u : User). str_eq u.username username) t.users

-- UserRepository::create: the INSERT, with UNIQUE username
unfoldable pub create : Answers → ℕ → User → Connection → Result ℕ × Connection
create e now user c =
    if e.insert_done
      && not
          (has_value (select_first (λ (u : User). str_eq u.username user.username) c.tables.users))
    then (
      ok (suc c.tables.user_seq),
      record c {
        tables = record c.tables {
          users =
              c.tables.users ++ record user { id = suc c.tables.user_seq; created_at = now } ∷ [];
          user_seq = suc c.tables.user_seq;
        };
        changed_rows = 1;
        last_rowid = suc c.tables.user_seq;
      },
    )
    else (throw "Failed to create user", c)

set_users : (User → User) → ℕ → Connection → Bool × Connection
set_users f id c = (
  true,
  record c {
    tables = record c.tables { users = update_where (user_has_id id) f c.tables.users };
    changed_rows = count_where (user_has_id id) c.tables.users;
  },
)

-- UserRepository::update
unfoldable pub update : Answers → User → Connection → Bool × Connection
unfolding set_users
update e user c =
    if e.update_done
    then set_users (λ u. record u { name = user.name; email = user.email; active = user.active })
        user.id c
    else (false, c)

-- UserRepository::update_password
unfoldable pub update_password : Answers → ℕ → String → Connection → Bool × Connection
unfolding set_users
update_password e id password_hash c =
    if e.update_done
    then set_users (λ u. record u { password_hash = password_hash }) id c
    else (false, c)

-- faculty_id ... ON DELETE SET NULL
abbrev pub teaches : ℕ → CourseRow → Bool
teaches id r = elim r.faculty_id [ none ↦ false | some f ↦ f == id ]

abbrev pub clear_faculty : CourseRow → CourseRow
clear_faculty r = record r { faculty_id = none }

-- the tables after the deletion of a user, with the actions of the three foreign keys
unfoldable pub without_user : Tables → ℕ → Tables
without_user t id = record t {
  users = delete_where (user_has_id id) t.users;
  courses = update_where (teaches id) clear_faculty t.courses;
  registrations = delete_where (λ r. r.student_id == id) t.registrations;
  sessions = delete_where (λ s. s.user_id == id) t.sessions;
}

-- UserRepository::remove
unfoldable pub remove : Answers → ℕ → Connection → Bool × Connection
unfolding without_user
remove e id c =
    if e.delete_done
    then (
      true,
      record c {
        tables =
            if has_value (select_first (user_has_id id) c.tables.users)
            then without_user c.tables id
            else c.tables;
        changed_rows = count_where (user_has_id id) c.tables.users;
      },
    )
    else (false, c)

-- UserRepository::count
unfoldable pub count : Tables → ℕ
count t = length t.users

abbrev pub same_role : Role → Role → Bool
same_role admin admin = true
same_role faculty faculty = true
same_role student student = true
same_role _ _ = false

-- UserRepository::count_by_role
unfoldable pub count_by_role : Tables → Role → ℕ
count_by_role t role = count_where (λ u. same_role u.role role) t.users

-- WHERE token = ?
abbrev pub has_token : String → Session → Bool
has_token token s = str_eq s.token token

-- UserRepository::create_session: INSERT OR REPLACE, whose result is ignored; '+24 hours' is 86400
unfoldable pub create_session : Answers → ℕ → String → ℕ → Connection → Connection
create_session e now token user_id c =
    if e.insert_done && has_value (select_first (user_has_id user_id) c.tables.users)
    then record c {
      tables = record c.tables {
        sessions =
            delete_where (has_token token) c.tables.sessions
            ++ (record {
              token = token;
              user_id = user_id;
              created_at = now;
              expires_at = some (now + 86400);
            })
              ∷ [];
      };
      changed_rows = 1;
    }
    else c

-- expires_at IS NULL OR expires_at > datetime('now')
abbrev pub is_current : ℕ → Session → Bool
is_current now s = elim s.expires_at [ none ↦ true | some t ↦ ltb now t ]

-- UserRepository::validate_session
unfoldable pub validate_session : Tables → ℕ → String → Option ℕ
validate_session t now token =
    elim (select_first (λ s. has_token token s && is_current now s) t.sessions) [
      | none ↦ none
      | some s ↦ some s.user_id
    ]

set_sessions : (Session → Bool) → Connection → Connection
set_sessions p c = record c {
  tables = record c.tables { sessions = delete_where p c.tables.sessions };
  changed_rows = count_where p c.tables.sessions;
}

-- UserRepository::delete_session
unfoldable pub delete_session : Answers → String → Connection → Connection
unfolding set_sessions
delete_session e token c = if e.delete_done then set_sessions (has_token token) c else c

-- expires_at < datetime('now')
abbrev pub is_expired : ℕ → Session → Bool
is_expired now s = elim s.expires_at [ none ↦ false | some t ↦ ltb t now ]

-- UserRepository::cleanup_expired_sessions, where it does not throw
unfoldable pub cleanup_expired_sessions : ℕ → Connection → Connection
unfolding set_sessions
cleanup_expired_sessions now c = set_sessions (is_expired now) c
