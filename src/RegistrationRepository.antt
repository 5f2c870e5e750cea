-- ===== src/RegistrationRepository.antt =====
-- backend/include/repositories/RegistrationRepository.hpp: each SQL statement over the tables.
-- find_by_id, which joins names for display, is not here.
pub mod Listings
pub mod Listed
pub mod Acceptance
pub mod Effects
pub mod Enrolment
pub mod Integrity
use academia_cr.Prelude.{
  ℕ, ◌+◌, suc, Bool, true, false, not, ◌&&◌, Option, none, some, List, [], ◌∷◌, ◌++◌, ◌==◌, ltb,
  if◌then◌else◌, has_value, select_first, count_where, update_where, delete_where, ℤ, pos, ◌+ℤ◌,
}
use academia_cr.Models.{User, CourseRow, Registration, Status, active, dropped}
use academia_cr.Database.{Tables, Connection, Result, ok, throw, Answers}

-- WHERE student_id = ? AND course_id = ?
abbrev pub is_pair : ℕ → ℕ → Registration → Bool
is_pair student_id course_id r = r.student_id == student_id && r.course_id == course_id

-- status = 'active'
abbrev pub is_active : Registration → Bool
is_active r = elim r.status [ active ↦ true | dropped ↦ false ]

-- WHERE student_id = ? AND course_id = ? AND status = 'active'
abbrev pub is_enrolled : ℕ → ℕ → Registration → Bool
is_enrolled student_id course_id r = is_pair student_id course_id r && is_active r

-- WHERE student_id = ? AND course_id = ? AND status = 'dropped'
abbrev pub is_dropped : ℕ → ℕ → Registration → Bool
is_dropped student_id course_id r = is_pair student_id course_id r && not (is_active r)

-- RegistrationRepository::exists
unfoldable pub exists : Tables → ℕ → ℕ → Bool
exists t student_id course_id =
    ltb 0 (count_where (is_enrolled student_id course_id) t.registrations)

-- SET status = 'active', registered_at = datetime('now')
abbrev pub reactivate : ℕ → Registration → Registration
reactivate now r = record r { status = active; registered_at = now }

-- the UPDATE of create; one that fails leaves sqlite3_changes as it was
unfoldable pub update_dropped : Answers → ℕ → ℕ → ℕ → Connection → Connection
update_dropped e now student_id course_id c =
    if e.update_done
    then record c {
      tables = record c.tables {
        registrations =
            update_where (is_dropped student_id course_id) (reactivate now) c.tables.registrations;
      };
      changed_rows = count_where (is_dropped student_id course_id) c.tables.registrations;
    }
    else c

-- SELECT id FROM registrations WHERE student_id = ? AND course_id = ?; no row reads as 0
unfoldable pub registration_id : Tables → ℕ → ℕ → ℕ
registration_id t student_id course_id =
    elim (select_first (is_pair student_id course_id) t.registrations) [ none ↦ 0 | some r ↦ r.id ]

-- UNIQUE(student_id, course_id) and the two foreign keys
unfoldable pub accepts_registration : Tables → ℕ → ℕ → Bool
accepts_registration t student_id course_id =
    not (has_value (select_first (is_pair student_id course_id) t.registrations))
    && (has_value (select_first (λ (u : User). u.id == student_id) t.users)
        && has_value (select_first (λ (r : CourseRow). r.id == course_id) t.courses))

-- the row that the INSERT of create adds
abbrev pub new_registration : Tables → ℕ → ℕ → ℕ → Registration
new_registration t now student_id course_id = record {
  id = suc t.registration_seq;
  student_id = student_id;
  course_id = course_id;
  status = active;
  registered_at = now;
}

-- the INSERT of create
unfoldable pub insert_registration : Answers → ℕ → ℕ → ℕ → Connection → Result ℕ × Connection
unfolding accepts_registration
insert_registration e now student_id course_id c =
    if e.insert_done && accepts_registration c.tables student_id course_id
    then (
      ok (suc c.tables.registration_seq),
      record c {
        tables = record c.tables {
          registrations =
              c.tables.registrations ++ new_registration c.tables now student_id course_id ∷ [];
          registration_seq = suc c.tables.registration_seq;
        };
        changed_rows = 1;
        last_rowid = suc c.tables.registration_seq;
      },
    )
    else (throw "Failed to create registration", c)

-- RegistrationRepository::create, after its UPDATE
unfoldable pub create_updated : Answers → ℕ → ℕ → ℕ → Connection → Result ℕ × Connection
unfolding registration_id insert_registration
create_updated e now student_id course_id c =
    if ltb 0 c.changed_rows
    then (ok (registration_id c.tables student_id course_id), c)
    else insert_registration e now student_id course_id c

-- RegistrationRepository::create
unfoldable pub create : Answers → ℕ → ℕ → ℕ → Connection → Result ℕ × Connection
unfolding update_dropped create_updated
create e now student_id course_id c =
    create_updated e now student_id course_id (update_dropped e now student_id course_id c)

-- SET status = 'dropped'
abbrev pub deactivate : Registration → Registration
deactivate r = record r { status = dropped }

-- RegistrationRepository::drop_registration
unfoldable pub drop_registration : Answers → ℕ → ℕ → Connection → Bool × Connection
drop_registration e student_id course_id c =
    if e.update_done
    then (
      true,
      record c {
        tables = record c.tables {
          registrations =
              update_where (is_enrolled student_id course_id) deactivate c.tables.registrations;
        };
        changed_rows = count_where (is_enrolled student_id course_id) c.tables.registrations;
      },
    )
    else (false, c)

-- RegistrationRepository::remove
unfoldable pub remove : Answers → ℕ → Connection → Bool × Connection
remove e id c =
    if e.delete_done
    then (
      true,
      record c {
        tables = record c.tables {
          registrations = delete_where (λ r. r.id == id) c.tables.registrations;
        };
        changed_rows = count_where (λ (r : Registration). r.id == id) c.tables.registrations;
      },
    )
    else (false, c)

-- RegistrationRepository::count_active
unfoldable pub count_active : Tables → ℕ
count_active t = count_where is_active t.registrations

-- RegistrationRepository::count_by_student
unfoldable pub count_by_student : Tables → ℕ → ℕ
count_by_student t student_id =
    count_where (λ r. r.student_id == student_id && is_active r) t.registrations

-- the credits of the course that a row joins; the foreign key leaves none without a course
course_credits : List CourseRow → ℕ → ℤ
course_credits courses course_id =
    elim (select_first (λ (r : CourseRow). r.id == course_id) courses) [
      | none ↦ pos 0
      | some r ↦ r.credits
    ]

-- SUM(c.credits) over the joined rows
sum_credits : List CourseRow → ℕ → List Registration → ℤ
sum_credits courses student_id [] = pos 0
sum_credits courses student_id (r ∷ rs) =
    let rest = sum_credits courses student_id rs in
    if r.student_id == student_id && is_active r
    then course_credits courses r.course_id +ℤ rest
    else rest

-- RegistrationRepository::total_credits_for_student
unfoldable pub total_credits_for_student : Tables → ℕ → ℤ
unfolding sum_credits course_credits
total_credits_for_student t student_id = sum_credits t.courses student_id t.registrations
