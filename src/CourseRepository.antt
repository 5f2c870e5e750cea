-- ===== src/CourseRepository.antt =====
-- backend/include/repositories/CourseRepository.hpp: each SQL statement over the tables.
-- search, a listing with LIKE, is not here.
pub mod Listings
pub mod Integrity
use academia_cr.Prelude.{
  ℕ, suc, String, Bool, true, false, not, ◌&&◌, Option, none, some, List, [], ◌∷◌, ◌++◌, ◌==◌,
  if◌then◌else◌, has_value, str_eq, length, select_first, count_where, update_where, delete_where,
  pos, ltb_ℤ,
}
use academia_cr.Models.{User, CourseRow, Course, Registration}
use academia_cr.Database.{Tables, Connection, Result, ok, throw, Answers}
use academia_cr.RegistrationRepository.{is_active}

-- WHERE course_id = ? AND status = 'active'
abbrev pub takes_seat : ℕ → Registration → Bool
takes_seat course_id r = r.course_id == course_id && is_active r

-- CourseRepository::get_enrolled_count
unfoldable pub get_enrolled_count : Tables → ℕ → ℕ
get_enrolled_count t course_id = count_where (takes_seat course_id) t.registrations

-- COALESCE(u.name, '') of LEFT JOIN users u ON c.faculty_id = u.id
unfoldable pub faculty_name : Tables → Option ℕ → String
faculty_name t none = ""
faculty_name t (some id) = elim (select_first (λ (u : User). u.id == id) t.users) [
  | none ↦ ""
  | some u ↦ u.name
]

-- column_int64 of a faculty_id, where NULL reads as 0
abbrev pub column_id : Option ℕ → ℕ
column_id none = 0
column_id (some id) = id

-- row_to_course, with the columns that the SELECTs compute
unfoldable pub row_to_course : Tables → CourseRow → Course
unfolding faculty_name get_enrolled_count
row_to_course t r = record {
  id = r.id;
  course_code = r.course_code;
  course_name = r.course_name;
  credits = r.credits;
  faculty_id = column_id r.faculty_id;
  faculty_name = faculty_name t r.faculty_id;
  capacity = r.capacity;
  enrolled_count = get_enrolled_count t r.id;
  schedule = r.schedule;
  created_at = r.created_at;
}

-- WHERE c.id = ?
abbrev pub has_id : ℕ → CourseRow → Bool
has_id id r = r.id == id

joined : Tables → Option CourseRow → Option Course
joined t none = none
joined t (some r) = some (row_to_course t r)

-- CourseRepository::find_by_id
unfoldable pub find_by_id : Tables → ℕ → Option Course
unfolding joined row_to_course
find_by_id t id = joined t (select_first (has_id id) t.courses)

-- CourseRepository::find_by_code
unfoldable pub find_by_code : Tables → String → Option Course
unfolding joined row_to_course
find_by_code t code =
    joined t (select_first (λ (r : CourseRow). str_eq r.course_code code) t.courses)

-- faculty_id REFERENCES users(id); the statements always bind a number
abbrev pub has_user : Tables → ℕ → Bool
has_user t id = has_value (select_first (λ (u : User). u.id == id) t.users)

-- UNIQUE course_code, CHECK(capacity > 0) and the foreign key, for the INSERT of create
unfoldable pub accepts_course : Tables → Course → Bool
accepts_course t course =
    not (
      has_value
        (select_first (λ (r : CourseRow). str_eq r.course_code course.course_code) t.courses))
    && (ltb_ℤ (pos 0) course.capacity && has_user t course.faculty_id)

-- the row that the INSERT of create adds
abbrev pub new_course : Tables → ℕ → Course → CourseRow
new_course t now course = record {
  id = suc t.course_seq;
  course_code = course.course_code;
  course_name = course.course_name;
  credits = course.credits;
  faculty_id = some course.faculty_id;
  capacity = course.capacity;
  schedule = course.schedule;
  created_at = now;
}

-- CourseRepository::create
unfoldable pub create : Answers → ℕ → Course → Connection → Result ℕ × Connection
unfolding accepts_course
create e now course c =
    if e.insert_done && accepts_course c.tables course
    then (
      ok (suc c.tables.course_seq),
      record c {
        tables = record c.tables {
          courses = c.tables.courses ++ new_course c.tables now course ∷ [];
          course_seq = suc c.tables.course_seq;
        };
        changed_rows = 1;
        last_rowid = suc c.tables.course_seq;
      },
    )
    else (throw "Failed to create course", c)

-- the columns that the UPDATE sets
abbrev pub set_course : Course → CourseRow → CourseRow
set_course course r = record r {
  course_name = course.course_name;
  credits = course.credits;
  faculty_id = some course.faculty_id;
  capacity = course.capacity;
  schedule = course.schedule;
}

-- CHECK(capacity > 0) and the foreign key, which only a row that is updated can break
unfoldable pub accepts_update : Tables → Course → Bool
accepts_update t course =
    if has_value (select_first (has_id course.id) t.courses)
    then ltb_ℤ (pos 0) course.capacity && has_user t course.faculty_id
    else true

-- CourseRepository::update
unfoldable pub update : Answers → Course → Connection → Bool × Connection
unfolding accepts_update
update e course c =
    if e.update_done && accepts_update c.tables course
    then (
      true,
      record c {
        tables = record c.tables {
          courses = update_where (has_id course.id) (set_course course) c.tables.courses;
        };
        changed_rows = count_where (has_id course.id) c.tables.courses;
      },
    )
    else (false, c)

-- CourseRepository::remove, with ON DELETE CASCADE of registrations.course_id
unfoldable pub remove : Answers → ℕ → Connection → Bool × Connection
remove e id c =
    if e.delete_done
    then (
      true,
      record c {
        tables = record c.tables {
          courses = delete_where (has_id id) c.tables.courses;
          registrations =
              if has_value (select_first (has_id id) c.tables.courses)
              then delete_where (λ r. r.course_id == id) c.tables.registrations
              else c.tables.registrations;
        };
        changed_rows = count_where (has_id id) c.tables.courses;
      },
    )
    else (false, c)

-- CourseRepository::count
unfoldable pub count : Tables → ℕ
count t = length t.courses
