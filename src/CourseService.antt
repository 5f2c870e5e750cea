-- ===== src/CourseService.antt =====
-- backend/include/services/CourseService.hpp: the operations that change courses. The reads pass
-- their repository's answer on; get_course_statistics, which divides floats, is not here.
pub mod Safety
pub mod Access
use academia_cr.Prelude.{
  ℕ, String, str_append, Bool, true, false, not, ◌&&◌, ◌||◌, Option, none, some, ◌==◌, ltb_ℤ, leb_ℤ,
  pos, if◌then◌else◌, has_value,
}
use academia_cr.Models.{Role, admin, faculty, student, User, Course}
use academia_cr.Database.{Tables, Connection, Result, ok, throw, Answers}
use academia_cr.CourseRepository
use academia_cr.CourseRepository.{find_by_id, find_by_code, get_enrolled_count}
use academia_cr.Text.{is_empty, to_string}

-- CourseService::CourseResult
pub record CourseResult : Type 0 where
  pub success : Bool
  pub course_id : ℕ
  pub error : String

abbrev pub denied : String → CourseResult
denied error = record { success = false; course_id = 0; error = error }

abbrev pub done : ℕ → CourseResult
done id = record { success = true; course_id = id; error = "" }

abbrev pub is_admin : Role → Bool
is_admin admin = true
is_admin _ = false

abbrev pub is_faculty : Role → Bool
is_faculty faculty = true
is_faculty _ = false

-- the try block of create_course and its catch
created : Result ℕ × Connection → CourseResult × Connection
created (ok id, c) = (done id, c)
created (throw message, c) = (denied "Failed to create course", c)

-- CourseService::create_course
unfoldable pub create_course : Answers → ℕ → Course → User → Connection → CourseResult × Connection
unfolding created
create_course e now course requester c =
    if not (is_admin requester.role) && not (is_faculty requester.role)
    then (denied "Unauthorized: only admin or faculty can create courses", c)
    else if is_empty course.course_code
    then (denied "Course code is required", c)
    else if is_empty course.course_name
    then (denied "Course name is required", c)
    else if leb_ℤ course.capacity (pos 0)
    then (denied "Capacity must be positive", c)
    else if leb_ℤ course.credits (pos 0) || ltb_ℤ (pos 6) course.credits
    then (denied "Credits must be between 1 and 6", c)
    else if has_value (find_by_code c.tables course.course_code)
    then (denied "Course code already exists", c)
    else created (CourseRepository.create e now course c)

pub capacity_error : ℕ → String
capacity_error enrolled =
    str_append "Cannot reduce capacity below current enrollment ("
      (str_append (to_string enrolled) ")")

-- the call of update, whose result is ignored
updated : Course → Bool × Connection → CourseResult × Connection
updated course (carried_out, c) = (done course.id, c)

-- update_course after its first check found `existing`
unfoldable pub update_found :
    Answers → Course → User → Course → Connection → CourseResult × Connection
unfolding updated get_enrolled_count
update_found e course requester existing c =
    if is_faculty requester.role && not (existing.faculty_id == requester.id)
    then (denied "You can only update your own courses", c)
    else if is_empty course.course_name
    then (denied "Course name is required", c)
    else if leb_ℤ course.capacity (pos 0)
    then (denied "Capacity must be positive", c)
    else if ltb_ℤ course.capacity (pos (get_enrolled_count c.tables course.id))
    then (denied (capacity_error (get_enrolled_count c.tables course.id)), c)
    else updated course (CourseRepository.update e course c)

-- CourseService::update_course
unfoldable pub update_course : Answers → Course → User → Connection → CourseResult × Connection
unfolding update_found
update_course e course requester c = elim (find_by_id c.tables course.id) [
  | none ↦ (denied "Course not found", c)
  | some existing ↦ update_found e course requester existing c
]

-- the call of remove, whose result is ignored
removed : ℕ → Bool × Connection → CourseResult × Connection
removed id (carried_out, c) = (done id, c)

-- the checks of delete_course for a requester who is no admin
unfoldable pub may_delete : Tables → ℕ → User → Option String
may_delete t id requester = if is_admin requester.role then none else elim (find_by_id t id) [
  | none ↦ some "Course not found"
  | some existing ↦
      if is_faculty requester.role && not (existing.faculty_id == requester.id)
      then some "You can only delete your own courses"
      else none
]

-- CourseService::delete_course
unfoldable pub delete_course : Answers → ℕ → User → Connection → CourseResult × Connection
unfolding may_delete removed
delete_course e id requester c = elim (may_delete c.tables id requester) [
  | some error ↦ (denied error, c)
  | none ↦ removed id (CourseRepository.remove e id c)
]
