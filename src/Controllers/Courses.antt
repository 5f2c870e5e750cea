-- ===== src/Controllers/Courses.antt =====
-- backend/include/controllers/CourseController.hpp: creating, updating and deleting courses. A body is
-- the Course that from_json makes of it.
use academia_cr.Prelude.{ℕ, String, ◌||◌, Option, none, some, if◌then◌else◌}
use academia_cr.Models.{User, Course}
use academia_cr.Database.{Connection, Answers}
use academia_cr.AuthService.{authenticate_request}
use academia_cr.CourseRepository.{find_by_id}
use academia_cr.CourseService
use academia_cr.CourseService.{CourseResult, is_admin, is_faculty}
use academia_cr.Controllers.{Response, error_response, success_response, one_course, no_data}

-- the faculty id of a course that a faculty member creates is their own
abbrev pub owned : User → Course → Course
owned user course = if is_faculty user.role then record course { faculty_id = user.id } else course

created : CourseResult × Connection → Response × Connection
created (result, c) =
    if result.success
    then (
      success_response (one_course (find_by_id c.tables result.course_id)) "Course created" 201,
      c,
    )
    else (error_response result.error 400, c)

create_as : Answers → ℕ → User → Option Course → Connection → Response × Connection
create_as e now user none c = (error_response "Invalid JSON body" 400, c)
create_as e now user (some course) c =
    created (CourseService.create_course e now (owned user course) user c)

-- POST /api/courses
unfoldable pub post_course :
    Answers → ℕ → String → Option Course → Connection → Response × Connection
unfolding create_as created
post_course e now auth_header body c = elim (authenticate_request c.tables now auth_header) [
  | none ↦ (error_response "Not authenticated" 401, c)
  | some user ↦
      if is_faculty user.role || is_admin user.role
      then create_as e now user body c
      else (error_response "Forbidden" 403, c)
]

updated : ℕ → CourseResult × Connection → Response × Connection
updated id (result, c) =
    if result.success
    then (success_response (one_course (find_by_id c.tables id)) "Course updated" 200, c)
    else (error_response result.error 400, c)

update_as : Answers → ℕ → User → Option Course → Connection → Response × Connection
update_as e id user none c = (error_response "Invalid JSON body" 400, c)
update_as e id user (some course) c =
    updated id (CourseService.update_course e (record course { id = id }) user c)

-- PUT /api/courses/<int>
unfoldable pub put_course :
    Answers → ℕ → String → ℕ → Option Course → Connection → Response × Connection
unfolding update_as updated
put_course e now auth_header id body c = elim (authenticate_request c.tables now auth_header) [
  | none ↦ (error_response "Not authenticated" 401, c)
  | some user ↦
      if is_faculty user.role || is_admin user.role
      then update_as e id user body c
      else (error_response "Forbidden" 403, c)
]

deleted : CourseResult × Connection → Response × Connection
deleted (result, c) =
    if result.success
    then (success_response no_data "Course deleted" 200, c)
    else (error_response result.error 400, c)

-- DELETE /api/courses/<int>
unfoldable pub delete_course_route : Answers → ℕ → String → ℕ → Connection → Response × Connection
unfolding deleted
delete_course_route e now auth_header id c = elim (authenticate_request c.tables now auth_header) [
  | none ↦ (error_response "Not authenticated" 401, c)
  | some user ↦ deleted (CourseService.delete_course e id user c)
]
