-- ===== src/Tests/Courses.antt =====
-- The theorems on courses at the demo database.
use academia_cr.Prelude.{◌≡◌, refl, true, false, pos, select_first, count_where}
use academia_cr.Models.{Course}
use academia_cr.Integrity.{has_course, of_course}
use academia_cr.CourseRepository
use academia_cr.CourseRepository.{
  find_by_id, find_by_code, has_id, has_user, new_course, set_course, row_to_course,
  get_enrolled_count,
}
use academia_cr.CourseService.{create_course, update_course, delete_course}
use academia_cr.CourseService.Access.{create_course_success, delete_course_by_student}
use academia_cr.Tests.{all_done, alice, smith, systems, demo, demo_tables}

-- A course as a request gives it.
abbrev graphics : Course
graphics = record {
  id = 0;
  course_code = "CS410";
  course_name = "Graphics";
  credits = pos 3;
  faculty_id = 3;
  faculty_name = "";
  capacity = pos 20;
  enrolled_count = 0;
  schedule = "";
  created_at = 0;
}

-- New data for the course with one seat.
abbrev larger : Course
larger = record graphics { id = 1; capacity = pos 5 }

-- The same with the faculty id 0 that Course::from_json leaves when the body has none.
abbrev without_faculty : Course
without_faculty = record larger { faculty_id = 0 }

creates : (create_course all_done 20 graphics smith demo).0.success ≡ true
unfolding create_course find_by_code CourseRepository.create select_first
creates = refl

updates : (update_course all_done larger smith demo).0.success ≡ true
unfolding update_course find_by_id CourseRepository.update select_first count_where
updates = refl

updates_nothing : (update_course all_done without_faculty smith demo).0.success ≡ true
unfolding update_course find_by_id CourseRepository.update select_first count_where
updates_nothing = refl

deletes : (delete_course all_done 1 smith demo).0.success ≡ true
unfolding delete_course find_by_id CourseRepository.remove select_first
deletes = refl

create_course_success_example : (create_course all_done 20 graphics smith demo).0.course_id ≡ 3
create_course_success_example = (create_course_success all_done 20 graphics smith demo creates).3

delete_course_by_student_example :
    ((delete_course all_done 1 alice demo).0.success ≡ true)
    × (has_course (delete_course all_done 1 alice demo).1.tables 1 ≡ false)
    × (count_where (of_course 1) (delete_course all_done 1 alice demo).1.tables.registrations ≡ 0)
unfolding find_by_id select_first
delete_course_by_student_example =
    delete_course_by_student all_done 1 alice (row_to_course demo_tables systems) demo refl refl
      refl
