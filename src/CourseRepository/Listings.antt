-- ===== src/CourseRepository/Listings.antt =====
-- backend/include/repositories/CourseRepository.hpp: the listings; search, which uses LIKE, is not
-- here.
use academia_cr.Prelude.{ℕ, Bool, List, map, none, some, ◌==◌, select, order_by, false}
use academia_cr.Models.{Course, CourseRow}
use academia_cr.Database.{Tables}
use academia_cr.Text.{text_before}
use academia_cr.CourseRepository.{row_to_course}

abbrev pub by_code : CourseRow → CourseRow → Bool
by_code x y = text_before x.course_code y.course_code

-- WHERE c.faculty_id = ?, which NULL does not satisfy
abbrev pub taught_by : ℕ → CourseRow → Bool
taught_by id r = elim r.faculty_id [ none ↦ false | some f ↦ f == id ]

-- CourseRepository::find_all
unfoldable pub find_all : Tables → List Course
find_all t = map (row_to_course t) (order_by by_code t.courses)

-- CourseRepository::find_by_faculty
unfoldable pub find_by_faculty : Tables → ℕ → List Course
find_by_faculty t faculty_id =
    map (row_to_course t) (order_by by_code (select (taught_by faculty_id) t.courses))
