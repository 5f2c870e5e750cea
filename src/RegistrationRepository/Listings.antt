-- ===== src/RegistrationRepository/Listings.antt =====
-- backend/include/repositories/RegistrationRepository.hpp: the listings, which join a registration
-- with its student and its course. Status is 'active', the default that every caller keeps.
use academia_cr.Prelude.{
  ℕ, String, Bool, ◌&&◌, Option, some, List, [], ◌∷◌, ◌==◌, leb, select, select_first, order_by,
}
use academia_cr.Models.{Registration, User, CourseRow}
use academia_cr.Database.{Tables}
use academia_cr.Text.{text_before}
use academia_cr.RegistrationRepository.{is_active}

-- Registration with its joined fields
pub record RegistrationInfo : Type 0 where
  pub registration : Registration
  pub student_name : String
  pub course_code : String
  pub course_name : String

info_of :
    Registration → Option User → Option CourseRow → List RegistrationInfo → List RegistrationInfo
info_of r (some u) (some c) rest =
    (record {
      registration = r;
      student_name = u.name;
      course_code = c.course_code;
      course_name = c.course_name;
    })
    ∷ rest
info_of r _ _ rest = rest

-- FROM registrations r JOIN users u ON ... JOIN courses c ON ...
unfoldable pub joined_rows : Tables → List Registration → List RegistrationInfo
unfolding info_of
joined_rows t [] = []
joined_rows t (r ∷ rs) =
    info_of r (select_first (λ (u : User). u.id == r.student_id) t.users)
      (select_first (λ (c : CourseRow). c.id == r.course_id) t.courses) (joined_rows t rs)

-- ORDER BY r.registered_at DESC
abbrev pub newest_first : RegistrationInfo → RegistrationInfo → Bool
newest_first x y = leb y.registration.registered_at x.registration.registered_at

-- RegistrationRepository::find_by_student
unfoldable pub find_by_student : Tables → ℕ → List RegistrationInfo
find_by_student t student_id =
    order_by newest_first
      (joined_rows t (select (λ r. r.student_id == student_id && is_active r) t.registrations))

-- RegistrationRepository::find_by_course
unfoldable pub find_by_course : Tables → ℕ → List RegistrationInfo
find_by_course t course_id =
    order_by (λ x y. text_before x.student_name y.student_name)
      (joined_rows t (select (λ r. r.course_id == course_id && is_active r) t.registrations))

-- RegistrationRepository::find_all
unfoldable pub find_all : Tables → List RegistrationInfo
find_all t = order_by newest_first (joined_rows t (select is_active t.registrations))
