-- ===== src/Tests/Routes.antt =====
-- The theorems on the routes at the demo database with Bob signed in.
use academia_cr.Prelude.{◌≡◌, ◌≢◌, ◌⊎◌, refl, none, some, [], ◌∷◌, select_first, count_where}
use academia_cr.Models.{User, student, admin}
use academia_cr.Database.{Connection}
use academia_cr.Integrity.{RegistrationsSound}
use academia_cr.AuthService.{authenticate_request, validate_token}
use academia_cr.UserRepository.{validate_session, find_by_id}
use academia_cr.Text.{drop_prefix}
use academia_cr.CourseRepository.{get_enrolled_count}
use academia_cr.RegistrationService.{register_student, drop_student}
use academia_cr.Controllers.Registrations.{post_register, delete_register}
use academia_cr.Controllers.Admin.{post_user, put_user, delete_user}
use academia_cr.Controllers.Access.{register_routes_own, admin_routes}
use academia_cr.Controllers.Status.{post_register-status}
use academia_cr.Tests.{all_done, bob, demo, demo_tables, demo-Sound}

abbrev signed_in : Connection
signed_in = record demo {
  tables = record demo_tables {
    sessions = (record { token = "b0b"; user_id = 2; created_at = 0; expires_at = some 1000 }) ∷ [];
  };
}

signed_in-Sound : RegistrationsSound signed_in.tables
signed_in-Sound = record {
  pairs = demo-Sound.pairs;
  ids = demo-Sound.ids;
  fresh = demo-Sound.fresh;
  students = demo-Sound.students;
  courses = demo-Sound.courses;
}

knows_bob : authenticate_request signed_in.tables 20 "Bearer b0b" ≡ some bob
unfolding authenticate_request drop_prefix validate_token validate_session find_by_id select_first
knows_bob = refl

post_register-status_example : (post_register all_done 20 "Bearer b0b" 1 signed_in).0.status ≡ 409
unfolding select_first count_where get_enrolled_count
post_register-status_example =
    post_register-status all_done 20 1 "Bearer b0b" bob signed_in
      (record { begins = refl; commits = refl; updates = refl; inserts = refl }) refl
      signed_in-Sound knows_bob refl

register_routes_own_example :
    (((post_register all_done 20 "Bearer b0b" 1 signed_in).1 ≡ signed_in)
      × ((delete_register all_done 20 "Bearer b0b" 1 signed_in).1 ≡ signed_in))
    ⊎ ((u : User) × (authenticate_request signed_in.tables 20 "Bearer b0b" ≡ some u)
        × (u.role ≡ student)
        × ((post_register all_done 20 "Bearer b0b" 1 signed_in).1
            ≡ (register_student all_done 20 u.id 1 signed_in).1)
        × ((delete_register all_done 20 "Bearer b0b" 1 signed_in).1
            ≡ (drop_student all_done u.id 1 signed_in).1))
register_routes_own_example = register_routes_own all_done 20 1 "Bearer b0b" signed_in

admin_routes_example :
    (((post_user all_done 20 "Bearer b0b" none signed_in).1 ≡ signed_in)
      × ((put_user all_done 20 "Bearer b0b" 2 none signed_in).1 ≡ signed_in)
      × ((delete_user all_done 20 "Bearer b0b" 2 signed_in).1 ≡ signed_in))
    ⊎ ((u : User) × (authenticate_request signed_in.tables 20 "Bearer b0b" ≡ some u)
        × (u.role ≡ admin)
        × ((u.id ≢ 2) ⊎ ((delete_user all_done 20 "Bearer b0b" 2 signed_in).1 ≡ signed_in)))
admin_routes_example = admin_routes all_done 20 2 "Bearer b0b" none none signed_in
