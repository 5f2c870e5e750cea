-- ===== src/Controllers.antt =====
-- backend/include/controllers/*.hpp: the routes that change the tables, from the Authorization header
-- and the request's data to the answer. Routing, reading JSON and writing JSON are the libraries':
-- a body comes as what the source reads from it, `none` where that throws a JSON exception.
pub mod Registrations
pub mod Courses
pub mod Admin
pub mod Auth
pub mod Access
pub mod Status
use academia_cr.Prelude.{ℕ, String, Bool, true, false, Option, ℤ}
use academia_cr.Models.{Role, admin, faculty, student, User, Course}

-- The data of an answer.
pub data Payload : Type 0 where
  no_data : Payload
  registration : ℕ → ℤ → Payload
  seats : ℤ → Payload
  one_course : Option Course → Payload
  one_user : Option User → Payload
  token_of : String → User → Payload

-- crow::response with the body of error_response or success_response
pub record Response : Type 0 where
  pub status : ℕ
  pub success : Bool
  pub message : String
  pub data_of : Payload

-- error_response
abbrev pub error_response : String → ℕ → Response
error_response message status = record {
  status = status;
  success = false;
  message = message;
  data_of = no_data;
}

-- success_response
abbrev pub success_response : Payload → String → ℕ → Response
success_response payload message status = record {
  status = status;
  success = true;
  message = message;
  data_of = payload;
}

abbrev pub is_student : Role → Bool
is_student student = true
is_student _ = false
