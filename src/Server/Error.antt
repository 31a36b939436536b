-- ===== src/Server/Error.antt =====
-- error.rs of crates/failsafe-server: the errors of a request and the answers that they become. The
-- text of a database error is that of the database library.
use failsafe.Prelude.{ℕ, String}
use failsafe.Prelude.Strings.{append}

pub data AuthError : Type 0 where
  invalid_credentials invalid_token hashing_failed : AuthError
  jwt : String → AuthError

pub data ServerError : Type 0 where
  unauthorized not_found forbidden : ServerError
  conflict bad_request forbidden_message : String → ServerError
  database : String → ServerError
  auth_error : AuthError → ServerError
  internal : String → ServerError

-- A status and the `error` of the JSON body.
pub record Response : Type 0 where
  pub status : ℕ
  pub error : String

abbrev hidden : Response
hidden = record { status = 500; error = "internal server error" }

unfoldable pub into_response : ServerError → Response
into_response unauthorized = record { status = 401; error = "unauthorized" }
into_response not_found = record { status = 404; error = "not found" }
into_response forbidden = record { status = 403; error = "forbidden" }
into_response (conflict message) = record { status = 409; error = message }
into_response (bad_request message) = record { status = 400; error = message }
into_response (forbidden_message message) = record {
  status = 403;
  error = append "forbidden: " message;
}
into_response (database e) = hidden
into_response (auth_error invalid_credentials) = record {
  status = 401;
  error = "invalid credentials";
}
into_response (auth_error invalid_token) = record { status = 401; error = "invalid token" }
into_response (auth_error hashing_failed) = hidden
into_response (auth_error (jwt e)) = hidden
into_response (internal e) = hidden
