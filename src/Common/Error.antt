-- ===== src/Common/Error.antt =====
-- crates/common/src/error.rs: the error type of the services and its RFC 7807 form.
mod Problem
pub mod Wire
mod Examples
mod UnitTests
use oa_libs.Base.{ℕ, Option, none, some, List, [], ◌∷◌, ◌++◌}
use oa_libs.Std.Text.{Text, codes}

-- struct FieldError; a literal is what `FieldError::new` builds.
pub record FieldError : Type 0 where
  pub field : Text
  pub message : Text

-- enum AppError. A constructor is also the function of its name in `impl AppError`, which only
-- converts its arguments to `String`; that of `internal` is the `Display` text of an error.
pub data AppError : Type 0 where
  bad_request unauthorized forbidden not_found conflict too_many_requests : Text → Text → AppError
  unprocessable : Text → Text → List FieldError → AppError
  internal : Text → AppError

-- The `Display` of the error, from its `#[error(…)]` attributes.
unfoldable pub to_string : AppError → Text
to_string (bad_request code detail) = detail
to_string (unauthorized code detail) = detail
to_string (forbidden code detail) = detail
to_string (not_found code detail) = detail
to_string (conflict code detail) = detail
to_string (too_many_requests code detail) = detail
to_string (unprocessable code detail errors) = detail
to_string (internal err) = codes "internal error: " ++ err

-- AppError::status, as a number.
unfoldable pub status : AppError → ℕ
status (bad_request code detail) = 400
status (unauthorized code detail) = 401
status (forbidden code detail) = 403
status (not_found code detail) = 404
status (conflict code detail) = 409
status (too_many_requests code detail) = 429
status (unprocessable code detail errors) = 422
status (internal err) = 500

-- AppError::code.
unfoldable pub error_code : AppError → Text
error_code (bad_request code detail) = code
error_code (unauthorized code detail) = code
error_code (forbidden code detail) = code
error_code (not_found code detail) = code
error_code (conflict code detail) = code
error_code (too_many_requests code detail) = code
error_code (unprocessable code detail errors) = code
error_code (internal err) = codes "INTERNAL"

-- struct ProblemDetails.
pub record ProblemDetails : Type 0 where
  pub type_uri : Text
  pub title : Text
  pub status : ℕ
  pub detail : Text
  pub instance_path : Option Text
  pub code : Text
  pub errors : Option (List FieldError)

-- The `match` of `AppError::problem`: title, detail and field errors.
summary : AppError → Text × Text × Option (List FieldError)
summary (bad_request code detail) = (codes "Bad Request", detail, none)
summary (unauthorized code detail) = (codes "Unauthorized", detail, none)
summary (forbidden code detail) = (codes "Forbidden", detail, none)
summary (not_found code detail) = (codes "Not Found", detail, none)
summary (conflict code detail) = (codes "Conflict", detail, none)
summary (too_many_requests code detail) = (codes "Too Many Requests", detail, none)
summary (unprocessable code detail errors) = (codes "Unprocessable Entity", detail, some errors)
summary (internal err) = (codes "Internal Server Error", codes "服务器内部错误", none)

abbrev pub errors_uri : Text
errors_uri = codes "https://club-oa.local/errors/"

-- AppError::problem.
unfoldable pub problem : AppError → ProblemDetails
unfolding summary status error_code
problem e = record {
  type_uri = errors_uri ++ error_code e;
  title = (summary e).0;
  status = status e;
  detail = (summary e).1;
  instance_path = none;
  code = error_code e;
  errors = (summary e).2;
}

-- The HTTP response that `into_response` builds.
pub record Response : Type 0 where
  pub status : ℕ
  pub body : ProblemDetails

-- IntoResponse::into_response: the response, and the lines that go to the error log.
unfoldable pub into_response : AppError → Response × List Text
unfolding problem
into_response e = (
  record { status = status e; body = problem e },
  elim e as (λ _. List Text) [ internal err ↦ err ∷ [] | _ ↦ [] ],
)
