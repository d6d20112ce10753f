-- ===== src/Errors.antt =====
-- apps/api/app/errors.py: one shape for every failure.
use triage_assistant.Prelude.{
  ℕ, ◌==◌, String, Bool, ◌||◌, Option, none, some, List, [], ◌∷◌, begins, any, if◌then◌else◌,
}
use triage_assistant.Http.{Failure}

-- What is answered: the body is `{"error": {code, message, request_id}}`, with details where the
-- request was invalid.
pub record Response : Type 0 where
  pub status : ℕ
  pub code : String
  pub message : String
  pub request_id : String
  pub details : Option String
  pub headers : List (String × String)

-- `_CODES.get(status, "error")`
unfoldable pub code_of : ℕ → String
code_of status =
    if status == 400
    then "bad_request"
    else if status == 401
    then "unauthenticated"
    else if status == 403
    then "forbidden"
    else if status == 404
    then "not_found"
    else if status == 405
    then "method_not_allowed"
    else if status == 429
    then "rate_limited"
    else "error"

-- What a handler may raise: an HTTPException, a RequestValidationError with its errors, a connection
-- that failed, another error of the database's driver, or anything else.
pub data Raised : Type 0 where
  http : Failure → Raised
  invalid : String → Raised
  unreachable : Raised
  dbapi : Bool → Option String → Raised
  other : Raised

unfoldable pub error_response :
    String → ℕ → String → String → List (String × String) → Option String → Response
error_response request_id status code message headers details = record {
  status = status;
  code = code;
  message = message;
  request_id = request_id;
  details = details;
  headers = headers;
}

-- An ApiError has a code of its own.
unfoldable pub own_code : ℕ → Option String → String
unfolding code_of
own_code status none = code_of status
own_code status (some code) = code

unfoldable pub http_response : String → Failure → Response
unfolding own_code error_response
http_response request_id e =
    error_response request_id e.status (own_code e.status e.code) e.detail e.headers none

unfoldable pub validation_error : String → String → Response
unfolding error_response
validation_error request_id errors =
    error_response request_id 422 "validation_error" "request body or parameters are invalid" []
      (some errors)

unfoldable pub database_unavailable : String → Response
unfolding error_response
database_unavailable request_id =
    error_response request_id 503 "database_unavailable" "database unavailable, retry shortly"
      (("Retry-After", "5") ∷ []) none

abbrev pub unavailable_sqlstates : List String
unavailable_sqlstates = "08" ∷ "57P01" ∷ "57P02" ∷ "57P03" ∷ "53300" ∷ []

unfoldable pub state_text : Option String → String
state_text none = ""
state_text (some s) = s

unfoldable pub connection_failed : Bool → Option String → Bool
unfolding state_text
connection_failed invalidated sqlstate =
    invalidated || any (λ p. begins p (state_text sqlstate)) unavailable_sqlstates

-- What is answered; None where the exception goes on to the middleware.
unfoldable pub handle : String → Raised → Option Response
unfolding http_response validation_error database_unavailable connection_failed
handle request_id (http e) = some (http_response request_id e)
handle request_id (invalid errors) = some (validation_error request_id errors)
handle request_id unreachable = some (database_unavailable request_id)
handle request_id (dbapi invalidated sqlstate) =
    if connection_failed invalidated sqlstate then some (database_unavailable request_id) else none
handle request_id other = none
