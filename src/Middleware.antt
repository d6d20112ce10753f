-- ===== src/Middleware.antt =====
-- apps/api/app/middleware.py: what stands round every request. Spans and metrics are left out.
mod Tests
pub mod Marked
pub mod Answered
use triage_assistant.Prelude.{
  map, any, ℕ, ◌==◌, String, Bool, true, false, not, ◌||◌, ◌&&◌, Option, none, some, List, [], ◌∷◌,
  ◌++◌, leb, code, all_chars, text_length, is_empty, str_eq, lookup, if◌then◌else◌,
}
use triage_assistant.Errors.{Response, error_response}

-- Response headers, as starlette's MutableHeaders has them.
pub record Headers (H : Type 0) : Type 0 where
  pub set_header : String → String → H → H

-- What an ASGI app sends.
pub data Message (H : Type 0) : Type 0 where
  start : ℕ → H → Message H
  body : String → Bool → Message H

-- A run of the app inside: what it sent, and whether it raised an exception then.
pub record Run (H : Type 0) : Type 0 where
  pub sent : List (Message H)
  pub raised : Bool

pub record Scope : Type 0 where
  pub is_http : Bool
  pub headers : List (String × String)
  pub response_headers : List (String × String)

unfoldable pub id_char : ℕ → Bool
id_char c =
    (leb b'A' c && leb c b'Z')
    || (leb b'a' c && leb c b'z')
    || (leb b'0' c && leb c b'9')
    || c == b'.'
    || c == b'_'
    || c == b'-'

-- `\A[A-Za-z0-9._-]{8,128}\Z`
unfoldable pub is_id : String → Bool
unfolding id_char
is_id s = all_chars id_char s && (leb 8 (text_length s) && leb (text_length s) 128)

-- Less one newline at the end, which `$` lets pass.
unfoldable pub chomp : String → String
chomp String.[] = String.[]
chomp (String.◌∷◌ c s) =
    let rest = String.◌∷◌ c (chomp s) in if is_empty s && code c == b'\n' then String.[] else rest

-- `_VALID_REQUEST_ID.match(s)`
unfoldable pub valid_request_id : String → Bool
unfolding is_id chomp
valid_request_id s = is_id (chomp s)

-- `dict(headers).get(name, default)`: of several, the last.
unfoldable pub header_or : String → String → List (String × String) → String
header_or default name [] = default
header_or default name ((n, v) ∷ rest) = header_or (if str_eq n name then v else default) name rest

-- `fresh` is a new id.
unfoldable pub request_id_of : String → Scope → String
unfolding valid_request_id header_or
request_id_of fresh scope =
    let incoming = header_or "" "x-request-id" scope.headers in
    if valid_request_id incoming then incoming else fresh

-- What the middleware sends, whether it lets the exception pass, and the status that is logged.
pub record Handled (H : Type 0) : Type 0 where
  pub sent : List (Message H)
  pub raised : Bool
  pub status : ℕ

unfoldable pub is_start : {H : Type 0} → Message H → Bool
is_start (start status h) = true
is_start (body text more) = false

-- The status of the last start, or what it was.
unfoldable pub status_of : {H : Type 0} → ℕ → List (Message H) → ℕ
status_of status [] = status
status_of status (start s h ∷ rest) = status_of s rest
status_of status (body text more ∷ rest) = status_of status rest

unfoldable pub internal_error : String → Response
unfolding error_response
internal_error request_id = error_response request_id 500 "internal_error" "internal error" [] none

-- A JSONResponse as it is sent: its headers, and its body as text.
unfoldable pub messages : {H : Type 0} → (Response → H × String) → Response → List (Message H)
messages render r = let (h, text) = render r in start r.status h ∷ body text false ∷ []

-- An exception from an app that had not begun to answer.
unfoldable pub is_unanswered : {H : Type 0} → Run H → Bool
unfolding is_start
is_unanswered run = run.raised && not (any is_start run.sent)

unfoldable pub late : {H : Type 0} → (Response → H × String) → String → Run H → List (Message H)
unfolding messages internal_error is_unanswered
late render request_id run =
    if is_unanswered run then messages render (internal_error request_id) else []

module _ {H : Type 0} (headers : Headers H) where
  unfoldable pub set_all : List (String × String) → H → H
  set_all [] h = h
  set_all ((name, value) ∷ rest) h = set_all rest (headers.set_header name value h)

  -- `send_wrapper`
  unfoldable pub wrap : String → List (String × String) → Message H → Message H
  unfolding set_all
  wrap request_id extra (start status h) =
      start status (set_all extra (headers.set_header "X-Request-ID" request_id h))
  wrap request_id extra (body text more) = body text more

  unfoldable pub answer : (Response → H × String) → String → Scope → Run H → Handled H
  unfolding wrap status_of late is_start
  answer render request_id scope run =
      let sent =
        map (wrap request_id scope.response_headers) (run.sent ++ late render request_id run) in
      record {
        sent = sent;
        raised = run.raised && any is_start run.sent;
        status = status_of 500 sent;
      }

  unfoldable pub call : (Response → H × String) → String → Scope → Run H → Handled H
  unfolding request_id_of answer
  call render fresh scope run =
      if scope.is_http
      then answer render (request_id_of fresh scope) scope run
      else record { sent = run.sent; raised = run.raised; status = 500 }
