-- ===== src/Middleware/Tests.antt =====
-- apps/api/app/middleware.py on requests whose headers are a dictionary.
use triage_assistant.Prelude.{
  arith, ◌⊎◌, eq_refl, ◌∙◌, ◌≡◌, refl, String, true, false, not, List, [], ◌∷◌, lookup, assign,
  lookup-assign, str_eq, some, Bool-cases, inl, inr,
}
use triage_assistant.Errors.{Response}
use triage_assistant.Middleware.{Headers, start, body, Run, Scope, request_id_of, call}
use triage_assistant.Middleware.Answered.{Answered, call-Answered}
use triage_assistant.Middleware.Marked.{Laws, IsId}

abbrev headers : Headers (List (String × String))
headers = record { set_header = assign }

get-assign_self :
    (name value : String) (h : List (String × String))
    → lookup name (assign name value h) ≡ some value
get-assign_self name value h = lookup-assign value h name name ∙ rw (eq_refl name) refl

get-assign_other :
    (name other value : String) (h : List (String × String))
    → not (str_eq other name) ≡ true
    → lookup name (assign other value h) ≡ lookup name h
get-assign_other name other value h d =
    lookup-assign value h other name ∙ elim (Bool-cases (str_eq other name)) [
      | inl e ↦ absurd (ground (arith, d, e))
      | inr e ↦ rw e refl
    ]

abbrev laws : Laws headers
laws = record {
  get_header = lookup;
  differs = λ name other. not (str_eq other name);
  get_set = get-assign_self;
  get_other = get-assign_other;
}

abbrev render : Response → List (String × String) × String
render r = (r.headers, r.message)

abbrev scope : Scope
scope = record {
  is_http = true;
  headers = ("x-request-id", "abc") ∷ [];
  response_headers = ("RateLimit-Limit", "5") ∷ [];
}

-- An app that raises before it answers.
abbrev failing : Run (List (String × String))
failing = record { sent = []; raised = true }

call_of_failing :
    (call headers render "0123456789abcdef" scope failing).sent
    ≡ start 500 (("X-Request-ID", "0123456789abcdef") ∷ ("RateLimit-Limit", "5") ∷ [])
      ∷ body "internal error" false
      ∷ []
unfolding call assign
call_of_failing = refl

call-Answered_example :
    (IsId (request_id_of "0123456789abcdef" scope)
      ⊎ (request_id_of "0123456789abcdef" scope ≡ "0123456789abcdef"))
    × Answered headers laws render
        (request_id_of "0123456789abcdef" scope)
        failing
        (call headers render "0123456789abcdef" scope failing)
call-Answered_example =
    call-Answered headers laws render "0123456789abcdef" scope failing refl (refl, tt)
