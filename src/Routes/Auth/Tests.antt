-- ===== src/Routes/Auth/Tests.antt =====
-- The theorems on apps/api/app/routes/auth.py at small inputs.
use triage_assistant.Prelude.{refl, String, some, none, [], ◌∷◌, arith, lookup}
use triage_assistant.Models.{Db}
use triage_assistant.Samples.{settings, db, same_text}
use triage_assistant.Sessions.Login.{new_request}
use triage_assistant.Sessions.Cookies.{login_cookie, cookie_name}
use triage_assistant.Sessions.Request.{Request, non_empty}
use triage_assistant.Routes.Auth.{
  Returned, Verified, verified, bound, other_issuer, callback, safe_next,
}
use triage_assistant.Routes.Auth.Landing.{OnSite, safe_next-OnSite}
use triage_assistant.Routes.Auth.Replay.{SameAccounts, callback_twice}

safe_next-OnSite_example : OnSite (safe_next "//evil.example")
safe_next-OnSite_example = safe_next-OnSite "//evil.example"

abbrev identify : String → String → String → Verified
identify code verifier nonce =
    verified
      (record { subject = "a"; email = none; name = none; groups = []; id_token = some code })

abbrev request : Request
request = record { method = "GET"; cookies = ("__Host-triage_login", "s") ∷ []; origin = none }

abbrev returned : Returned
returned = record { code = some "c"; state = some "s"; error = none; iss = none }

abbrev started : Db
started = record db { login_requests = new_request same_text 5 "s" "n" "v" "/" ∷ [] }

callback_twice_example :
    SameAccounts same_text same_text identify settings
      (callback same_text same_text identify settings 7 "u" request returned
        (callback same_text same_text identify settings 6 "t" request returned started).1).1
      (callback same_text same_text identify settings 6 "t" request returned started).1
unfolding other_issuer bound non_empty login_cookie cookie_name lookup
callback_twice_example =
    callback_twice same_text same_text identify settings 6 7 "t" "u" request request returned
      returned "c" "c" "s" started refl refl refl refl (omega arith)
