-- ===== src/Sessions/Cookies.antt =====
-- The cookies of apps/api/app/sessions.py. A response's cookie is its name, and its value with a
-- lifetime in seconds; None deletes it.
use triage_assistant.Prelude.{ℕ, String, Bool, Option, none, some, if◌then◌else◌, ◌+++◌}
use triage_assistant.Settings.{Settings}

pub record Cookie : Type 0 where
  pub name : String
  pub value : Option (String × ℕ)
  pub secure : Bool

unfoldable pub cookie_name : String → Settings → String
cookie_name name settings = if settings.session_cookie_secure then "__Host-" +++ name else name

unfoldable pub session_cookie : Settings → String
unfolding cookie_name
session_cookie settings = cookie_name "triage_session" settings

unfoldable pub login_cookie : Settings → String
unfolding cookie_name
login_cookie settings = cookie_name "triage_login" settings

unfoldable pub set_cookie : Settings → String → String → ℕ → Cookie
set_cookie settings name value max_age = record {
  name = name;
  value = some (value, max_age);
  secure = settings.session_cookie_secure;
}

unfoldable pub clear_cookie : Settings → String → Cookie
clear_cookie settings name = record {
  name = name;
  value = none;
  secure = settings.session_cookie_secure;
}
