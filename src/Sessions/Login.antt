-- ===== src/Sessions/Login.antt =====
-- A sign-in in progress, between the redirect to the identity provider and back: `start_login` and
-- `finish_login` of apps/api/app/sessions.py.
pub mod Once
use triage_assistant.Prelude.{
  ℕ, ◌+◌, ◌*◌, String, Bool, not, ◌&&◌, Option, none, some, List, [], ◌∷◌, ◌++◌, ltb, str_eq,
  if◌then◌else◌, find, keep, any,
}
use triage_assistant.Models.{Db, LoginRequest, second}

abbrev pub login_ttl_s : ℕ
login_ttl_s = 600

abbrev pub unexpired : ℕ → LoginRequest → Bool
unexpired now r = not (ltb r.expires_at now)

-- `digest` is the hash of a token.
module _ (digest : String → String) where
  abbrev pub has_state : String → LoginRequest → Bool
  has_state state r = str_eq r.state_hash (digest state)

  abbrev pub new_request : ℕ → String → String → String → String → LoginRequest
  new_request now state nonce code_verifier next_path = record {
    state_hash = digest state;
    nonce = nonce;
    code_verifier = code_verifier;
    next_path = next_path;
    expires_at = now + login_ttl_s * second;
  }

  -- None is a conflict with the table's primary key.
  unfoldable pub start_login : ℕ → String → String → String → String → Db → Option Db
  start_login now state nonce code_verifier next_path db =
      let kept = keep (unexpired now) db.login_requests in
      if any (has_state state) kept
      then none
      else some (record db {
        login_requests = kept ++ new_request now state nonce code_verifier next_path ∷ [];
      })

  abbrev pub usable : ℕ → String → LoginRequest → Bool
  usable now state r = has_state state r && ltb now r.expires_at

  unfoldable pub finish_login : ℕ → String → Db → Option LoginRequest × Db
  finish_login now state db = (
    find (usable now state) db.login_requests,
    record db { login_requests = keep (λ r. not (usable now state r)) db.login_requests },
  )
