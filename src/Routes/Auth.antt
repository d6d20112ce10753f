-- ===== src/Routes/Auth.antt =====
-- apps/api/app/routes/auth.py: signing in by the identity provider, and signing out.
mod Tests
pub mod Me
pub mod Landing
pub mod Replay
use triage_assistant.Prelude.{
  begins, ℕ, ◌+◌, String, Bool, true, false, not, ◌&&◌, ◌||◌, Option, none, some, List, [], ◌∷◌,
  ltb, ◌==◌, code, str_eq, if◌then◌else◌, ◌+++◌, text_length, is_empty, is_some, lookup, all_chars,
}
use triage_assistant.Settings.{Settings}
use triage_assistant.Http.{Result, ok, ◌>>=◌, ◌>>◌}
use triage_assistant.Models.{Db, LoginRequest}
use triage_assistant.Sessions.Cookies.{
  Cookie, session_cookie, login_cookie, set_cookie, clear_cookie,
}
use triage_assistant.Sessions.Login.{login_ttl_s, start_login, finish_login}
use triage_assistant.Sessions.SignIn.{Identity, sign_in}
use triage_assistant.Sessions.Active.{sign_out}
use triage_assistant.Sessions.Origin.{Parts, check_same_origin}
use triage_assistant.Sessions.Request.{Request, non_empty}

unfoldable pub is_landing : String → Bool
is_landing path =
    begins "/" path
    && not (begins "//" path)
    && not (begins "/\\" path)
    && not (ltb 2000 (text_length path))
    && all_chars (λ c. not (ltb c b' ')) path

unfoldable pub safe_next : String → String
unfolding is_landing
safe_next path = if is_landing path then path else "/"

pub record Redirect : Type 0 where
  pub location : String
  pub cookies : List Cookie

-- What the provider sends the browser back with.
pub record Returned : Type 0 where
  pub code : Option String
  pub state : Option String
  pub error : Option String
  pub iss : Option String

-- What the exchange of a code and the check of the ID token come to: the code of an `OIDCError`, or
-- an identity.
pub data Verified : Type 0 where
  refused : String → Verified
  verified : Identity → Verified

-- `quote` is the library's, `digest` the hash of a token; `identify code verifier nonce` is
-- `OIDCClient.exchange_code` with `OIDCClient.verify`.
module _ (quote : String → String) (digest : String → String)
    (identify : String → String → String → Verified) (settings : Settings) where
  unfoldable pub failed : String → Redirect
  failed error = record {
    location = "/?auth_error=" +++ quote error;
    cookies = clear_cookie settings (login_cookie settings) ∷ [];
  }

  -- `authorized` is the provider's URL for this sign-in, or the code of an `OIDCError`. None is a
  -- conflict in the table of sign-ins.
  unfoldable pub login :
      ℕ → String → String → String → Result String → String → Db → Option (Redirect × Db)
  unfolding failed
  login now state nonce verifier (Result.err e) next db = some (failed e.detail, db)
  login now state nonce verifier (Result.ok url) next db =
      elim (start_login digest now state nonce verifier (safe_next next) db) [
        | none ↦ none
        | some db' ↦ some (
          record {
            location = url;
            cookies = set_cookie settings (login_cookie settings) state login_ttl_s ∷ [];
          },
          db',
        )
      ]

  unfoldable pub end_old : Option String → Db → Db
  end_old none db = db
  end_old (some old) db = (sign_out digest old db).1

  unfoldable pub complete :
      ℕ → String → Option String → LoginRequest → Verified → Db → Redirect × Db
  unfolding failed end_old
  complete now token old pending (refused error) db = (failed error, db)
  complete now token old pending (verified identity) db = (
    record {
      location = pending.next_path;
      cookies =
          set_cookie settings (session_cookie settings) token settings.session_max_age_s
          ∷ clear_cookie settings (login_cookie settings)
          ∷ [];
    },
    (sign_in digest settings now token settings.oidc_issuer identity (end_old old db)).1,
  )

  unfoldable pub resume :
      ℕ → String → String → Option String → Option LoginRequest × Db → Redirect × Db
  unfolding failed complete
  resume now token code old (none, db) = (failed "expired", db)
  resume now token code old (some pending, db) =
      complete now token old pending (identify code pending.code_verifier pending.nonce) db

  -- The code and state, if the browser is the one that the state was given to.
  unfoldable pub bound : Request → Returned → Option (String × String)
  unfolding non_empty
  bound request r = elim (non_empty r.code) [
    | none ↦ none
    | some code ↦ elim (non_empty r.state) [
      | none ↦ none
      | some state ↦ elim (lookup (login_cookie settings) request.cookies) [
        | none ↦ none
        | some cookie ↦ if str_eq cookie state then some (code, state) else none
      ]
    ]
  ]

  unfoldable pub other_issuer : Option String → Bool
  other_issuer none = false
  other_issuer (some iss) = not (str_eq iss settings.oidc_issuer)

  unfoldable pub exchange : ℕ → String → Request → Option (String × String) → Db → Redirect × Db
  unfolding failed resume non_empty
  exchange now token request none db = (failed "invalid_state", db)
  exchange now token request (some (code, state)) db =
      resume now token code (non_empty (lookup (session_cookie settings) request.cookies))
        (finish_login digest now state db)

  unfoldable pub answered : ℕ → String → Request → Returned → Option String → Db → Redirect × Db
  unfolding failed exchange bound
  answered now token request r (some error) db =
      (failed (if str_eq error "access_denied" then "access_denied" else "login_failed"), db)
  answered now token request r none db = exchange now token request (bound request r) db

  -- `token` is the random one for the session.
  unfoldable pub callback : ℕ → String → Request → Returned → Db → Redirect × Db
  unfolding failed answered other_issuer
  callback now token request r db =
      if other_issuer r.iss
      then (failed "login_failed", db)
      else answered now token request r r.error db

  ended : Option String → Db → Option String × Db
  ended none db = (none, db)
  ended (some token) db = sign_out digest token db

  -- The ID token for the provider's sign-out, the cookie, and the database.
  unfoldable pub logout :
      (String → Option Parts) → Request → Db → Result (Option String × Cookie × Db)
  unfolding ended
  logout urlsplit request db = do
    check_same_origin urlsplit settings request.origin
    let (id_token, db') = ended (non_empty (lookup (session_cookie settings) request.cookies)) db
    ok (id_token, clear_cookie settings (session_cookie settings), db')
