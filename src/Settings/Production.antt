-- ===== src/Settings/Production.antt =====
-- `production_problems` of apps/api/app/config.py: what production refuses. None is the ValueError of a
-- URL that urlsplit refuses.
use triage_assistant.Prelude.{
  ◌==◌, String, Bool, not, ◌&&◌, ◌||◌, Option, none, some, List, [], ◌∷◌, ◌++◌, any, code, str_eq,
  begins, is_empty, if◌then◌else◌, ◌+++◌,
}
use triage_assistant.Settings.{Settings}

-- What `urlsplit` finds in a URL.
pub record Url : Type 0 where
  pub scheme : String
  pub netloc : String
  pub hostname : Option String
  pub password : Option String
  pub path : String

-- The libraries: urlsplit, the lower case of a text, and the name of a database URL's backend.
pub record Urls : Type 0 where
  pub urlsplit : String → Option Url
  pub lower : String → String
  pub backend_name : String → Option String

infixl 5 ◌>>=◌
abbrev pub ◌>>=◌ {ℓ κ} : {A : Type ℓ} {B : Type κ} → Option A → (A → Option B) → Option B
none >>= next = none
some a >>= next = next a

abbrev pub production_checks : List String
production_checks =
    "localhost_url" ∷ "insecure_cookies" ∷ "mock_model" ∷ "demo_identity_provider"
    ∷ "example_secret" ∷ "trace_content" ∷ []

abbrev pub local_hosts : List String
local_hosts = "localhost" ∷ "127.0.0.1" ∷ "::1" ∷ []

-- `s.endswith(suffix)`
abbrev pub ends : String → String → Bool
ends suffix String.[] = is_empty suffix
ends suffix (String.◌∷◌ c s) = str_eq suffix (String.◌∷◌ c s) || ends suffix s

unfoldable pub is_local : String → Bool
is_local host = any (str_eq host) local_hosts || ends ".localhost" host

unfoldable pub text_or_empty : Option String → String
text_or_empty none = ""
text_or_empty (some s) = s

-- `url.rstrip("/")`
unfoldable pub without_slashes : String → String
without_slashes String.[] = String.[]
without_slashes (String.◌∷◌ c s) =
    let rest = without_slashes s in
    if is_empty rest && code c == b'/' then String.[] else String.◌∷◌ c rest

-- An empty discovery URL is read as none; `or` takes the default for either.
unfoldable pub oidc_metadata_url : Settings → String
unfolding text_or_empty without_slashes
oidc_metadata_url settings =
    let given = text_or_empty settings.oidc_discovery_url in
    if is_empty given
    then without_slashes settings.oidc_issuer +++ "/.well-known/openid-configuration"
    else given

unfoldable pub oidc_redirect_uri : Settings → String
oidc_redirect_uri settings = settings.public_url +++ "/api/auth/callback"

unfoldable pub if_any : Option String → List String
if_any none = []
if_any (some s) = s ∷ []

-- A password that is there and not empty.
unfoldable pub password_in : Option String → List String
password_in none = []
password_in (some password) = if is_empty password then [] else password ∷ []

-- One more problem, if there is one.
unfoldable pub add_problem :
    Bool → String → String → List (String × String) → List (String × String)
add_problem b name what rest = if b then (name, what) ∷ rest else rest

unfoldable pub insecure_cookies : Settings → Bool
insecure_cookies settings =
    not settings.session_cookie_secure || begins "http://" settings.public_url

unfoldable pub mock_model : Settings → String → Bool
unfolding text_or_empty
mock_model settings llm_host =
    str_eq llm_host "mock-llm"
    || begins "mock" settings.llm_model
    || begins "mock" (text_or_empty settings.embedding_model)

unfoldable pub problems_of :
    Settings → String → String → String → List String → List (String × String)
unfolding is_local add_problem insecure_cookies mock_model
problems_of settings public llm_host idp_host values =
    add_problem (is_local public) "localhost_url"
      ("PUBLIC_URL is " +++ settings.public_url
        +++ ": no other machine reaches it, and sign-in redirects there. Set the address users open.")
      (add_problem (insecure_cookies settings) "insecure_cookies"
        "session cookies would travel over plain HTTP: PUBLIC_URL must be https:// and SESSION_COOKIE_SECURE true."
        (add_problem (mock_model settings llm_host) "mock_model"
          "LLM_* or EMBEDDING_MODEL name the mock: set the provider's, and drop \"mock\" from COMPOSE_PROFILES."
          (add_problem (str_eq idp_host "keycloak") "demo_identity_provider"
            "sign-in goes to the bundled Keycloak and its demo users: set OIDC_* to the organisation's provider, and drop \"idp\" from COMPOSE_PROFILES."
            (add_problem (any (begins "change-me") values) "example_secret"
              "a secret still has .env.example's value (change-me...): generate each, e.g. openssl rand -hex 24."
              (add_problem settings.trace_content "trace_content"
                "TRACE_CONTENT=true puts questions and answers on spans, which everyone who reads traces can read, across teams."
                [])))))

module _ (urls : Urls) where
  unfoldable pub host : String → Option String
  unfolding text_or_empty
  host url = do parts ← urls.urlsplit url; some (urls.lower (text_or_empty parts.hostname))

  unfoldable pub secrets : Settings → Option (List String)
  unfolding if_any password_in
  secrets settings = do
    database ← urls.urlsplit settings.database_url
    redis ← urls.urlsplit settings.redis_url
    some (
        settings.oidc_client_secret
        ∷ settings.llm_api_key
        ∷ (if_any settings.alertmanager_webhook_token
            ++ password_in database.password
            ++ password_in redis.password))

  unfoldable pub production_problems : Settings → Option (List (String × String))
  unfolding problems_of
  production_problems settings = do
    public ← host settings.public_url
    llm_host ← host settings.llm_base_url
    idp_host ← host (oidc_metadata_url settings)
    values ← secrets settings
    some (problems_of settings public llm_host idp_host values)
