-- ===== src/Settings/Load.antt =====
-- How apps/api/app/config.py reads the settings from the environment, and refuses them.
pub mod Values
pub mod Checks
pub mod Given
pub mod Refused
unfoldable pub use Values.*
use triage_assistant.Prelude.{
  ℕ, suc, ◌==◌, String, Bool, true, false, not, ◌&&◌, ◌||◌, Option, none, some, List, [], ◌∷◌, keep,
  map, any, code, leb, str_eq, is_empty, if◌then◌else◌, ◌+++◌,
}
use triage_assistant.Runbooks.Markdown.{Alphabet, strip, before_first}
use triage_assistant.Settings.{Settings, AppEnv, dev, test, prod}
use triage_assistant.Settings.Production.{Url, Urls, ◌>>=◌, production_checks, production_problems}

-- What comes of it: the settings; a setting that is missing or malformed; or settings that production
-- refuses, with what is wrong by name.
pub data Loading : Type 0 where
  loaded : Settings → Loading
  invalid : Loading
  unsafe : List (String × String) → Loading

-- The environment, by the names of the fields, and how pydantic reads numbers and Booleans; a number
-- below zero is none, as no field takes one.
pub record Environment : Type 0 where
  pub value : String → Option String
  pub number_of : String → Option ℕ
  pub bool_of : String → Option Bool

module _ (alphabet : Alphabet) where
  -- `_comma_separated`
  unfoldable pub comma_separated : Option String → List String
  unfolding split_commas strip
  comma_separated none = []
  comma_separated (some value) =
      keep (λ name. not (is_empty name)) (map (strip alphabet) (split_commas value))

  -- Every field by itself.
  unfoldable pub fields : Environment → Option Settings
  unfolding number_or number_if_any text_or text_if_any not_empty flag_or app_env_of in_production
      chat_mode_agent_of comma_separated
  fields env = do
    app_env ← app_env_of (env.value "app_env")
    trace_content ← flag_or env.bool_of false (env.value "trace_content")
    docs_enabled ← flag_or env.bool_of (not (in_production app_env)) (env.value "docs_enabled")
    database_url ← env.value "database_url"
    redis_url ← env.value "redis_url"
    ratelimit_window_s ← number_or env.number_of 60 1 none (env.value "ratelimit_window_s")
    alerts_rate_limit ← number_or env.number_of 60 1 none (env.value "alerts_rate_limit")
    chat_rate_limit ← number_or env.number_of 10 1 none (env.value "chat_rate_limit")
    fail_closed ←
        flag_or env.bool_of (in_production app_env) (env.value "chat_rate_limit_fail_closed")
    runbooks_rate_limit ← number_or env.number_of 60 1 none (env.value "runbooks_rate_limit")
    llm_base_url ← env.value "llm_base_url"
    llm_api_key ← env.value "llm_api_key"
    llm_model ← env.value "llm_model"
    chat_context_alerts ← number_or env.number_of 20 0 none (env.value "chat_context_alerts")
    chat_mode_agent ← chat_mode_agent_of (env.value "chat_mode")
    agent_max_steps ← number_or env.number_of 3 1 (some 10) (env.value "agent_max_steps")
    embedding_dimensions ← number_if_any env.number_of none (env.value "embedding_dimensions")
    rag_context_chunks ← number_or env.number_of 4 0 (some 20) (env.value "rag_context_chunks")
    public_url ← env.value "public_url"
    oidc_issuer ← not_empty (env.value "oidc_issuer")
    oidc_client_id ← not_empty (env.value "oidc_client_id")
    oidc_client_secret ← not_empty (env.value "oidc_client_secret")
    session_max_age_s ← number_or env.number_of 43200 60 none (env.value "session_max_age_s")
    session_idle_timeout_s ←
        number_or env.number_of 7200 60 none (env.value "session_idle_timeout_s")
    session_cookie_secure ← flag_or env.bool_of true (env.value "session_cookie_secure")
    auth_rate_limit ← number_or env.number_of 30 1 none (env.value "auth_rate_limit")
    user_retention_days ← number_if_any env.number_of (some 365) (env.value "user_retention_days")
    alert_retention_days ← number_if_any env.number_of (some 365) (env.value "alert_retention_days")
    some (record {
      public_url = public_url;
      session_cookie_secure = session_cookie_secure;
      session_max_age_s = session_max_age_s;
      session_idle_timeout_s = session_idle_timeout_s;
      user_retention_days = user_retention_days;
      alert_retention_days = alert_retention_days;
      oidc_issuer = oidc_issuer;
      oidc_client_id = oidc_client_id;
      agent_max_steps = agent_max_steps;
      rag_context_chunks = rag_context_chunks;
      chat_context_alerts = chat_context_alerts;
      chat_mode_agent = chat_mode_agent;
      embedding_model = text_if_any (env.value "embedding_model");
      embedding_dimensions = embedding_dimensions;
      embedding_document_prefix = text_or "" (env.value "embedding_document_prefix");
      embedding_query_prefix = text_or "" (env.value "embedding_query_prefix");
      app_env = app_env;
      trace_content = trace_content;
      docs_enabled = docs_enabled;
      database_url = database_url;
      redis_url = redis_url;
      ratelimit_window_s = ratelimit_window_s;
      alerts_rate_limit = alerts_rate_limit;
      chat_rate_limit = chat_rate_limit;
      chat_rate_limit_fail_closed = fail_closed;
      runbooks_rate_limit = runbooks_rate_limit;
      auth_rate_limit = auth_rate_limit;
      llm_base_url = llm_base_url;
      llm_api_key = llm_api_key;
      llm_model = llm_model;
      alertmanager_webhook_token = text_if_any (env.value "alertmanager_webhook_token");
      oidc_discovery_url = text_if_any (env.value "oidc_discovery_url");
      oidc_client_secret = oidc_client_secret;
      prod_checks_waived = comma_separated (env.value "prod_checks_waived");
    })

-- `_known_checks`
unfoldable pub known_checks : List String → Option (List String)
known_checks [] = some []
known_checks (name ∷ names) =
    let rest = known_checks names in
    if any (str_eq name) production_checks then (rest >>= (λ names. some (name ∷ names))) else none

unfoldable pub is_bare : Url → Bool
is_bare url =
    (str_eq url.scheme "http" || str_eq url.scheme "https")
    && not (is_empty url.netloc)
    && (str_eq url.path "" || str_eq url.path "/")

unfoldable pub bare_url : Url → Option String
unfolding is_bare
bare_url url = if is_bare url then some (url.scheme +++ "://" +++ url.netloc) else none

unfoldable pub is_waived : Settings → String × String → Bool
is_waived settings (name, what) = any (str_eq name) settings.prod_checks_waived

unfoldable pub judged : Settings → List (String × String) → Loading
judged settings [] = loaded settings
judged settings (p ∷ problems) = unsafe (p ∷ problems)

unfoldable pub judge : Settings → Option (List (String × String)) → Loading
unfolding is_waived judged
judge settings none = invalid
judge settings (some problems) = judged settings (keep (λ p. not (is_waived settings p)) problems)

module _ (urls : Urls) where
  -- `_origin_only`
  unfoldable pub origin_only : String → Option String
  unfolding bare_url
  origin_only value = do url ← urls.urlsplit value; bare_url url

  -- `_postgres_url`
  unfoldable pub postgres_url : String → Option String
  postgres_url value = do
    backend ← urls.backend_name value
    if str_eq backend "postgresql" then some value else none

  -- The fields with the checks of those that have one.
  unfoldable pub validated : Settings → Option Settings
  unfolding origin_only postgres_url known_checks
  validated fields = do
    database_url ← postgres_url fields.database_url
    public_url ← origin_only fields.public_url
    waived ← known_checks fields.prod_checks_waived
    some (record fields { public_url = public_url; prod_checks_waived = waived })

  unfoldable pub by_environment : AppEnv → Settings → Loading
  unfolding judge
  by_environment dev settings = loaded settings
  by_environment test settings = loaded settings
  by_environment prod settings = judge settings (production_problems urls settings)

  -- `_safe_for_production`
  unfoldable pub safe_for_production : Settings → Loading
  unfolding by_environment
  safe_for_production settings = by_environment settings.app_env settings

  unfoldable pub after_fields : Option Settings → Loading
  unfolding safe_for_production
  after_fields none = invalid
  after_fields (some settings) = safe_for_production settings

  -- `Settings()`
  unfoldable pub load : Alphabet → Environment → Loading
  unfolding fields validated after_fields
  load alphabet env = after_fields (fields alphabet env >>= validated)
