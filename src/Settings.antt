-- ===== src/Settings.antt =====
-- `Settings` of apps/api/app/config.py: the fields that a decision of the program reads. Timeouts,
-- sizes of pools and what only logs and traces read are left out.
pub mod Production
pub mod Load
mod Tests
use triage_assistant.Prelude.{ℕ, String, Bool, Option, List}

pub data AppEnv : Type 0 where
  dev : AppEnv
  test : AppEnv
  prod : AppEnv

pub record Settings : Type 0 where
  pub public_url : String
  pub session_cookie_secure : Bool
  pub session_max_age_s : ℕ
  pub session_idle_timeout_s : ℕ
  pub user_retention_days : Option ℕ
  pub alert_retention_days : Option ℕ
  pub oidc_issuer : String
  pub oidc_client_id : String
  pub agent_max_steps : ℕ
  pub rag_context_chunks : ℕ
  pub chat_context_alerts : ℕ
  pub chat_mode_agent : Bool
  pub embedding_model : Option String
  pub embedding_dimensions : Option ℕ
  pub embedding_document_prefix : String
  pub embedding_query_prefix : String
  pub app_env : AppEnv
  pub trace_content : Bool
  pub docs_enabled : Bool
  pub database_url : String
  pub redis_url : String
  pub ratelimit_window_s : ℕ
  pub alerts_rate_limit : ℕ
  pub chat_rate_limit : ℕ
  pub chat_rate_limit_fail_closed : Bool
  pub runbooks_rate_limit : ℕ
  pub auth_rate_limit : ℕ
  pub llm_base_url : String
  pub llm_api_key : String
  pub llm_model : String
  pub alertmanager_webhook_token : Option String
  pub oidc_discovery_url : Option String
  pub oidc_client_secret : String
  pub prod_checks_waived : List String
