-- ===== src/Samples.antt =====
-- Small inputs for the tests: settings, a database and what stands for the libraries.
use triage_assistant.Prelude.{
  ℕ, String, Bool, true, false, Option, none, some, [], ◌∷◌, str_eq, if◌then◌else◌,
}
use triage_assistant.Settings.{Settings, test}
use triage_assistant.Access.Group.{viewer, responder}
use triage_assistant.Access.Roles.{Principal}
use triage_assistant.Audit.{Context}
use triage_assistant.Models.{Db, User, UserSession, Alert}
use triage_assistant.Sessions.Origin.{Parts}

abbrev pub settings : Settings
settings = record {
  public_url = "https://triage.example.com";
  session_cookie_secure = true;
  session_max_age_s = 43200;
  session_idle_timeout_s = 3600;
  user_retention_days = some 365;
  alert_retention_days = some 90;
  oidc_issuer = "https://idp.example.com";
  oidc_client_id = "triage";
  agent_max_steps = 2;
  rag_context_chunks = 4;
  chat_context_alerts = 10;
  chat_mode_agent = false;
  embedding_model = none;
  embedding_dimensions = none;
  embedding_document_prefix = "";
  embedding_query_prefix = "";
  app_env = test;
  trace_content = false;
  docs_enabled = true;
  database_url = "postgresql://app:pw@db/triage";
  redis_url = "redis://:pw@redis:6379/0";
  ratelimit_window_s = 60;
  alerts_rate_limit = 60;
  chat_rate_limit = 10;
  chat_rate_limit_fail_closed = false;
  runbooks_rate_limit = 60;
  auth_rate_limit = 30;
  llm_base_url = "https://llm.example.com/v1";
  llm_api_key = "k";
  llm_model = "gpt";
  alertmanager_webhook_token = none;
  oidc_discovery_url = none;
  oidc_client_secret = "s";
  prod_checks_waived = [];
}

abbrev pub context : ℕ → Context
context now = record { now = now; request_id = "-"; trace_id = none }

abbrev pub an_alert : ℕ → ℕ → ℕ → String → Alert
an_alert id team_id created_at severity = record {
  id = id;
  team_id = team_id;
  source = "prometheus";
  severity = severity;
  message = "disk full";
  created_at = created_at;
  external_id = none;
}

abbrev pub alice : User
alice = record {
  id = 7;
  issuer = "https://idp.example.com";
  subject = "a";
  email = some "alice@example.com";
  name = none;
  is_org_admin = false;
  created_at = 10;
  last_login_at = 20;
}

abbrev pub session : UserSession
session = record {
  id_hash = "t";
  user_id = 7;
  created_at = 1000;
  last_seen_at = 1000;
  expires_at = 40000000000;
  id_token = none;
}

abbrev pub db : Db
db = record {
  teams =
      record { id = 1; slug = "default"; name = "default" }
      ∷ record { id = 2; slug = "payments"; name = "payments" }
      ∷ [];
  users = alice ∷ [];
  memberships = record { user_id = 7; team_id = 2; role = responder } ∷ [];
  sessions = session ∷ [];
  login_requests = [];
  alerts = an_alert 3 2 50 "high" ∷ an_alert 4 1 60 "info" ∷ an_alert 5 2 70 "high" ∷ [];
  runbooks = [];
  runbook_chunks = [];
  audit_events = [];
  assistant_switch = record { enabled = true; reason = none; changed_by = none; changed_at = 0 };
  next_id = 20;
}

abbrev pub operator : Principal
operator = record { user_id = 9; email = none; name = none; org_admin = true; teams = [] }

-- A viewer of one of the two teams.
abbrev pub member : Principal
member = record {
  user_id = 7;
  email = none;
  name = none;
  org_admin = false;
  teams = record { id = 2; slug = "payments"; name = "payments"; role = viewer } ∷ [];
}

-- The hash of a text that stands for itself.
abbrev pub same_text : String → String
same_text s = s

-- An order of texts; the samples have one team each.
abbrev pub any_order : String → String → Bool
any_order a b = true

-- The only URL that is read is the public one.
abbrev pub urlsplit : String → Option Parts
urlsplit url =
    if str_eq url "https://triage.example.com"
    then some (record {
      scheme = "https";
      hostname = some "triage.example.com";
      username = none;
      port = none;
      path = "";
      query = "";
      fragment = "";
    })
    else none
