-- ===== src/Settings/Tests.antt =====
-- Settings of apps/api/app/config.py read from small environments.
use triage_assistant.Prelude.{
  ◌≡◌, refl, String, true, false, Option, none, some, List, [], ◌∷◌, map, str_eq, if◌then◌else◌,
}
use triage_assistant.Runbooks.Markdown.{Alphabet}
use triage_assistant.Settings.{Settings, prod}
use triage_assistant.Settings.Production.{
  secrets, oidc_metadata_url, host, production_problems, Url, Urls,
}
use triage_assistant.Settings.Load.{Loading, loaded, invalid, unsafe, Environment, load}
use triage_assistant.Settings.Load.Checks.{Production}
use triage_assistant.Settings.Load.Refused.{load-Production}

abbrev ascii : Alphabet
ascii = record { is_space = λ c. false; is_break = λ c. false; casefold = λ s. s }

abbrev a_url : String → String → String → Option String → Url
a_url scheme netloc hostname password = record {
  scheme = scheme;
  netloc = netloc;
  hostname = some hostname;
  password = password;
  path = "";
}

abbrev urls : Urls
urls = record {
  urlsplit = λ s.
      (if str_eq s "https://triage.example.com/"
        then some (a_url "https" "triage.example.com" "triage.example.com" none)
        else if str_eq s "https://triage.example.com"
        then some (a_url "https" "triage.example.com" "triage.example.com" none)
        else if str_eq s "http://localhost:5173"
        then some (a_url "http" "localhost:5173" "localhost" none)
        else some (a_url "https" "example.com" "example.com" (some "pw")));
  lower = λ s. s;
  backend_name = λ s. some "postgresql";
}

-- An environment by its pairs; numbers and Booleans are not given.
abbrev value_in : List (String × String) → String → Option String
value_in [] name = none
value_in ((n, v) ∷ rest) name =
    let later = value_in rest name in if str_eq n name then some v else later

abbrev environment : String → String → Environment
environment public_url waived = record {
  value = value_in (
      ("app_env", "prod")
      ∷ ("public_url", public_url)
      ∷ ("database_url", "postgresql://app:pw@db/triage")
      ∷ ("redis_url", "redis://redis")
      ∷ ("llm_base_url", "https://llm")
      ∷ ("llm_api_key", "k")
      ∷ ("llm_model", "gpt")
      ∷ ("oidc_issuer", "https://idp")
      ∷ ("oidc_client_id", "triage")
      ∷ ("oidc_client_secret", "change-me")
      ∷ ("prod_checks_waived", waived)
      ∷ []);
  number_of = λ s. none;
  bool_of = λ s. none;
}

abbrev names_of : Loading → List String
names_of (loaded s) = "loaded" ∷ []
names_of invalid = "invalid" ∷ []
names_of (unsafe problems) = map (λ p. p.0) problems

refused_names :
    names_of (load urls ascii (environment "http://localhost:5173" "insecure_cookies"))
    ≡ "localhost_url" ∷ "example_secret" ∷ []
unfolding load production_problems host oidc_metadata_url secrets
refused_names = refl

unknown_waiver :
    load urls ascii (environment "https://triage.example.com/" "example_secrets") ≡ invalid
unfolding load production_problems host oidc_metadata_url secrets
unknown_waiver = refl

abbrev started : Settings
started = record {
  public_url = "https://triage.example.com";
  session_cookie_secure = true;
  session_max_age_s = 43200;
  session_idle_timeout_s = 7200;
  user_retention_days = some 365;
  alert_retention_days = some 365;
  oidc_issuer = "https://idp";
  oidc_client_id = "triage";
  agent_max_steps = 3;
  rag_context_chunks = 4;
  chat_context_alerts = 20;
  chat_mode_agent = false;
  embedding_model = none;
  embedding_dimensions = none;
  embedding_document_prefix = "";
  embedding_query_prefix = "";
  app_env = prod;
  trace_content = false;
  docs_enabled = false;
  database_url = "postgresql://app:pw@db/triage";
  redis_url = "redis://redis";
  ratelimit_window_s = 60;
  alerts_rate_limit = 60;
  chat_rate_limit = 10;
  chat_rate_limit_fail_closed = true;
  runbooks_rate_limit = 60;
  auth_rate_limit = 30;
  llm_base_url = "https://llm";
  llm_api_key = "k";
  llm_model = "gpt";
  alertmanager_webhook_token = none;
  oidc_discovery_url = none;
  oidc_client_secret = "change-me";
  prod_checks_waived = "example_secret" ∷ [];
}

load-Production_example : Production urls (some "https://triage.example.com/") started
unfolding load production_problems host oidc_metadata_url secrets
load-Production_example =
    load-Production urls ascii (environment "https://triage.example.com/" "example_secret") started
      refl refl
