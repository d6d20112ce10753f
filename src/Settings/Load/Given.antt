-- ===== src/Settings/Load/Given.antt =====
-- Where apps/api/app/config.py reads the public URL.
use triage_assistant.Prelude.{true, false, ◌≡◌, refl, subst, not, Option, none, some}
use triage_assistant.Runbooks.Markdown.{Alphabet}
use triage_assistant.Settings.{Settings}
use triage_assistant.Settings.Production.{◌>>=◌}
use triage_assistant.Settings.Load.{
  not_empty, number_if_any, chat_mode_agent_of, number_or, in_production, flag_or, app_env_of,
  Environment, fields,
}

-- What holds of the value of an option, if it has one.
abbrev pub Every : {A : Type 0} → (A → Type 0) → Option A → Type 0
Every P none = Unit
Every P (some a) = P a

Every->>= :
    {A B : Type 0} (P : B → Type 0) (o : Option A) (f : A → Option B)
    → ((a : A) → o ≡ some a → Every P (f a))
    → Every P (o >>= f)
Every->>= P none f h = tt
Every->>= P (some a) f h = h a refl

pub Every_at : {A : Type 0} (P : A → Type 0) (o : Option A) (a : A) → Every P o → o ≡ some a → P a
Every_at P o a h e = subst (Every P) e h

-- Each field is read from its own variable: here, the public URL.
pub fields-given :
    (alphabet : Alphabet) (env : Environment)
    → Every (λ (s : Settings). env.value "public_url" ≡ some s.public_url) (fields alphabet env)
unfolding fields
fields-given alphabet env =
    let P = λ (s : Settings). env.value "public_url" ≡ some s.public_url in
    Every->>= P (app_env_of (env.value "app_env")) _ (λ app_env _.
      Every->>= P (flag_or env.bool_of false (env.value "trace_content")) _ (λ _ _.
        Every->>= P (flag_or env.bool_of (not (in_production app_env)) (env.value "docs_enabled")) _
          (λ _ _. Every->>= P (env.value "database_url") _ (λ _ _.
            Every->>= P (env.value "redis_url") _ (λ _ _.
              Every->>= P (number_or env.number_of 60 1 none (env.value "ratelimit_window_s")) _
                (λ _ _.
                  Every->>= P (number_or env.number_of 60 1 none (env.value "alerts_rate_limit")) _
                    (λ _ _.
                      Every->>= P (number_or env.number_of 10 1 none (env.value "chat_rate_limit"))
                        _
                        (λ _ _.
                          Every->>= P
                            (flag_or env.bool_of (in_production app_env)
                              (env.value "chat_rate_limit_fail_closed"))
                            _
                            (λ _ _.
                              Every->>= P
                                (number_or env.number_of 60 1 none
                                  (env.value "runbooks_rate_limit"))
                                _
                                (λ _ _. Every->>= P (env.value "llm_base_url") _ (λ _ _.
                                  Every->>= P (env.value "llm_api_key") _ (λ _ _.
                                    Every->>= P (env.value "llm_model") _ (λ _ _.
                                      Every->>= P
                                        (number_or env.number_of 20 0 none
                                          (env.value "chat_context_alerts"))
                                        _
                                        (λ _ _.
                                          Every->>= P (chat_mode_agent_of (env.value "chat_mode")) _
                                            (λ _ _.
                                              Every->>= P
                                                (number_or env.number_of 3 1 (some 10)
                                                  (env.value "agent_max_steps"))
                                                _
                                                (λ _ _.
                                                  Every->>= P
                                                    (number_if_any env.number_of none
                                                      (env.value "embedding_dimensions"))
                                                    _
                                                    (λ _ _.
                                                      Every->>= P
                                                        (number_or env.number_of 4 0 (some 20)
                                                          (env.value "rag_context_chunks"))
                                                        _
                                                        (λ _ _.
                                                          Every->>= P (env.value "public_url") _
                                                            (λ public_url given.
                                                            Every->>= P
                                                            (not_empty (env.value "oidc_issuer")) _
                                                            (λ _ _.
                                                            Every->>= P
                                                            (not_empty (env.value "oidc_client_id"))
                                                            _
                                                            (λ _ _.
                                                            Every->>= P
                                                            (not_empty
                                                            (env.value "oidc_client_secret"))
                                                            _
                                                            (λ _ _.
                                                            Every->>= P
                                                            (number_or env.number_of 43200 60 none
                                                            (env.value "session_max_age_s"))
                                                            _
                                                            (λ _ _.
                                                            Every->>= P
                                                            (number_or env.number_of 7200 60 none
                                                            (env.value "session_idle_timeout_s"))
                                                            _
                                                            (λ _ _.
                                                            Every->>= P
                                                            (flag_or env.bool_of true
                                                            (env.value "session_cookie_secure"))
                                                            _
                                                            (λ _ _.
                                                            Every->>= P
                                                            (number_or env.number_of 30 1 none
                                                            (env.value "auth_rate_limit"))
                                                            _
                                                            (λ _ _.
                                                            Every->>= P
                                                            (number_if_any env.number_of (some 365)
                                                            (env.value "user_retention_days"))
                                                            _
                                                            (λ _ _.
                                                            Every->>= P
                                                            (number_if_any env.number_of (some 365)
                                                            (env.value "alert_retention_days"))
                                                            _
                                                            (λ _ _.
                                                            given))))))))))))))))))))))))))))
