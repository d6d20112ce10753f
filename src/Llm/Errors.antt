-- ===== src/Llm/Errors.antt =====
-- The errors of apps/api/app/llm.py, and `_provider_errors`, which makes them of the SDK's.
use triage_assistant.Prelude.{ℕ, String, ◌+++◌}
use triage_assistant.Prelude.Numbers.{decimal}
use triage_assistant.Triage.Events.{Problem, llm_error}

-- The SDK's exceptions, each by its most special class: a timeout is a connection error too, and the
-- rate limit and the server's failures are errors of a status.
pub data SdkError : Type 0 where
  timeout : SdkError
  connection : SdkError
  rate_limit : SdkError
  internal_server : SdkError
  bad_status : ℕ → SdkError
  other_api_error : SdkError

-- `what` is the model that was asked.
unfoldable pub provider_error : String → SdkError → Problem
provider_error what timeout = llm_error "llm_timeout" (what +++ " took too long to respond")
provider_error what rate_limit =
    llm_error "llm_rate_limited" "the model provider is rate limiting us"
provider_error what connection = llm_error "llm_unavailable" "the model provider is unavailable"
provider_error what internal_server =
    llm_error "llm_unavailable" "the model provider is unavailable"
provider_error what (bad_status n) =
    llm_error "llm_error" ("the model provider rejected the request (" +++ decimal n +++ ")")
provider_error what other_api_error =
    llm_error "llm_unavailable" "the model provider failed mid-answer"
