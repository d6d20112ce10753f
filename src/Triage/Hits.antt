-- ===== src/Triage/Hits.antt =====
-- A section that a search found: `Hit` of apps/api/app/runbooks.py. Its score, ranks and distance stand
-- beside it where the search gives them, as no prompt or answer reads them.
use triage_assistant.Prelude.{ℕ, String}

pub record Hit : Type 0 where
  pub chunk_id : ℕ
  pub runbook_id : ℕ
  pub team : String
  pub title : String
  pub heading : String
  pub content : String
  pub updated_at : ℕ
  pub runbook_sha256 : String
