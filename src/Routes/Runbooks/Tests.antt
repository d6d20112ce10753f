-- ===== src/Routes/Runbooks/Tests.antt =====
-- The theorems on the runbook routes, for a member of one team and for an org admin.
use triage_assistant.Prelude.{
  ℕ, String, ◌≡◌, refl, ◌==◌, false, Option, none, some, List, [], ◌∷◌, All,
}
use triage_assistant.Settings.{Settings}
use triage_assistant.Http.{err, http_error}
use triage_assistant.Models.{Db, text}
use triage_assistant.Audit.{record_event, actor_of}
use triage_assistant.Samples.{settings, context, operator, member}
use triage_assistant.Queries.Order.{order_by}
use triage_assistant.Access.Roles.{Principal, require_role, role_in}
use triage_assistant.Routes.Alerts.{team_by_slug}
use triage_assistant.Runbooks.Embed.{Embedder}
use triage_assistant.Runbooks.Save.{Library}
use triage_assistant.Runbooks.Search.{
  hybrid, Mode, Ranked, Retrieval, search_runbooks, keyword_ids, result,
}
use triage_assistant.Runbooks.Search.Samples.{
  two_sections, every_word, every_word-GivesRows, two_sections-Keyed, answering,
}
use triage_assistant.Routes.Runbooks.{SearchIn, SearchOut, search, delete_runbook, get_runbook}
use triage_assistant.Routes.Runbooks.Visible.{Shows, search-Readable}
use triage_assistant.Routes.Runbooks.Deleted.{delete_runbook-Gone}

abbrev question : SearchIn
question = record { query = "disk"; team = some "payments"; k = 5; mode = hybrid }

abbrev library : Library
library = record {
  alphabet = record { is_space = λ c. false; is_break = λ c. false; casefold = λ s. s };
  sha256 = λ s. s;
  redact = λ s. s;
}

abbrev with_mock : Settings
with_mock = record settings { embedding_model = some "mock" }

abbrev answer : SearchOut
unfolding keyword_ids result
answer = record {
  mode = hybrid;
  embedding_error = none;
  hits =
      result (keyword_ids every_word "disk" (some (2 ∷ [])) two_sections) ((2, 0) ∷ []) 5
        two_sections;
}

search-Readable_example : Shows member question two_sections answer.hits
unfolding search order_by result keyword_ids team_by_slug require_role role_in
search-Readable_example =
    search-Readable every_word answering library with_mock question member two_sections
      every_word-GivesRows two_sections-Keyed (refl, tt) 0 answer refl

abbrev without_disk_full : Db
without_disk_full = record two_sections {
  runbooks = [];
  runbook_chunks = [];
  audit_events =
      record {
        id = 20;
        created_at = 500;
        action = "runbook.deleted";
        actor_user_id = some 9;
        via = "api";
        team_id = some 2;
        target_id = some 9;
        request_id = none;
        trace_id = none;
        detail = ("title", text "Disk full") ∷ ("body_sha256", text "h") ∷ [];
      }
      ∷ [];
  next_id = 21;
}

delete_runbook-Gone_example :
    ((reader : Principal)
      → get_runbook 9 reader without_disk_full ≡ err (http_error 404 "runbook not found"))
    × ((reader : Principal) (other : ℕ)
        → (other == 9) ≡ false
        → get_runbook other reader without_disk_full ≡ get_runbook other reader two_sections)
    × ((settings : Settings) (sha256 : String → String) (query : String) (teams : Option (List ℕ))
          (k : ℕ) (W : Type 0) (embedder : Embedder W) (redact : String → String) (mode : Mode)
          (w : W) (retrieval : Retrieval)
        → (search_runbooks every_word settings sha256 query teams k without_disk_full embedder
            redact mode w).0
          ≡ some retrieval
        → All (λ (row : Ranked). (row.hit.runbook_id == 9) ≡ false) retrieval.hits)
unfolding delete_runbook require_role role_in record_event actor_of
delete_runbook-Gone_example =
    delete_runbook-Gone (context 500) 9 operator two_sections without_disk_full every_word
      every_word-GivesRows two_sections-Keyed refl
