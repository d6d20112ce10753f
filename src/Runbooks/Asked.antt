-- ===== src/Runbooks/Asked.antt =====
-- `search_runbooks` of apps/api/app/runbooks.py as an answer's makers call it, in its usual mode and
-- among the teams of the asker: by apps/api/app/routes/chat.py and apps/api/app/tools.py.
pub mod Readable
use triage_assistant.Prelude.{ℕ, String, Option, List, map}
use triage_assistant.Settings.{Settings}
use triage_assistant.Models.{Db}
use triage_assistant.Triage.Hits.{Hit}
use triage_assistant.Access.Group.{viewer}
use triage_assistant.Access.Roles.{Principal, team_ids}
use triage_assistant.Runbooks.Embed.{Embedder}
use triage_assistant.Runbooks.Search.{
  Postgres, Retrieval, Mode, hybrid, keyword, semantic, keyword_only, search_runbooks,
}

-- What a search acts with. `W` is the state of the provider of embeddings.
pub record Searcher (W : Type 0) : Type 0 where
  pub postgres : Postgres
  pub embedder : Embedder W
  pub settings : Settings
  pub sha256 : String → String
  pub clean : String → String × ℕ

unfoldable pub mode_name : Mode → String
mode_name hybrid = "hybrid"
mode_name keyword = "keyword"
mode_name semantic = "semantic"
mode_name keyword_only = "keyword_only"

unfoldable pub hits_of : Retrieval → List Hit
hits_of retrieval = map (λ row. row.hit) retrieval.hits

-- None is an exception that is no LLMError.
unfoldable pub search_asked :
    {W : Type 0} → Searcher W → Principal → String → ℕ → Db → W → Option Retrieval × W
search_asked s principal query k db w =
    search_runbooks s.postgres s.settings s.sha256 query (team_ids principal viewer) k db s.embedder
      (λ t. (s.clean t).0) hybrid w
