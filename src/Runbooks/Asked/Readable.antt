-- ===== src/Runbooks/Asked/Readable.antt =====
-- Which sections a search gives that apps/api/app/routes/chat.py or apps/api/app/tools.py asks for.
use triage_assistant.Prelude.{ℕ, ◌≡◌, refl, String, none, some, All, All-map_of}
use triage_assistant.Models.{Db}
use triage_assistant.Access.Group.{viewer}
use triage_assistant.Access.Roles.{Principal, team_ids}
use triage_assistant.Access.Roles.Visibility.{Distinct}
use triage_assistant.Runbooks.Search.{Retrieval, hybrid}
use triage_assistant.Runbooks.Search.Within.{GivesRows, Keyed}
use triage_assistant.Routes.Runbooks.{search_teams}
use triage_assistant.Routes.Runbooks.Visible.{Readable, search_runbooks-Readable}
use triage_assistant.Runbooks.Asked.{Searcher, hits_of, search_asked}

-- Each is stored, and in a team where the asker has a role.
pub search_asked-Readable :
    {W : Type 0} (s : Searcher W) (principal : Principal) (query : String) (k : ℕ) (db : Db)
    → GivesRows s.postgres
    → Keyed db
    → Distinct principal.teams
    → (w : W) (retrieval : Retrieval) → (search_asked s principal query k db w).0 ≡ some retrieval
    → All (Readable principal none db) (hits_of retrieval)
unfolding search_asked hits_of search_teams
search_asked-Readable s principal query k db gives keyed distinct w retrieval e =
    All-map_of (Readable principal none db) (λ row. row.hit) retrieval.hits
      (search_runbooks-Readable s.postgres s.settings s.sha256 query k principal none db gives keyed
        distinct (team_ids principal viewer) refl s.embedder (λ t. (s.clean t).0) hybrid w retrieval
        e).0
