-- ===== src/Routes/Runbooks.antt =====
-- apps/api/app/routes/runbooks.py: the runbook handlers, after their rate limits.
pub mod Visible
pub mod Deleted
mod Tests
use triage_assistant.Prelude.{
  ℕ, String, Bool, true, false, not, ◌&&◌, ◌||◌, ◌==◌, Option, none, some, List, [], ◌∷◌, map, find,
  keep, any, length, str_eq, if◌then◌else◌, ◌+++◌,
}
use triage_assistant.Http.{Result, ok, err, http_error, api_error, ◌>>=◌, ◌>>◌}
use triage_assistant.Settings.{Settings}
use triage_assistant.Models.{Db, Team, Runbook, text}
use triage_assistant.Access.Group.{Role, viewer, admin}
use triage_assistant.Access.Roles.{Principal, team_ids, require_role}
use triage_assistant.Audit.{Context, Actor, actor_of, record_event}
use triage_assistant.Queries.Order.{order_by}
use triage_assistant.Runbooks.Embed.{Outcome, done, llm_error, value_error, Embedder}
use triage_assistant.Runbooks.Save.{Library, Saved, save_runbook}
use triage_assistant.Runbooks.Search.{
  Postgres, Mode, keyword_only, Ranked, Retrieval, has_any, search_runbooks,
}
use triage_assistant.Routes.Alerts.{or_404, team_by_slug}

pub record RunbookIn : Type 0 where
  pub team : String
  pub title : String
  pub body : String
  pub source_url : Option String

pub record RunbookSaved : Type 0 where
  pub id : ℕ
  pub team : String
  pub title : String
  pub sections : ℕ
  pub changed : Bool

pub record RunbookSummary : Type 0 where
  pub id : ℕ
  pub team : String
  pub title : String
  pub source_url : Option String
  pub sections : ℕ
  pub updated_at : ℕ

pub record RunbookOut : Type 0 where
  pub summary : RunbookSummary
  pub body : String

pub record SearchIn : Type 0 where
  pub query : String
  pub team : Option String
  pub k : ℕ
  pub mode : Mode

-- Its hits are the search's, less the ids of the sections and the hashes of the runbooks.
pub record SearchOut : Type 0 where
  pub mode : Mode
  pub embedding_error : Option String
  pub hits : List Ranked

-- `_summary`
unfoldable pub summary_of : Runbook → String → ℕ → RunbookSummary
summary_of r slug sections = record {
  id = r.id;
  team = slug;
  title = r.title;
  source_url = r.source_url;
  sections = sections;
  updated_at = r.updated_at;
}

unfoldable pub count_sections : Db → ℕ → ℕ
count_sections db runbook_id = length (keep (λ c. c.runbook_id == runbook_id) db.runbook_chunks)

-- A runbook, the slug of its team and the number of its sections.
pub record RunbookRow : Type 0 where
  pub runbook : Runbook
  pub slug : String
  pub sections : ℕ

unfoldable pub with_team : Db → Runbook → Option Team → Option RunbookRow
unfolding count_sections
with_team db r none = none
with_team db r (some t) =
    some (record { runbook = r; slug = t.slug; sections = count_sections db r.id })

unfoldable pub with_runbook : Db → Option Runbook → Option RunbookRow
unfolding with_team
with_runbook db none = none
with_runbook db (some r) = with_team db r (find (λ t. t.id == r.team_id) db.teams)

-- `_visible`
unfoldable pub visible : Db → Principal → ℕ → Role → Result RunbookRow
unfolding with_runbook
visible db principal runbook_id needed = do
  row ← or_404 (with_runbook db (find (λ r. r.id == runbook_id) db.runbooks)) "runbook not found"
  require_role principal row.runbook.team_id needed "runbook"
  ok row

-- `embedder`
unfoldable pub embedder_of : {W : Type 0} → Embedder W → Option String → Result (Embedder W)
embedder_of llm none =
    err (api_error 503 "runbooks_off" "runbook search is off: EMBEDDING_MODEL is not set")
embedder_of llm (some model) = ok llm

-- None is another exception.
unfoldable pub saved_answer : RunbookIn → Team → Outcome Saved → Option (Result RunbookSaved)
saved_answer payload team (done saved) = some (
    ok (record {
      id = saved.runbook_id;
      team = team.slug;
      title = payload.title;
      sections = saved.sections;
      changed = saved.changed;
    }))
saved_answer payload team (llm_error code message) =
    some (err (api_error 503 code ("the embedding model failed: " +++ message)))
saved_answer payload team value_error = none

unfoldable pub writable : RunbookIn → Principal → Db → Result Team
writable payload principal db = do
  team ← or_404 (team_by_slug db payload.team) "team not found"
  require_role principal team.id admin "team"
  ok team

module _ {W : Type 0} (llm : Embedder W) (library : Library) (settings : Settings)
    (context : Context) (others : Db → Db) where
  unfoldable pub save_in :
      RunbookIn
      → Principal
      → Result (Team × Embedder W)
      → Db
      → W
      → Option (Result RunbookSaved) × Db × W
  unfolding saved_answer
  save_in payload principal (err e) db w = (some (err e), db, w)
  save_in payload principal (ok (team, embedder)) db w =
      let (saved, db', w') =
        save_runbook embedder library settings context (actor_of principal) others team
          payload.title payload.body payload.source_url db w in
      (saved_answer payload team saved, db', w')

  unfoldable pub save : RunbookIn → Principal → Db → W → Option (Result RunbookSaved) × Db × W
  unfolding save_in writable embedder_of
  save payload principal db w =
      save_in payload principal
        (writable payload principal db
          >>= (λ team. embedder_of llm llm.embedding_model >>= (λ embedder. ok (team, embedder))))
        db w

unfoldable pub listed_rows : Db → List Runbook → List RunbookRow
unfolding with_team
listed_rows db [] = []
listed_rows db (r ∷ rs) = elim (with_team db r (find (λ t. t.id == r.team_id) db.teams)) [
  | none ↦ listed_rows db rs
  | some row ↦ row ∷ listed_rows db rs
]

-- `ORDER BY slug, title`, in the database's order of texts.
unfoldable pub listed_before : (String → String → Bool) → RunbookRow → RunbookRow → Bool
listed_before before a b =
    before a.slug b.slug || (str_eq a.slug b.slug && before a.runbook.title b.runbook.title)

unfoldable pub owned_by : Option (List ℕ) → Runbook → Bool
owned_by none r = true
owned_by (some ids) r = any (λ id. id == r.team_id) ids

unfoldable pub no_teams : Option (List ℕ) → Bool
unfolding has_any
no_teams none = false
no_teams (some ids) = not (has_any ids)

unfoldable pub list_runbooks : (String → String → Bool) → Principal → Db → List RunbookSummary
unfolding summary_of listed_rows listed_before owned_by no_teams
list_runbooks before principal db =
    let ids = team_ids principal viewer in
    if no_teams ids
    then []
    else map (λ (row : RunbookRow). summary_of row.runbook row.slug row.sections)
        (order_by (listed_before before) (listed_rows db (keep (owned_by ids) db.runbooks)))

unfoldable pub get_runbook : ℕ → Principal → Db → Result RunbookOut
unfolding visible summary_of
get_runbook runbook_id principal db = do
  row ← visible db principal runbook_id viewer
  ok (record { summary = summary_of row.runbook row.slug row.sections; body = row.runbook.body })

-- Deleting a row of the runbooks deletes its sections.
unfoldable pub without_runbook : ℕ → Db → Db
without_runbook runbook_id db = record db {
  runbooks = keep (λ r. not (r.id == runbook_id)) db.runbooks;
  runbook_chunks = keep (λ c. not (c.runbook_id == runbook_id)) db.runbook_chunks;
}

unfoldable pub delete_runbook : Context → ℕ → Principal → Db → Result Db
unfolding visible without_runbook
delete_runbook context runbook_id principal db = do
  row ← visible db principal runbook_id admin
  ok (
      record_event context (actor_of principal) "runbook.deleted" (some row.runbook.team_id)
        (some row.runbook.id)
        (("title", text row.runbook.title) ∷ ("body_sha256", text row.runbook.body_sha256) ∷ [])
        (without_runbook row.runbook.id db))

-- The teams to search: the caller's, or the one asked for.
unfoldable pub search_teams : Principal → Option String → Db → Result (Option (List ℕ))
search_teams principal none db = ok (team_ids principal viewer)
search_teams principal (some slug) db = do
  team ← or_404 (team_by_slug db slug) "team not found"
  require_role principal team.id viewer "team"
  ok (some (team.id ∷ []))

unfoldable pub search_out : Option Retrieval → Option SearchOut
search_out none = none
search_out (some r) =
    some (record { mode = r.mode; embedding_error = r.embedding_error; hits = r.hits })

module _ {W : Type 0} (postgres : Postgres) (llm : Embedder W) (library : Library)
    (settings : Settings) where
  unfoldable pub search_in :
      SearchIn → Result (Option (List ℕ)) → Db → W → Option (Result SearchOut) × W
  unfolding search_out no_teams search_runbooks
  search_in payload (err e) db w = (some (err e), w)
  search_in payload (ok teams) db w =
      let (retrieval, w') =
        search_runbooks postgres settings library.sha256 payload.query teams payload.k db llm
          library.redact payload.mode w in
      if no_teams teams
      then (some (ok (record { mode = keyword_only; embedding_error = none; hits = [] })), w)
      else (elim (search_out retrieval) [ none ↦ none | some out ↦ some (ok out) ], w')

  -- None is another exception than a failure of the provider.
  unfoldable pub search : SearchIn → Principal → Db → W → Option (Result SearchOut) × W
  unfolding search_in search_teams
  search payload principal db w = search_in payload (search_teams principal payload.team db) db w
