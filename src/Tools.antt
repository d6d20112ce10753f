-- ===== src/Tools.antt =====
-- apps/api/app/tools.py: the read-only tools, acting as the person who asks.
pub mod Numbered
pub mod ReadOnly
pub mod Looped
pub mod Readable
mod Tests
use triage_assistant.Prelude.{
  ℕ, zero, suc, ◌+◌, ◌==◌, String, Bool, true, false, ◌||◌, Option, none, some, List, [], ◌∷◌, ◌++◌,
  map, any, length, str_eq, join, if◌then◌else◌, ◌+++◌, is_some,
}
use triage_assistant.Prelude.Numbers.{decimal}
use triage_assistant.Models.{Db, Alert, AlertOut, Detail, text, number, numbers, nothing, sections}
use triage_assistant.Access.Group.{viewer}
use triage_assistant.Access.Roles.{Principal, team_ids}
use triage_assistant.Audit.{Context, Actor, record_event}
use triage_assistant.Queries.{newest_alerts}
use triage_assistant.Triage.Hits.{Hit}
use triage_assistant.Triage.Prompt.{Redact, alert_line, section_text, alert_lines}
use triage_assistant.Runbooks.Search.{Retrieval}
use triage_assistant.Runbooks.Asked.{Searcher, mode_name, hits_of, search_asked}
use triage_assistant.Agent.{Outcome}

-- Checked arguments.
pub data Arguments : Type 0 where
  -- severity and limit
  list_alerts : Option String → ℕ → Arguments
  -- query and k
  search_runbooks : String → ℕ → Arguments

-- What JSON and the schemas make of a call's arguments: an error's text, or arguments.
pub data Checked : Type 0 where
  invalid : String → Checked
  valid : Arguments → Checked

-- What the calls of one answer have read so far.
pub record ToolContext : Type 0 where
  pub sections : List Hit
  pub alert_ids : List ℕ

unfoldable pub is_tool : String → Bool
is_tool name = str_eq name "list_alerts" || str_eq name "search_runbooks"

-- The number of the first section that is a chunk, counted from a number on.
unfoldable pub number_from : ℕ → List Hit → ℕ → Option ℕ
number_from n [] chunk_id = none
number_from n (s ∷ ss) chunk_id =
    let rest = number_from (suc n) ss chunk_id in if s.chunk_id == chunk_id then some n else rest

-- A section read before keeps its number; another gets the next.
unfoldable pub placed : Hit → List Hit → Option ℕ → ℕ × List Hit
placed hit known (some n) = (n, known)
placed hit known none = (suc (length known), known ++ hit ∷ [])

unfoldable pub place : Hit → List Hit → ℕ × List Hit
unfolding placed number_from
place hit known = placed hit known (number_from 1 known hit.chunk_id)

-- Each hit with its number, and the sections known after it.
unfoldable pub place_all : List Hit → List Hit → List (ℕ × Hit) × List Hit
unfolding place
place_all [] known = ([], known)
place_all (hit ∷ hits) known =
    let (n, known') = place hit known in
    let (rest, known'') = place_all hits known' in ((n, hit) ∷ rest, known'')

unfoldable pub add_id : ℕ → List ℕ → List ℕ
add_id id ids = if any (λ i. i == id) ids then ids else ids ++ id ∷ []

unfoldable pub add_ids : List AlertOut → List ℕ → List ℕ
unfolding add_id
add_ids [] ids = ids
add_ids (a ∷ alerts) ids = add_ids alerts (add_id a.id ids)

unfoldable pub timed_out : Outcome
timed_out = record {
  text = "The tool timed out. Answer with what you have.";
  ok = false;
  summary = "timed out";
}

module _ (redact : Redact) (minute : ℕ → String) (date : ℕ → String) where
  unfoldable pub alerts_result : List AlertOut → Option String → ToolContext → Outcome × ToolContext
  unfolding add_ids
  alerts_result [] severity ctx =
      (record { text = "(none)"; ok = true; summary = "no alerts" }, ctx)
  alerts_result (a ∷ alerts) severity ctx =
      let which : String = elim severity [ none ↦ "" | some s ↦ s +++ " " ] in
      (
        record {
          text = join "\n" (alert_lines redact minute date (a ∷ alerts)).0;
          ok = true;
          summary = decimal (length (a ∷ alerts)) +++ " " +++ which +++ "alerts";
        },
        record ctx { alert_ids = add_ids (a ∷ alerts) ctx.alert_ids },
      )

  unfoldable pub blocks : List (ℕ × Hit) → List String
  blocks [] = []
  blocks ((n, hit) ∷ rest) = (section_text redact minute date n hit).0 ∷ blocks rest

  unfoldable pub sections_result : List Hit → ToolContext → Outcome × ToolContext
  unfolding place_all blocks
  sections_result [] ctx =
      (record { text = "(no runbook sections)"; ok = true; summary = "no sections" }, ctx)
  sections_result (h ∷ hits) ctx =
      let (numbered, known) = place_all (h ∷ hits) ctx.sections in
      (
        record {
          text = join "\n\n" (blocks numbered);
          ok = true;
          summary = decimal (length (h ∷ hits)) +++ " runbook sections";
        },
        record ctx { sections = known },
      )

unfoldable pub severity_detail : Option String → Detail
severity_detail none = nothing
severity_detail (some s) = text s

unfoldable pub read_alerts :
    (ℕ → String) → Context → Actor → Principal → Option String → ℕ → Db → List AlertOut × Db
unfolding severity_detail
read_alerts slug_of context actor principal severity limit db =
    let alerts = newest_alerts slug_of db.alerts (team_ids principal viewer) limit severity none in
    (
      alerts,
      record_event context actor "tool.called" none none
          (("tool", text "list_alerts")
            ∷ ("severity", severity_detail severity)
            ∷ ("limit", number limit)
            ∷ ("alerts", numbers (map (λ a. a.id) alerts))
            ∷ [])
          db,
    )

unfoldable pub section_ids : List Hit → List (ℕ × ℕ × String)
section_ids hits = map (λ h. (h.chunk_id, h.runbook_id, h.runbook_sha256)) hits

-- `search` is `search_runbooks` for the asker's teams.
-- What a call acts with: the libraries, the request, the asker and the search of their runbooks.
-- `check name arguments` is JSON with the schema of the tool.
pub record Asker (W : Type 0) : Type 0 where
  pub minute : ℕ → String
  pub date : ℕ → String
  pub slug_of : ℕ → String
  pub check : String → String → Checked
  pub searcher : Searcher W
  pub context : Context
  pub via : String
  pub principal : Principal

unfoldable pub asking : {W : Type 0} → Asker W → Actor
asking a = record { user_id = some a.principal.user_id; via = a.via }

-- The event of a search that ended; a search that raised records nothing.
unfoldable pub record_search : {W : Type 0} → Asker W → String → ℕ → Option Retrieval → Db → Db
unfolding section_ids asking hits_of mode_name
record_search a query k none db = db
record_search a query k (some retrieval) db =
    record_event a.context (asking a) "tool.called" none none
      (("tool", text "search_runbooks")
        ∷ ("query_sha256", text (a.searcher.sha256 query))
        ∷ ("k", number k)
        ∷ ("retrieval", text (mode_name retrieval.mode))
        ∷ ("sections", sections (section_ids (hits_of retrieval)))
        ∷ [])
      db

unfoldable pub read_sections :
    {W : Type 0} → Asker W → String → ℕ → Db → W → (Option Retrieval × Db) × W
unfolding record_search
read_sections a query k db w =
    let (retrieval, w') = search_asked a.searcher a.principal query k db w in
    ((retrieval, record_search a query k retrieval db), w')

-- A late call's work is done all the same, but neither the model nor the context sees it, or that it
-- raised. None is an exception that a call in time passes on.
unfoldable pub arrived {ℓ} :
    {A : Type ℓ}
    → Bool
    → ToolContext
    → Option A
    → (A → Outcome × ToolContext)
    → Option (Outcome × ToolContext)
unfolding timed_out
arrived true ctx read result = some (timed_out, ctx)
arrived false ctx none result = none
arrived false ctx (some a) result = some (result a)

module _ {W : Type 0} (a : Asker W) (late : Bool) where
  unfoldable pub run_checked :
      Checked → ToolContext → Db → W → Option (Outcome × ToolContext) × (Db × W)
  unfolding read_alerts read_sections alerts_result sections_result arrived asking hits_of
  run_checked (invalid e) ctx db w = (
    some (
      record { text = "Invalid arguments: " +++ e; ok = false; summary = "invalid arguments" },
      ctx,
    ),
    (db, w),
  )
  run_checked (valid (search_runbooks query k)) ctx db w =
      let ((retrieval, db'), w') = read_sections a query k db w in
      (
        arrived late ctx retrieval
            (λ r. sections_result a.searcher.clean a.minute a.date (hits_of r) ctx),
        (db', w'),
      )
  run_checked (valid (list_alerts severity limit)) ctx db w =
      let (alerts, db') =
        read_alerts a.slug_of a.context (asking a) a.principal severity limit db in
      (
        arrived late ctx (some alerts)
            (λ as'. alerts_result a.searcher.clean a.minute a.date as' severity ctx),
        (db', w),
      )

  unfoldable pub run :
      String → String → ToolContext → Db → W → Option (Outcome × ToolContext) × (Db × W)
  unfolding is_tool run_checked
  run name arguments ctx db w =
      if is_tool name then run_checked (a.check name arguments) ctx db w else (
        some (
          record {
            text = "Unknown tool. The tools are list_alerts, search_runbooks.";
            ok = false;
            summary = "unknown tool";
          },
          ctx,
        ),
        (db, w),
      )
