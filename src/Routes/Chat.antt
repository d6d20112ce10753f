-- ===== src/Routes/Chat.antt =====
-- `chat_stream` of apps/api/app/routes/chat.py up to the answer's stream: what the model is given, and
-- the record of it.
pub mod Told
pub mod Recorded
mod Tests
use mathlib.Core.Option
use triage_assistant.Prelude.{
  ℕ, ◌==◌, String, Bool, true, false, not, ◌&&◌, Option, none, some, List, [], ◌∷◌, map, is_some,
  if◌then◌else◌, length,
}
use triage_assistant.Settings.{Settings}
use triage_assistant.Http.{Result, ok, err, api_error}
use triage_assistant.Models.{Db, AlertOut, Detail, text, nothing, numbers, sections}
use triage_assistant.Access.Group.{viewer}
use triage_assistant.Access.Roles.{Principal, team_ids}
use triage_assistant.Audit.{Context, actor_of, record_event}
use triage_assistant.Queries.{newest_alerts}
use triage_assistant.Switch.{current}
use triage_assistant.Triage.Hits.{Hit}
use triage_assistant.Triage.Prompt.{Redact, build_messages}
use triage_assistant.Tools.{section_ids}
use triage_assistant.Runbooks.Search.{Retrieval}
use triage_assistant.Runbooks.Asked.{Searcher, mode_name, hits_of, search_asked}
use triage_assistant.Agent.{Message}

-- What the answer is made from. In agent mode nothing is read before it.
pub data Answer : Type 0 where
  pipeline : List Message → List AlertOut → List Hit → Option String → Answer
  agent : String → Answer

-- The libraries, the search of runbooks and the two prompts: names with versions and hashes, as the
-- audit trail keeps them, and SYSTEM_PROMPT with its two places.
pub record Service (W : Type 0) : Type 0 where
  pub searcher : Searcher W
  pub minute : ℕ → String
  pub date : ℕ → String
  pub slug_of : ℕ → String
  pub template : String → String → String
  pub prompt_ref : String
  pub agent_prompt_ref : String
  pub model : String

unfoldable pub teams_detail : Option (List ℕ) → Detail
teams_detail none = nothing
teams_detail (some ids) = numbers ids

unfoldable pub mode_of : Option Retrieval → Option String
unfolding mode_name
mode_of none = none
mode_of (some r) = some (mode_name r.mode)

unfoldable pub sections_of : Option Retrieval → List Hit
unfolding hits_of
sections_of none = []
sections_of (some r) = hits_of r

unfoldable pub mode_detail : Option String → Detail
mode_detail none = nothing
mode_detail (some mode) = text mode

-- Runbooks are searched if they are on. The outer None is an exception of the search.
unfoldable pub retrieve :
    {W : Type 0} → Service W → Principal → String → Db → W → Option (Option Retrieval) × W
retrieve service principal message db w =
    if not (service.searcher.settings.rag_context_chunks == 0)
      && is_some service.searcher.embedder.embedding_model
    then (let (retrieval, w') =
          search_asked service.searcher principal message
            service.searcher.settings.rag_context_chunks db w in
        (Option.map some retrieval, w'))
    else (some none, w)

module _ {W : Type 0} (service : Service W) (context : Context) (principal : Principal) where
  unfoldable pub ask_pipeline : String → Option Retrieval → List AlertOut → Db → Answer × Db
  unfolding mode_of sections_of teams_detail mode_detail
  ask_pipeline message retrieval alerts db = (
    pipeline
        (build_messages service.searcher.clean service.minute service.date service.template message
          alerts (sections_of retrieval)).0
        alerts (sections_of retrieval) (mode_of retrieval),
    record_event context (actor_of principal) "chat.asked" none none
        (("teams", teams_detail (team_ids principal viewer))
          ∷ ("prompt", text service.prompt_ref)
          ∷ ("model", text service.model)
          ∷ ("alerts", numbers (map (λ a. a.id) alerts))
          ∷ ("sections", sections (section_ids (sections_of retrieval)))
          ∷ ("retrieval", mode_detail (mode_of retrieval))
          ∷ ("mode", text "pipeline")
          ∷ [])
        db,
  )

  unfoldable pub ask_agent : String → Db → Answer × Db
  unfolding teams_detail
  ask_agent message db = (
    agent message,
    record_event context (actor_of principal) "chat.asked" none none
        (("teams", teams_detail (team_ids principal viewer))
          ∷ ("prompt", text service.agent_prompt_ref)
          ∷ ("model", text service.model)
          ∷ ("mode", text "agent")
          ∷ [])
        db,
  )

  -- A question that is not refused: None is an exception before the answer starts.
  unfoldable pub asked : String → Db → W → Option (Answer × Db) × W
  unfolding ask_pipeline ask_agent
  asked message db w =
      if service.searcher.settings.chat_mode_agent
      then (some (ask_agent message db), w)
      else (let (retrieval, w') = retrieve service principal message db w in
          (
            Option.map
                (λ found.
                  ask_pipeline message found
                    (newest_alerts service.slug_of db.alerts (team_ids principal viewer)
                      service.searcher.settings.chat_context_alerts none none)
                    db)
                retrieval,
            w',
          ))

  unfoldable pub chat_stream : String → Db → W → Option (Result (Answer × Db)) × W
  unfolding asked
  chat_stream message db w =
      if (current db).enabled
      then (let (answer, w') = asked message db w in (Option.map ok answer, w'))
      else (some (err (api_error 503 "assistant_disabled" "the assistant is switched off")), w)
