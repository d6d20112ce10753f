-- ===== src/Routes/Chat/Recorded.antt =====
-- Who is answered by `chat_stream` of apps/api/app/routes/chat.py, and with which alerts.
use mathlib.Core.Option.{some-injective}
use mathlib.Core.Option
use triage_assistant.Prelude.{
  is_some, ◌&&◌, ◌==◌, not, arith, sym, if◌then◌else◌, subst, All, lookup, ℕ, ◌≡◌, refl, ◌∙◌, ap,
  Bool, true, false, Option, none, some, List, [], ◌∷◌, ◌++◌, String, map, take, keep_every,
}
use triage_assistant.Http.{Result, ok, err}
use triage_assistant.Models.{sections, Db, AuditEvent, Detail, numbers, AlertOut}
use triage_assistant.Access.Group.{viewer}
use triage_assistant.Access.Roles.{Principal, team_ids}
use triage_assistant.Audit.{Context, record_event}
use triage_assistant.Queries.{newest_alerts, to_out, is_before}
use triage_assistant.Queries.Merge.{Keyed, DistinctTeams}
use triage_assistant.Queries.Cursor.{seen, newest_rows-seen}
use triage_assistant.Switch.{current}
use triage_assistant.Runbooks.Search.{Retrieval}
use triage_assistant.Runbooks.Search.Within.{GivesRows}
use triage_assistant.Runbooks.Search.Within.Rows as Chunks
use triage_assistant.Access.Roles.Visibility.{Distinct}
use triage_assistant.Routes.Runbooks.Visible.{Readable}
use triage_assistant.Triage.Hits.{Hit}
use triage_assistant.Tools.{section_ids}
use triage_assistant.Runbooks.Asked.{search_asked}
use triage_assistant.Runbooks.Asked.Readable.{search_asked-Readable}
use triage_assistant.Agent.{Message}
use triage_assistant.Triage.Prompt.{build_messages}
use triage_assistant.Routes.Chat.Told.{Told, build_messages-Told}
use triage_assistant.Routes.Chat.{
  Service, Answer, pipeline, sections_of, retrieve, asked, ask_pipeline, chat_stream,
}

-- The alerts that an answer is made from.
abbrev pub alerts_of : Answer → List AlertOut
alerts_of (pipeline messages alerts hits mode) = alerts
alerts_of (Answer.agent message) = []

abbrev pub cited_of : Answer → List Hit
cited_of (pipeline messages alerts hits mode) = hits
cited_of (Answer.agent message) = []

abbrev pub newest_event : List AuditEvent → Option AuditEvent
newest_event [] = none
newest_event (e ∷ []) = some e
newest_event (e ∷ f ∷ es) = newest_event (f ∷ es)

newest_event-append : (es : List AuditEvent) (e : AuditEvent) → newest_event (es ++ e ∷ []) ≡ some e
newest_event-append [] e = refl
newest_event-append (d ∷ []) e = refl
newest_event-append (d ∷ f ∷ es) e = newest_event-append (f ∷ es) e

-- What an event says under a key.
abbrev pub named : String → Option AuditEvent → Option Detail
named key none = none
named key (some e) = lookup key e.detail

abbrev pub messages_of : Answer → List Message
messages_of (pipeline messages alerts hits mode) = messages
messages_of (Answer.agent message) = []

-- An answer is made from these alerts and from what the search found, if it ended, each section of
-- which the asker may read; the model is told of just these; and the newest event names the ids of
-- both.
abbrev pub Given :
    {W : Type 0}
    → Service W
    → Principal
    → String
    → Db
    → List AlertOut
    → Option (Option Retrieval)
    → Option (Result (Answer × Db))
    → Type 0
Given service principal message db alerts none answered = answered ≡ none
Given service principal message db alerts (some found) none = ⊥
Given service principal message db alerts (some found) (some (err e)) = ⊥
Given service principal message db alerts (some found) (some (ok (answer, db'))) =
    Told service message alerts (sections_of found) (messages_of answer)
    × (alerts_of answer ≡ alerts)
    × (cited_of answer ≡ sections_of found)
    × All (Readable principal none db) (cited_of answer)
    × (named "alerts" (newest_event db'.audit_events) ≡ some (numbers (map (λ a. a.id) alerts)))
    × (named "sections" (newest_event db'.audit_events)
        ≡ some (sections (section_ids (cited_of answer))))

newest_alerts-seen :
    (slug_of : ℕ → String) (ids : Option (List ℕ)) (limit : ℕ) (db : Db)
    → Keyed db.alerts
    → DistinctTeams ids
    → newest_alerts slug_of db.alerts ids limit none none
      ≡ map (to_out slug_of) (take limit (seen ids none db.alerts))
unfolding newest_alerts is_before
newest_alerts-seen slug_of ids limit db k d = ap (map (to_out slug_of)) (
    newest_rows-seen ids none db.alerts k d limit none
    ∙ ap (take limit) (keep_every (is_before none) _ (λ a. refl)))

-- The newest alerts that the asker may see, as many as the settings say.
abbrev pub asker_alerts : {W : Type 0} → Service W → Principal → Db → List AlertOut
asker_alerts service principal db = map (to_out service.slug_of) (
    take service.searcher.settings.chat_context_alerts
      (seen (team_ids principal viewer) none db.alerts))

module _ {W : Type 0} (service : Service W) (context : Context) (principal : Principal)
    (message : String) (db : Db) where
  retrieve-Readable :
      GivesRows service.searcher.postgres
      → Chunks.Keyed db
      → Distinct principal.teams
      → (w : W) (found : Option Retrieval)
      → (retrieve service principal message db w).0 ≡ some found
      → All (Readable principal none db) (sections_of found)
  unfolding retrieve sections_of
  retrieve-Readable gives keyed distinct w found e =
      either
        (not (service.searcher.settings.rag_context_chunks == 0)
          && is_some service.searcher.embedder.embedding_model)
        _ refl found e
    where
      either :
          (b : Bool) (searched : Option Retrieval × W)
          → search_asked service.searcher principal message
              service.searcher.settings.rag_context_chunks db w
            ≡ searched
          → (found : Option Retrieval)
          → (if◌then◌else◌ {A = Option (Option Retrieval) × W} b
              (Option.map some searched.0, searched.1)
              (some none, w)).0
            ≡ some found
          → All (Readable principal none db) (sections_of found)
      either false searched s none e = tt
      either false searched s (some r) e = absurd (ground (arith, e))
      either true (none, w') s found e = absurd (ground (arith, e))
      either true (some r, w') s found e =
          subst (λ o. All (Readable principal none db) (sections_of o)) (some-injective _ _ e)
            (search_asked-Readable service.searcher principal message
              service.searcher.settings.rag_context_chunks db gives keyed distinct w r
              (ap (λ p. p.0) s))

  abbrev answer_from : Option Retrieval → Answer × Db
  answer_from found =
      ask_pipeline service context principal message found
        (newest_alerts service.slug_of db.alerts (team_ids principal viewer)
          service.searcher.settings.chat_context_alerts none none)
        db

  answer_from-Given :
      Keyed db.alerts
      → DistinctTeams (team_ids principal viewer)
      → (o : Option (Option Retrieval))
      → ((found : Option Retrieval)
          → o ≡ some found
          → All (Readable principal none db) (sections_of found))
      → Given service principal message db
          (asker_alerts service principal db)
          o
          (Option.map ok (Option.map answer_from o))
  unfolding ask_pipeline record_event lookup
  answer_from-Given k d none readable = refl
  answer_from-Given k d (some found) readable =
      let same =
        newest_alerts-seen service.slug_of (team_ids principal viewer)
          service.searcher.settings.chat_context_alerts db k d in
      (
        subst
            (λ as'.
              Told service message as' (sections_of found)
                (build_messages service.searcher.clean service.minute service.date service.template
                  message
                  (newest_alerts service.slug_of db.alerts (team_ids principal viewer)
                    service.searcher.settings.chat_context_alerts none none)
                  (sections_of found)).0)
            same
            (build_messages-Told service message
              (newest_alerts service.slug_of db.alerts (team_ids principal viewer)
                service.searcher.settings.chat_context_alerts none none)
              (sections_of found)),
        same,
        refl,
        readable found refl,
        ap (named "alerts") (newest_event-append db.audit_events _)
            ∙ ap (λ as'. some (numbers (map (λ a. a.id) as'))) same,
        ap (named "sections") (newest_event-append db.audit_events _),
      )

  chat_stream_pipeline :
      (current db).enabled ≡ true
      → service.searcher.settings.chat_mode_agent ≡ false
      → (w : W)
      → (chat_stream service context principal message db w).0
        ≡ Option.map ok (Option.map answer_from (retrieve service principal message db w).0)
  unfolding chat_stream asked
  chat_stream_pipeline on mode w = rw (on, mode) refl

  -- While the assistant is on and answers by the pipeline, where no two alerts and no two sections
  -- have the same id, no team is listed twice, and a scan of the index gives only rows that there
  -- are: unless the search raises, the model is given the question, redacted, after a prompt with a
  -- line for each of the newest alerts that the asker may see, as many as the settings say, and the
  -- text of each section that the search found, redacted and numbered from 1; each section is one as
  -- it is stored and in a team where the asker has a role, and the newest audit event names exactly
  -- these alerts and sections.
  pub chat_stream-Given :
      (current db).enabled ≡ true
      → service.searcher.settings.chat_mode_agent ≡ false
      → Keyed db.alerts
      → DistinctTeams (team_ids principal viewer)
      → GivesRows service.searcher.postgres
      → Chunks.Keyed db
      → Distinct principal.teams
      → (w : W)
      → Given service principal message db
          (asker_alerts service principal db)
          (retrieve service principal message db w).0
          (chat_stream service context principal message db w).0
  chat_stream-Given on mode k d gives keyed distinct w =
      subst
        (Given service principal message db (asker_alerts service principal db)
          (retrieve service principal message db w).0)
        (sym (chat_stream_pipeline on mode w))
        (answer_from-Given k d (retrieve service principal message db w).0
          (retrieve-Readable gives keyed distinct w))
