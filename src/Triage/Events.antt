-- ===== src/Triage/Events.antt =====
-- `answer_events` of apps/api/app/triage.py. What comes out of its queue, item by item, is a
-- sequence: the producer's items, the heartbeats where none came in time, and how the producer
-- ended. A sequence that stops before that is a client that hung up. Times are left out.
pub mod Shape
use triage_assistant.Prelude.{
  ◌++◌, ℕ, suc, ◌+◌, String, Bool, true, false, not, ◌&&◌, Option, none, some, List, [], ◌∷◌,
  str_eq, if◌then◌else◌, length, ◌+++◌,
}
use triage_assistant.Triage.Hits.{Hit}
use triage_assistant.Triage.Citations.{Characters, Citation, citations}

pub record Usage : Type 0 where
  pub prompt_tokens : ℕ
  pub completion_tokens : ℕ

unfoldable pub add : Usage → Usage → Usage
add a b = record {
  prompt_tokens = a.prompt_tokens + b.prompt_tokens;
  completion_tokens = a.completion_tokens + b.completion_tokens;
}

pub data Item : Type 0 where
  text : String → Item
  usage : Usage → Item
  finish : String → Item
  -- name, ok and summary
  tool_event : String → Bool → String → Item

-- An `LLMError` with its code and message, or another exception.
pub data Problem : Type 0 where
  llm_error : String → String → Problem
  other_error : Problem

pub data Arrival : Type 0 where
  item : Item → Arrival
  silence : Arrival
  end : Arrival
  problem : Problem → Arrival

pub record Done : Type 0 where
  pub usage : Option Usage
  pub finish_reason : Option String
  pub citations : List Citation
  pub invalid_citations : List String
  pub model_calls : ℕ
  pub tool_calls : ℕ
  pub alerts_in_context : Option ℕ
  pub runbooks_in_context : ℕ

pub data Event : Type 0 where
  meta : String → Option ℕ → ℕ → Option String → Event
  heartbeat : Event
  token : String → Event
  tool : String → Bool → String → Event
  -- code and message
  error : String → String → Event
  done : Done → Event

-- What the loop keeps. `started` says that a time to the first token was taken.
pub record Progress : Type 0 where
  pub started : Bool
  pub answer : String
  pub usage : Option Usage
  pub finish : Option String
  pub model_calls : ℕ
  pub tool_calls : ℕ

abbrev pub at_start : Progress
at_start = record {
  started = false;
  answer = "";
  usage = none;
  finish = none;
  model_calls = 0;
  tool_calls = 0;
}

unfoldable pub add_usage : Option Usage → Usage → Usage
unfolding add
add_usage none u = u
add_usage (some t) u = add t u

-- What one item does to the progress, and the event that it sends.
unfoldable pub take_item : Item → Progress → Progress × List Event
unfolding add_usage
take_item (text delta) p =
    (record p { started = true; answer = p.answer +++ delta }, token delta ∷ [])
take_item (usage u) p = (record p { usage = some (add_usage p.usage u) }, [])
take_item (finish reason) p =
    (record p { finish = some reason; model_calls = suc p.model_calls }, [])
take_item (tool_event name ok summary) p =
    (record p { tool_calls = suc p.tool_calls }, tool name ok summary ∷ [])

unfoldable pub problem_code : Problem → String
problem_code (llm_error code message) = code
problem_code other_error = "internal_error"

unfoldable pub error_event : Problem → Event
error_event (llm_error code message) = error code message
error_event other_error = error "internal_error" "internal error"

-- A finish reason in the message of an empty answer.
unfoldable pub reason_text : Option String → String
reason_text none = "None"
reason_text (some reason) = reason

-- The context that the answer was given, as it ended: what it may cite, and the alerts.
pub record Given : Type 0 where
  pub sections : List Hit
  pub alerts : Option ℕ

module _ (characters : Characters) (given : Given) where
  unfoldable pub finished : Progress → List Event × String
  unfolding reason_text
  finished p =
      let (cited, invalid) = citations characters p.answer given.sections in
      if p.started
      then (
        done (record {
          usage = p.usage;
          finish_reason = p.finish;
          citations = cited;
          invalid_citations = invalid;
          model_calls = p.model_calls;
          tool_calls = p.tool_calls;
          alerts_in_context = given.alerts;
          runbooks_in_context = length given.sections;
        })
            ∷ [],
        elim p.finish [ none ↦ "ok" | some f ↦ if str_eq f "length" then "truncated" else "ok" ],
      )
      else (
        error "llm_empty_answer"
              ("the model returned no answer (finish: " +++ reason_text p.finish +++ ")")
            ∷ [],
        "llm_empty_answer",
      )

  -- The events after the first, and the outcome that is counted.
  unfoldable pub drain : List Arrival → Progress → List Event × String
  unfolding take_item problem_code error_event finished
  drain [] p = ([], "cancelled")
  drain (silence ∷ rest) p = let (events, outcome) = drain rest p in (heartbeat ∷ events, outcome)
  drain (end ∷ rest) p = finished p
  drain (problem e ∷ rest) p = (error_event e ∷ [], problem_code e)
  drain (item i ∷ rest) p =
      let (p', sent) = take_item i p in
      let (events, outcome) = drain rest p' in (sent ++ events, outcome)

  unfoldable pub answer_events :
      String → Option ℕ → ℕ → Option String → List Arrival → List Event × String
  unfolding drain
  answer_events mode alerts_in_context sections retrieval arrivals =
      let (events, outcome) = drain arrivals at_start in
      (meta mode alerts_in_context sections retrieval ∷ events, outcome)
