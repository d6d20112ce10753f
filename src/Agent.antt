-- ===== src/Agent.antt =====
-- `_loop` of apps/api/app/agent.py: the model calls tools, round by round, before it answers.
mod Tests
pub mod Bounded
pub mod Steady
use triage_assistant.Prelude.{
  ℕ, zero, suc, String, Bool, true, false, not, ◌||◌, Option, none, some, List, [], ◌∷◌, ◌++◌,
  str_eq, if◌then◌else◌, any, join, ◌+++◌, is_empty,
}
use triage_assistant.Triage.Events.{Item, text, tool_event, Problem}

-- `ToolCall` of apps/api/app/llm.py.
pub record ToolCall : Type 0 where
  pub id : String
  pub name : String
  pub arguments : String

pub data Message : Type 0 where
  system : String → Message
  user : String → Message
  assistant : String → List ToolCall → Message
  tool_result : String → String → Message

-- What a tool answers, `Result` of apps/api/app/tools.py.
pub record Outcome : Type 0 where
  pub text : String
  pub ok : Bool
  pub summary : String

-- What the model's stream brings, in order.
pub data Part : Type 0 where
  said : Item → Part
  calls : ToolCall → Part

-- How a run ends: with the number of rounds that called tools, or with an exception.
pub data Ending : Type 0 where
  answered : ℕ → Ending
  raised : Problem → Ending

-- `label` of apps/api/app/tools.py.
unfoldable pub label : String → String
label name = if str_eq name "list_alerts" || str_eq name "search_runbooks" then name else "unknown"

unfoldable pub repeated : Outcome
repeated = record {
  text = "You already called this tool with these arguments: use that result.";
  ok = false;
  summary = "repeated call refused";
}

unfoldable pub calls_of : List Part → List ToolCall
calls_of [] = []
calls_of (said i ∷ parts) = calls_of parts
calls_of (calls c ∷ parts) = c ∷ calls_of parts

-- What is emitted while the stream is read.
unfoldable pub items_of : List Part → List Item
items_of [] = []
items_of (said i ∷ parts) = i ∷ items_of parts
items_of (calls c ∷ parts) = items_of parts

unfoldable pub texts_of : List Item → List String
texts_of [] = []
texts_of (text t ∷ items) = t ∷ texts_of items
texts_of (_ ∷ items) = texts_of items

-- `json_sorted` is `json.dumps(json.loads(a), sort_keys=True)`, None where `a` is no JSON.
module _ (json_sorted : String → Option String) where
  unfoldable pub canonical : String → String
  canonical arguments = elim (json_sorted (if is_empty arguments then "{}" else arguments)) [
    | none ↦ arguments
    | some sorted ↦ sorted
  ]

  unfoldable pub call_key : ToolCall → String
  unfolding canonical
  call_key c = c.name +++ ":" +++ canonical c.arguments

-- The model and the tools, on a state `S` of what they depend on and change. `turn messages offered`
-- is one model call, with the tools or without: what it streams, and the exception that ends it, if
-- one does. `call` is `tools.call`; None is an exception.
pub record World (S : Type 0) : Type 0 where
  pub turn : List Message → Bool → S → (List Part × Option Problem) × S
  pub call : ToolCall → S → Option Outcome × S
  pub failure : Problem

pub record Progress (S : Type 0) : Type 0 where
  pub messages : List Message
  pub called : List String
  pub emitted : List Item
  pub state : S

module _ {S : Type 0} (json_sorted : String → Option String) (world : World S) where
  -- A tool's answer is shown to the asker and given to the model.
  unfoldable pub answer_call : ToolCall → Outcome → Progress S → Progress S
  unfolding label
  answer_call c result p = record p {
    messages = p.messages ++ tool_result c.id result.text ∷ [];
    emitted = p.emitted ++ tool_event (label c.name) result.ok result.summary ∷ [];
  }

  -- A call that was made: its key is remembered, whatever it comes to.
  unfoldable pub make_call :
      ToolCall → Progress S → Option Outcome × S → Option Problem × Progress S
  unfolding answer_call
  make_call c p (none, s) =
      (some world.failure, record p { called = call_key json_sorted c ∷ p.called; state = s })
  make_call c p (some result, s) = (
    none,
    answer_call c result (record p { called = call_key json_sorted c ∷ p.called; state = s }),
  )

  unfoldable pub run_call : ToolCall → Progress S → Option Problem × Progress S
  unfolding make_call answer_call repeated
  run_call c p =
      if any (str_eq (call_key json_sorted c)) p.called
      then (none, answer_call c repeated p)
      else make_call c p (world.call c p.state)

  -- An exception of one call ends the others.
  unfoldable pub after_call :
      Option Problem → Progress S → Option Problem × Progress S → Option Problem × Progress S
  after_call none p rest = rest
  after_call (some e) p rest = (some e, p)

  unfoldable pub run_calls : List ToolCall → Progress S → Option Problem × Progress S
  unfolding run_call after_call
  run_calls [] p = (none, p)
  run_calls (c ∷ cs) p = let (failed, p') = run_call c p in after_call failed p' (run_calls cs p')

  -- The stream of one round was read.
  unfoldable pub read_turn : List Part → S → Progress S → Progress S
  unfolding items_of
  read_turn parts s p = record p { emitted = p.emitted ++ items_of parts; state = s }

  -- The assistant's message with its calls.
  unfoldable pub note_calls : List Part → Progress S → Progress S
  unfolding items_of texts_of calls_of
  note_calls parts p = record p {
    messages = p.messages ++ assistant (join "" (texts_of (items_of parts))) (calls_of parts) ∷ [];
  }

  unfoldable pub ending : ℕ → Option Problem → Ending
  ending step none = answered step
  ending step (some e) = raised e

  unfoldable pub next_round :
      Option Problem → Progress S → Ending × Progress S → Ending × Progress S
  next_round none after rest = rest
  next_round (some e) after rest = (raised e, after)

  -- After a round that offered the tools: the stream failed, or made no call, or made some.
  unfoldable pub after_turn :
      Option Problem → List ToolCall → ℕ → Progress S → Ending × Progress S → Ending × Progress S
  after_turn (some e) cs step read onward = (raised e, read)
  after_turn none [] step read onward = (answered step, read)
  after_turn none (c ∷ cs) step read onward = onward

  -- `left` more rounds may call tools; `step` have. The last round offers none.
  unfoldable pub rounds : ℕ → ℕ → Progress S → Ending × Progress S
  unfolding read_turn note_calls run_calls calls_of ending next_round after_turn
  rounds zero step p =
      let ((parts, failed), s) = world.turn p.messages false p.state in
      (ending step failed, read_turn parts s p)
  rounds (suc left) step p =
      let ((parts, failed), s) = world.turn p.messages true p.state in
      let read = read_turn parts s p in
      let (stopped, after) = run_calls (calls_of parts) (note_calls parts read) in
      let rest = rounds left (suc step) after in
      after_turn failed (calls_of parts) step read (next_round stopped after rest)

  -- `prompt` is AGENT_PROMPT, `redact` gives a text and the number of its redactions.
  unfoldable pub loop : String → (String → String × ℕ) → String → ℕ → S → Ending × Progress S
  unfolding rounds
  loop prompt redact question max_steps s = rounds max_steps 0 (record {
    messages = system prompt ∷ user (redact question).0 ∷ [];
    called = [];
    emitted = [];
    state = s;
  })
