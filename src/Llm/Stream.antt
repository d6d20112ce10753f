-- ===== src/Llm/Stream.antt =====
-- `OpenAICompatibleClient.stream` of apps/api/app/llm.py: from the provider's chunks to texts, usage,
-- tool calls and the reason of the end. Spans and timings are left out.
pub mod Assembled
pub mod Turn
use triage_assistant.Prelude.{
  Bool, ℕ, String, Option, none, some, List, [], ◌∷◌, ◌++◌, map, ltb, ◌==◌, is_empty, if◌then◌else◌,
  ◌+++◌,
}
use triage_assistant.Prelude.Numbers.{decimal}
use triage_assistant.Queries.Order.{order_by}
use triage_assistant.Triage.Events.{Usage, Problem, text, usage, finish}
use triage_assistant.Agent.{ToolCall, Part, said, calls}
use triage_assistant.Llm.Errors.{SdkError, provider_error}

-- A piece of a tool call: `function` has a name and arguments.
pub record Fragment : Type 0 where
  pub index : ℕ
  pub id : Option String
  pub function : Option (Option String × Option String)

pub record Choice : Type 0 where
  pub content : Option String
  pub tool_calls : List Fragment
  pub finish_reason : Option String

pub record Chunk : Type 0 where
  pub usage : Option Usage
  pub choices : List Choice

-- A call as far as its pieces have come.
pub record Pending : Type 0 where
  pub id : String
  pub name : String
  pub arguments : String

abbrev pub nothing_yet : Pending
nothing_yet = record { id = ""; name = ""; arguments = "" }

-- `value or ""`
unfoldable pub or_empty : Option String → String
or_empty none = ""
or_empty (some s) = s

unfoldable pub name_of : Option (Option String × Option String) → String
unfolding or_empty
name_of none = ""
name_of (some (name, arguments)) = or_empty name

unfoldable pub arguments_of : Option (Option String × Option String) → String
unfolding or_empty
arguments_of none = ""
arguments_of (some (name, arguments)) = or_empty arguments

unfoldable pub add_piece : Fragment → Pending → Pending
unfolding or_empty name_of arguments_of
add_piece f call = record {
  id = if is_empty (or_empty f.id) then call.id else or_empty f.id;
  name = call.name +++ name_of f.function;
  arguments = call.arguments +++ arguments_of f.function;
}

-- The dictionary of calls, by index, in the order in which they began.
unfoldable pub add_fragment : Fragment → List (ℕ × Pending) → List (ℕ × Pending)
unfolding add_piece
add_fragment f [] = (f.index, add_piece f nothing_yet) ∷ []
add_fragment f ((i, call) ∷ rest) =
    if i == f.index then (i, add_piece f call) ∷ rest else (i, call) ∷ add_fragment f rest

unfoldable pub add_fragments : List Fragment → List (ℕ × Pending) → List (ℕ × Pending)
unfolding add_fragment
add_fragments [] pending = pending
add_fragments (f ∷ fs) pending = add_fragments fs (add_fragment f pending)

unfoldable pub whole_call : ℕ × Pending → ToolCall
whole_call (i, call) = record {
  id = if is_empty call.id then "call_" +++ decimal i else call.id;
  name = call.name;
  arguments = if is_empty call.arguments then "{}" else call.arguments;
}

unfoldable pub lower_index : ℕ × Pending → ℕ × Pending → Bool
lower_index a b = ltb a.0 b.0

unfoldable pub release : List (ℕ × Pending) → List Part
unfolding whole_call lower_index
release pending = map (λ c. calls (whole_call c)) (order_by lower_index pending)

unfoldable pub content_part : Option String → List Part
content_part none = []
content_part (some s) = if is_empty s then [] else said (text s) ∷ []

-- What a reason to finish yields, and the calls that are left.
unfoldable pub finish_part : Option String → List (ℕ × Pending) → List Part × List (ℕ × Pending)
unfolding release
finish_part none pending = ([], pending)
finish_part (some reason) pending =
    if is_empty reason then ([], pending) else (release pending ++ said (finish reason) ∷ [], [])

unfoldable pub read_choice : Choice → List (ℕ × Pending) → List Part × List (ℕ × Pending)
unfolding content_part finish_part add_fragments
read_choice c pending =
    let (ended, left) = finish_part c.finish_reason (add_fragments c.tool_calls pending) in
    (content_part c.content ++ ended, left)

unfoldable pub read_choices : List Choice → List (ℕ × Pending) → List Part × List (ℕ × Pending)
unfolding read_choice
read_choices [] pending = ([], pending)
read_choices (c ∷ cs) pending =
    let (first, left) = read_choice c pending in
    let (more, rest) = read_choices cs left in (first ++ more, rest)

unfoldable pub usage_part : Option Usage → List Part
usage_part none = []
usage_part (some u) = said (usage u) ∷ []

unfoldable pub read_chunks : List Chunk → List (ℕ × Pending) → List Part
unfolding read_choices usage_part
read_chunks [] pending = []
read_chunks (c ∷ cs) pending =
    let (parts, left) = read_choices c.choices pending in
    usage_part c.usage ++ (parts ++ read_chunks cs left)

unfoldable pub failed_by : Option SdkError → Option Problem
unfolding provider_error
failed_by none = none
failed_by (some e) = some (provider_error "the model" e)

-- The provider's chunks, and the SDK's error, if one ends them: what is yielded, and what is raised.
unfoldable pub stream : List Chunk × Option SdkError → List Part × Option Problem
unfolding read_chunks failed_by
stream (chunks, failure) = (read_chunks chunks [], failed_by failure)
