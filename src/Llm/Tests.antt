-- ===== src/Llm/Tests.antt =====
-- The client of apps/api/app/llm.py at small streams.
use triage_assistant.Prelude.{ℕ, ◌≡◌, refl, String, Option, none, some, List, [], ◌∷◌, ◌++◌, map}
use triage_assistant.Triage.Events.{Usage, text, usage, finish}
use triage_assistant.Agent.{said, calls}
use triage_assistant.Queries.Order.{order_by}
use triage_assistant.Llm.Errors.{timeout}
use triage_assistant.Llm.Stream.{Fragment, Chunk, stream, or_empty}
use triage_assistant.Llm.Stream.Assembled.{calls_from}
use triage_assistant.Llm.Stream.Turn.{
  last_chunk, usage_chunk, Yields, all_pieces, all_texts, text_in, stream-calls_from,
}

abbrev piece : ℕ → Option String → String → String → Fragment
piece index id name arguments = record {
  index = index;
  id = id;
  function = some (some name, some arguments);
}

abbrev chunk : Option String → List Fragment → Chunk
chunk content pieces = record {
  usage = none;
  choices = record { content = content; tool_calls = pieces; finish_reason = none } ∷ [];
}

-- Two calls, the second begun first.
abbrev chunks : List Chunk
chunks =
    chunk (some "Let me look.") []
    ∷ chunk none (piece 1 (some "b") "search_runbooks" "{\"q\":" ∷ [])
    ∷ chunk (some "") (piece 0 (some "a") "list_alerts" "" ∷ piece 1 none "" "1}" ∷ [])
    ∷ []

abbrev tokens : Usage
tokens = record { prompt_tokens = 10; completion_tokens = 4 }

stream_of_chunks :
    stream
      (chunks ++ last_chunk none none [] "tool_calls" ∷ map usage_chunk (some tokens ∷ []), none)
    ≡ (
      said (text "Let me look.")
          ∷ calls (record { id = "a"; name = "list_alerts"; arguments = "{}" })
          ∷ calls (record { id = "b"; name = "search_runbooks"; arguments = "{\"q\":1}" })
          ∷ said (finish "tool_calls")
          ∷ said (usage tokens)
          ∷ [],
      none,
    )
unfolding stream order_by
stream_of_chunks = refl

stream-calls_from_example :
    Yields
      (stream (
        chunks ++ last_chunk none none [] "tool_calls" ∷ map usage_chunk (some tokens ∷ []),
        some timeout,
      )).0
      (calls_from (all_pieces chunks ++ []))
      (all_texts chunks ++ text_in none)
unfolding or_empty
stream-calls_from_example =
    stream-calls_from chunks none none [] "tool_calls" (some tokens ∷ []) (some timeout)
      ((refl, tt), ((refl, tt), ((refl, tt), tt))) refl
