-- ===== src/Triage/Wire.antt =====
-- The events of `answer_events` in apps/api/app/triage.py as they are written on the stream.
use triage_assistant.Prelude.{
  ℕ, ◌≡◌, refl, ltb, not, String, Option, none, some, List, [], ◌∷◌, map, All, all_chars_weaken,
  arith,
}
use triage_assistant.Prelude.Numbers.{decimal, is_digit, all_chars-decimal}
use triage_assistant.Json.{
  Json, Items, null, boolean, numeral, string, array, object, nil, cons, end, field,
}
use triage_assistant.Json.Clean.{Clean, Plain, PlainItems}
use triage_assistant.Sse.Frames.{
  Sent, event, heartbeat as keep_alive, Sendable, written, received, events_in, received-written,
}
use triage_assistant.Triage.Citations.{Citation}
use triage_assistant.Triage.Events.{Usage, Done, Event, meta, heartbeat, token, tool, error, done}

-- What the events carry of the request, and the times of the last, as JSON has them.
pub record Request : Type 0 where
  pub request_id : String
  pub trace_id : Option String
  pub model : String
  pub ttft_ms : String
  pub duration_ms : String

-- None is `null`.
unfoldable pub text_or_null : Option String → Json
text_or_null none = null
text_or_null (some s) = string s

unfoldable pub number : ℕ → Json
number n = numeral (decimal n)

unfoldable pub number_or_null : Option ℕ → Json
unfolding number
number_or_null none = null
number_or_null (some n) = number n

unfoldable pub usage_json : Option Usage → Json
unfolding number
usage_json none = null
usage_json (some u) = object (
    field "prompt_tokens" (number u.prompt_tokens)
      (field "completion_tokens" (number u.completion_tokens) end))

unfoldable pub citation_json : Citation → Json
unfolding number
citation_json c = object (
    field "ref" (string c.ref) (
      field "runbook_id" (number c.runbook_id)
        (field "title" (string c.title) (field "heading" (string c.heading) end))))

unfoldable pub citations_json : List Citation → Items
unfolding citation_json
citations_json [] = nil
citations_json (c ∷ cs) = cons (citation_json c) (citations_json cs)

unfoldable pub strings_json : List String → Items
strings_json [] = nil
strings_json (s ∷ ss) = cons (string s) (strings_json ss)

unfoldable pub done_json : Request → Done → Json
unfolding usage_json text_or_null citations_json strings_json number number_or_null
done_json r d = object (
    field "usage" (usage_json d.usage) (
      field "ttft_ms" (numeral r.ttft_ms) (
        field "duration_ms" (numeral r.duration_ms) (
          field "finish_reason" (text_or_null d.finish_reason) (
            field "citations" (array (citations_json d.citations)) (
              field "invalid_citations" (array (strings_json d.invalid_citations)) (
                field "model_calls" (number d.model_calls) (
                  field "tool_calls" (number d.tool_calls) (
                    field "alerts_in_context" (number_or_null d.alerts_in_context)
                      (field "runbooks_in_context" (number d.runbooks_in_context) end))))))))))

unfoldable pub sent_of : Request → Event → Sent
unfolding done_json text_or_null number number_or_null
sent_of r (meta mode alerts sections retrieval) = event "meta" (
    object (
      field "request_id" (string r.request_id) (
        field "trace_id" (text_or_null r.trace_id) (
          field "model" (string r.model) (
            field "mode" (string mode) (
              field "alerts_in_context" (number_or_null alerts) (
                field "runbooks_in_context" (number sections)
                  (field "retrieval" (text_or_null retrieval) end))))))))
sent_of r heartbeat = keep_alive
sent_of r (token delta) = event "token" (object (field "delta" (string delta) end))
sent_of r (tool name ok summary) = event "tool" (
    object
      (field "name" (string name) (field "ok" (boolean ok) (field "summary" (string summary) end))))
sent_of r (error code message) = event "error" (
    object (
      field "code" (string code)
        (field "message" (string message) (field "request_id" (string r.request_id) end))))
sent_of r (done d) = event "done" (done_json r d)

-- The text of a stream of events.
unfoldable pub wire : Request → List Event → String
unfolding sent_of written
wire r events = written (map (sent_of r) events)

decimal-Clean : (n : ℕ) → Clean (decimal n)
decimal-Clean n =
    all_chars_weaken is_digit (λ c. not (ltb c 32)) (decimal n) (λ c h. ground (arith, h))
      (all_chars-decimal n)

Plain-text_or_null : (s : Option String) → Plain (text_or_null s)
unfolding text_or_null Plain
Plain-text_or_null none = tt
Plain-text_or_null (some s) = tt

Plain-number_or_null : (n : Option ℕ) → Plain (number_or_null n)
unfolding number_or_null Plain
Plain-number_or_null none = tt
Plain-number_or_null (some n) = decimal-Clean n

Plain-usage_json : (u : Option Usage) → Plain (usage_json u)
unfolding usage_json Plain
Plain-usage_json none = tt
Plain-usage_json (some u) = (decimal-Clean u.prompt_tokens, (decimal-Clean u.completion_tokens, tt))

Plain-citations_json : (cs : List Citation) → PlainItems (citations_json cs)
unfolding citations_json Plain
Plain-citations_json [] = tt
Plain-citations_json (c ∷ cs) =
    ((tt, (decimal-Clean c.runbook_id, (tt, (tt, tt)))), Plain-citations_json cs)

Plain-strings_json : (ss : List String) → PlainItems (strings_json ss)
unfolding strings_json Plain
Plain-strings_json [] = tt
Plain-strings_json (s ∷ ss) = (tt, Plain-strings_json ss)

module _ (r : Request) (ttft : Clean r.ttft_ms) (duration : Clean r.duration_ms) where
  Plain-done_json : (d : Done) → Plain (done_json r d)
  unfolding done_json number Plain
  Plain-done_json d = (
    Plain-usage_json d.usage,
    (
      ttft,
      (
        duration,
        (
          Plain-text_or_null d.finish_reason,
          (
            Plain-citations_json d.citations,
            (
              Plain-strings_json d.invalid_citations,
              (
                decimal-Clean d.model_calls,
                (
                  decimal-Clean d.tool_calls,
                  (
                    Plain-number_or_null d.alerts_in_context,
                    (decimal-Clean d.runbooks_in_context, tt),
                  ),
                ),
              ),
            ),
          ),
        ),
      ),
    ),
  )

  sent_of-Sendable : (e : Event) → Sendable (sent_of r e)
  unfolding sent_of number Plain
  sent_of-Sendable (meta mode alerts sections retrieval) = (
    refl,
    refl,
    (
      tt,
      (
        Plain-text_or_null r.trace_id,
        (
          tt,
          (
            tt,
            (
              Plain-number_or_null alerts,
              (decimal-Clean sections, (Plain-text_or_null retrieval, tt)),
            ),
          ),
        ),
      ),
    ),
  )
  sent_of-Sendable heartbeat = tt
  sent_of-Sendable (token delta) = (refl, refl, (tt, tt))
  sent_of-Sendable (tool name ok summary) = (refl, refl, (tt, (tt, (tt, tt))))
  sent_of-Sendable (error code message) = (refl, refl, (tt, (tt, (tt, tt))))
  sent_of-Sendable (done d) = (refl, refl, Plain-done_json d)

  All-Sendable : (events : List Event) → All Sendable (map (sent_of r) events)
  All-Sendable [] = tt
  All-Sendable (e ∷ es) = (sent_of-Sendable e, All-Sendable es)

  -- Where the two times are written without control characters: whatever events an answer has, and
  -- whatever texts of the model, of tools and of runbooks are in them, a browser that reads the
  -- stream receives these events in this order, each with its whole payload, and no others.
  pub received-wire :
      (events : List Event) → received (wire r events) ≡ events_in (map (sent_of r) events)
  unfolding wire
  received-wire events = received-written (map (sent_of r) events) (All-Sendable events)
