-- ===== src/Sse/Tests.antt =====
-- apps/api/app/sse.py on a short stream.
use triage_assistant.Prelude.{◌≡◌, refl, List, [], ◌∷◌}
use triage_assistant.Json.{Json, string, numeral, object, field, end}
use triage_assistant.Json.Clean.{Plain}
use triage_assistant.Sse.{sse}
use triage_assistant.Sse.Frames.{
  Sent, event, heartbeat, written, events_in, received, received-written,
}

-- A token of two paragraphs.
abbrev token : Json
token = object (field "delta" (string "a\n\ndata: b") end)

sse_of_token : sse "token" token ≡ "event: token\ndata: {\"delta\":\"a\\n\\ndata: b\"}\n\n"
unfolding sse
sse_of_token = refl

abbrev sents : List Sent
sents =
    heartbeat
    ∷ event "token" token
    ∷ event "done" (object (field "model_calls" (numeral "2") end))
    ∷ []

received-written_short : received (written sents) ≡ events_in sents
unfolding Plain
received-written_short =
    received-written sents (tt, ((refl, refl, (tt, tt)), ((refl, refl, (refl, tt)), tt)))
