-- ===== src/Sse/Frames.antt =====
-- What a browser reads from the stream that apps/api/app/sse.py writes: the events, as they were.
use triage_assistant.Prelude.{
  ◌==◌, ◌≡◌, refl, ap, ◌∙◌, false, String, Option, none, some, List, [], ◌∷◌, ◌++◌, code, begins,
  is_empty, back, append_assoc, if◌then◌else◌, ◌+++◌, arith, All,
}
use triage_assistant.Json.{Json, dumps}
use triage_assistant.Json.Clean.{Clean, Plain, Clean-append, dumps-Clean}
use triage_assistant.Sse.{sse, keep_alive}

-- A character in front of the first line.
put_first : String → List String → List String
put_first c [] = []
put_first c (l ∷ ls) = (c +++ l) ∷ ls

-- The lines of a stream, each ended by a newline, a carriage return or both; what follows the last
-- end is no line yet.
pub lines : String → List String
unfolding put_first
lines String.[] = []
lines (String.◌∷◌ c s) =
    let rest = lines s in
    if code c == b'\n'
    then "" ∷ rest
    else if code c == b'\r'
    then (if begins "\n" s then rest else "" ∷ rest)
    else put_first (String.◌∷◌ c "") rest

-- A field's value, less one space before it.
value_of : String → String
value_of s = if begins " " s then back 1 s else s

pub record Buffer : Type 0 where
  pub event : String
  pub payload : Option String

add_data : Option String → String → String
add_data none s = s
add_data (some d) s = d +++ "\n" +++ s

-- Comments and other fields change nothing.
take_line : String → Buffer → Buffer
unfolding value_of add_data
take_line l b =
    if begins "event:" l
    then record b { event = value_of (back 6 l) }
    else if begins "data:" l
    then record b { payload = some (add_data b.payload (value_of (back 5 l))) }
    else b

dispatch : Buffer → List (String × String)
dispatch b = elim b.payload [
  | none ↦ []
  | some d ↦ (if is_empty b.event then "message" else b.event, d) ∷ []
]

abbrev fresh : Buffer
fresh = record { event = ""; payload = none }

-- An event is dispatched at a blank line.
read_events : List String → Buffer → List (String × String)
unfolding take_line dispatch
read_events [] b = []
read_events (l ∷ ls) b =
    let later = read_events ls fresh in
    let onward = read_events ls (take_line l b) in
    if is_empty l then dispatch b ++ later else onward

-- What an EventSource gives of a stream, as the standard for server-sent events has it.
pub received : String → List (String × String)
unfolding read_events lines
received stream = read_events (lines stream) fresh

-- What is written: events with their payloads, and heartbeats.
pub data Sent : Type 0 where
  event : String → Json → Sent
  heartbeat : Sent

unfoldable pub written : List Sent → String
unfolding sse
written [] = ""
written (event name payload ∷ rest) = sse name payload +++ written rest
written (heartbeat ∷ rest) = keep_alive +++ written rest

abbrev pub events_in : List Sent → List (String × String)
events_in [] = []
events_in (event name payload ∷ rest) = (name, dumps payload) ∷ events_in rest
events_in (heartbeat ∷ rest) = events_in rest

-- A name that can stand on a line, and a payload with numbers that can.
abbrev pub Sendable : Sent → Type 0
Sendable (event name payload) = (is_empty name ≡ false) × Clean name × Plain payload
Sendable heartbeat = Unit {0}

lines_end : (l rest : String) → Clean l → lines (l +++ "\n" +++ rest) ≡ l ∷ lines rest
unfolding lines put_first
lines_end String.[] rest h = refl
lines_end (String.◌∷◌ c l) rest h = rw (lines_end l rest (ground (arith, h))) (
    let e : (code c == b'\n') ≡ false = ground (arith, h) in
    let e' : (code c == b'\r') ≡ false = ground (arith, h) in rw (e, e') refl)

read_frame :
    (name payload : String) (ls : List String)
    → read_events (("event: " +++ name) ∷ ("data: " +++ payload) ∷ "" ∷ ls) fresh
      ≡ dispatch (record { event = name; payload = some payload }) ++ read_events ls fresh
unfolding read_events take_line value_of add_data
read_frame name payload ls = refl

sse_frame :
    (name : String) (payload : Json) (rest : String)
    → sse name payload +++ rest
      ≡ ("event: " +++ name)
        +++ "\n"
        +++ ("data: " +++ dumps payload)
        +++ "\n"
        +++ ""
        +++ "\n"
        +++ rest
unfolding sse
sse_frame name payload rest =
    ap (λ t. "event: " +++ t)
      (append_assoc name ("\ndata: " +++ dumps payload +++ "\n\n") rest
        ∙ ap (λ t. name +++ "\ndata: " +++ t) (append_assoc (dumps payload) "\n\n" rest))

lines_frame :
    (name : String) (payload : Json) (rest : String)
    → Clean name
    → Plain payload
    → lines (sse name payload +++ rest)
      ≡ ("event: " +++ name) ∷ ("data: " +++ dumps payload) ∷ "" ∷ lines rest
lines_frame name payload rest n p =
    ap lines (sse_frame name payload rest)
    ∙ lines_end ("event: " +++ name) _ (Clean-append "event: " name refl n)
    ∙ ap (λ ls. ("event: " +++ name) ∷ ls)
        (lines_end ("data: " +++ dumps payload) _
            (Clean-append "data: " (dumps payload) refl (dumps-Clean payload p))
          ∙ ap (λ ls. ("data: " +++ dumps payload) ∷ ls) (lines_end "" rest refl))

dispatch_named :
    (name payload : String)
    → is_empty name ≡ false
    → dispatch (record { event = name; payload = some payload }) ≡ (name, payload) ∷ []
unfolding dispatch
dispatch_named name payload h = rw h refl

-- Whatever events are written, with names that are not empty and hold no control characters and payloads whose numbers
-- hold none, and wherever heartbeats come between them: a browser receives the same events in the same order,
-- each with its payload whole, whatever texts are in it.
pub received-written :
    (sents : List Sent) → All Sendable sents → received (written sents) ≡ events_in sents
unfolding received written
received-written [] h = refl
received-written (event name payload ∷ rest) ((e, n, p), hs) =
    ap (λ ls. read_events ls fresh) (lines_frame name payload (written rest) n p)
    ∙ read_frame name (dumps payload) (lines (written rest))
    ∙ ap (λ r. r ++ received (written rest)) (dispatch_named name (dumps payload) e)
    ∙ ap (λ r. (name, dumps payload) ∷ r) (received-written rest hs)
received-written (heartbeat ∷ rest) (h, hs) =
    ap (λ ls. read_events ls fresh)
      (lines_end ": keep-alive" ("" +++ "\n" +++ written rest) refl
        ∙ ap (λ ls. ": keep-alive" ∷ ls) (lines_end "" (written rest) refl))
    ∙ received-written rest hs
