-- ===== src/Triage/Tests.antt =====
-- The theorems on apps/api/app/triage.py at small inputs.
use triage_assistant.Prelude.{
  ℕ, ◌+◌, ◌-◌, ◌≡◌, refl, Bool, true, false, ◌&&◌, ◌||◌, some, none, List, [], ◌∷◌, leb, map,
  if◌then◌else◌, All, length,
}
use triage_assistant.Triage.Hits.{Hit}
use triage_assistant.Triage.Citations.{
  Characters, citations, once, find_numbers, number_at, starts_word, section_at, sort_citations,
  sort_one, cited_as, ref_of,
}
use triage_assistant.Triage.Citations.Sound.{Valid, Invented, Reported, Distinct, citations_sound}
use triage_assistant.Triage.Events.{
  Given, Arrival, item, end, silence, text, finish, answer_events, token, heartbeat, error,
}
use triage_assistant.Triage.Wire.{Request, wire, sent_of, received-wire}
use triage_assistant.Sse.Frames.{received, events_in}
use triage_assistant.Triage.Events.Shape.{
  Ended, Consistent, answer_events-Ended, answer_events-Reports,
}

abbrev between : ℕ → ℕ → ℕ → Bool
between a b c = leb a c && leb c b

abbrev ascii : Characters
ascii = record {
  is_word =
      λ c. between b'0' b'9' c || between b'A' b'Z' c || between b'a' b'z' c || between b'_' b'_' c;
  digit = λ c. if between b'0' b'9' c then some (c - b'0') else none;
}

abbrev disk : Hit
disk = record {
  chunk_id = 1;
  runbook_id = 2;
  team = "payments";
  title = "Disk full";
  heading = "Disk full > Free space";
  content = "Delete old logs.";
  updated_at = 5;
  runbook_sha256 = "h";
}

citations_run :
    citations ascii "See [R1] and (R7), R1 again; not R123 or xR1." (disk ∷ [])
    ≡ (cited_as 1 disk ∷ [], ref_of 7 ∷ [])
unfolding citations once find_numbers number_at starts_word section_at sort_citations sort_one
    cited_as ref_of
citations_run = refl

citations_sound_example :
    All (Valid ascii (disk ∷ [])) (citations ascii "R1, R9" (disk ∷ [])).0
    × All (Invented ascii (disk ∷ [])) (citations ascii "R1, R9" (disk ∷ [])).1
    × All
        (Reported ascii
          (disk ∷ [])
          (citations ascii "R1, R9" (disk ∷ [])).0
          (citations ascii "R1, R9" (disk ∷ [])).1)
        (find_numbers ascii false "R1, R9")
    × (length (citations ascii "R1, R9" (disk ∷ [])).0
          + length (citations ascii "R1, R9" (disk ∷ [])).1
        ≡ length (once ascii (find_numbers ascii false "R1, R9")))
    × Distinct ascii (once ascii (find_numbers ascii false "R1, R9"))
citations_sound_example = citations_sound ascii "R1, R9" (disk ∷ [])

abbrev given : Given
given = record { sections = disk ∷ []; alerts = some 3 }

abbrev arrivals : List Arrival
arrivals = item (text "See R1.") ∷ silence ∷ item (finish "stop") ∷ end ∷ []

answer_events-Ended_example :
    Ended true (answer_events ascii given "pipeline" (some 3) 1 none arrivals).0
answer_events-Ended_example = answer_events-Ended ascii given "pipeline" (some 3) 1 none arrivals

answer_events-Reports_example :
    Consistent ascii given (answer_events ascii given "pipeline" (some 3) 1 none arrivals).0
answer_events-Reports_example =
    answer_events-Reports ascii given "pipeline" (some 3) 1 none arrivals

abbrev request : Request
request = record {
  request_id = "r-1";
  trace_id = none;
  model = "m";
  ttft_ms = "12.5";
  duration_ms = "30.1";
}

-- A token with the end of an event in it.
received-wire_example :
    received
      (wire request (token "a\n\nevent: error" ∷ heartbeat ∷ error "llm_timeout" "late" ∷ []))
    ≡ events_in (
        map
          (sent_of request)
          (token "a\n\nevent: error" ∷ heartbeat ∷ error "llm_timeout" "late" ∷ []))
received-wire_example =
    received-wire request refl refl
      (token "a\n\nevent: error" ∷ heartbeat ∷ error "llm_timeout" "late" ∷ [])
