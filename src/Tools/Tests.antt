-- ===== src/Tools/Tests.antt =====
-- The theorems on apps/api/app/tools.py at small inputs.
use triage_assistant.Prelude.{
  zero, Bool, List, Option, some, ℕ, ◌≡◌, refl, true, false, none, [], ◌∷◌, All,
}
use triage_assistant.Prelude.Numbers.{decimal}
use triage_assistant.Samples.{member, db, context}
use triage_assistant.Triage.Hits.{Hit}
use triage_assistant.Queries.Order.{order_by}
use triage_assistant.Runbooks.Search
use triage_assistant.Runbooks.Search.{keyword_ids, result}
use triage_assistant.Runbooks.Search.Samples.{
  two_sections, every_word-GivesRows, two_sections-Keyed, searcher,
}
use triage_assistant.Tools.{
  Checked, Asker, ToolContext, valid, list_alerts, search_runbooks, place_all, number_from, placed,
  place, run,
}
use triage_assistant.Access.Roles.{team_ids}
use triage_assistant.Triage.Events.{Problem, other_error, text}
use triage_assistant.Agent.{Outcome, Message, Part, said, calls, loop}
use triage_assistant.Runbooks.Asked.{search_asked}
use triage_assistant.Tools.Looped.{Honest, begun, with_tools, loop-Honest}
use triage_assistant.Tools.Numbered.{Refers, Extends, place_all-Refers}
use triage_assistant.Tools.ReadOnly.{with_trail_of, run_read_only}

abbrev section : ℕ → Hit
section id = record {
  chunk_id = id;
  runbook_id = 2;
  team = "payments";
  title = "Disk full";
  heading = "Disk full";
  content = "Delete old logs.";
  updated_at = 5;
  runbook_sha256 = "h";
}

place_all_run :
    place_all (section 4 ∷ section 9 ∷ section 4 ∷ []) (section 9 ∷ [])
    ≡ ((2, section 4) ∷ (1, section 9) ∷ (2, section 4) ∷ [], section 9 ∷ section 4 ∷ [])
unfolding place_all place placed number_from
place_all_run = refl

place_all-Refers_example :
    All
      (Refers (place_all (section 4 ∷ []) (section 9 ∷ [])).1)
      (place_all (section 4 ∷ []) (section 9 ∷ [])).0
    × Extends (section 9 ∷ []) (place_all (section 4 ∷ []) (section 9 ∷ [])).1
place_all-Refers_example = place_all-Refers (section 4 ∷ []) (section 9 ∷ [])

abbrev asker : Checked → Asker ℕ
asker checked = record {
  minute = decimal;
  date = decimal;
  slug_of = λ id. "payments";
  check = λ name arguments. checked;
  searcher = searcher;
  context = context 100;
  via = "api";
  principal = member;
}

abbrev nothing_read : ToolContext
nothing_read = record { sections = []; alert_ids = [] }

run_read_only_example :
    (with_trail_of db
        (run (asker (valid (list_alerts none 10))) false "list_alerts" "{}" nothing_read db 0).1.0
      ≡ db)
    × ((o : Outcome) × ((run
            (asker (valid (list_alerts none 10)))
            true
            "list_alerts"
            "{}"
            nothing_read
            db
            0).0
          ≡ some (o, nothing_read)))
run_read_only_example =
    run_read_only (asker (valid (list_alerts none 10))) false "list_alerts" "{}" nothing_read db 0

-- A model that searches once, and then says what it read.
abbrev model : List Message → Bool → ℕ → (List Part × Option Problem) × ℕ
model messages true zero =
    ((calls (record { id = "1"; name = "search_runbooks"; arguments = "{}" }) ∷ [], none), 1)
model messages offered n = ((said (text "Delete old logs [R1].") ∷ [], none), n)

loop-Honest_example :
    Honest member two_sections
      (loop some
        (with_tools (asker (valid (search_runbooks "disk" 5))) model (λ c n. false) other_error)
        "prompt"
        (λ t. (t, 0))
        "What now?"
        3
        (begun two_sections 0)).1.state
loop-Honest_example =
    loop-Honest (asker (valid (search_runbooks "disk" 5))) model (λ c n. false) other_error
      two_sections every_word-GivesRows two_sections-Keyed (refl, tt) some "prompt" "What now?" 3 0

-- Of the two sections the one of the asker's team is read.
section_read :
    (loop some
      (with_tools (asker (valid (search_runbooks "disk" 5))) model (λ c n. false) other_error)
      "prompt"
      (λ t. (t, 0))
      "What now?"
      3
      (begun two_sections 0)).1.state.ctx.sections
    ≡ record (section 2) { runbook_id = 9; content = "Find the large files." } ∷ []
unfolding loop with_tools run order_by keyword_ids result search_asked Search.search_runbooks
    team_ids
section_read = refl
