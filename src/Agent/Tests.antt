-- ===== src/Agent/Tests.antt =====
-- The theorem on apps/api/app/agent.py with a model that asks for the same call in every round.
use triage_assistant.Prelude.{◌≤◌, true, some, none, [], ◌∷◌, if◌then◌else◌}
use triage_assistant.Triage.Events.{other_error, text}
use triage_assistant.Agent.{Ending, Progress, World, ToolCall, said, calls, loop}
use triage_assistant.Agent.Bounded.{Log, logged, empty_log, NoneTwice, Within, loop_bounded}

abbrev call : ToolCall
call = record { id = "1"; name = "list_alerts"; arguments = "{}" }

abbrev stubborn : World (Unit {0})
stubborn = record {
  turn = λ messages offered s.
      (((if offered then calls call ∷ [] else said (text "None.") ∷ []), none), s);
  call = λ c s. (some (record { text = "(none)"; ok = true; summary = "no alerts" }), s);
  failure = other_error;
}

abbrev ran : Ending × Progress (Unit {0} × Log)
ran = loop some (logged some stubborn) "prompt" (λ t. (t, 0)) "why?" 2 (tt, empty_log)

loop_bounded_example :
    (ran.1.state.1.turns ≤ 3) × NoneTwice ran.1.state.1.made × Within some stubborn 2 ran.0
loop_bounded_example = loop_bounded some stubborn "prompt" (λ t. (t, 0)) "why?" 2 tt
