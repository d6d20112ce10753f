-- ===== src/Agent/Steady.antt =====
-- What `_loop` of apps/api/app/agent.py leaves as it was: whatever each model call and each tool call do.
use triage_assistant.Prelude.{
  ℕ, zero, suc, String, inl, inr, Bool, Option, none, some, List, [], ◌∷◌, any, str_eq, Bool-cases,
}
use triage_assistant.Triage.Events.{Problem}
use triage_assistant.Agent.{
  true, false, answer_call, ToolCall, Message, Outcome, Ending, World, Progress, call_key, calls_of,
  make_call, run_call, after_call, run_calls, read_turn, note_calls, next_round, after_turn, rounds,
  loop,
}

module _ {S : Type 0} (json_sorted : String → Option String) (world : World S) (I : S → Type 0)
    (turn : (messages : List Message) (offered : Bool) (s : S)
      → I s
      → I (world.turn messages offered s).1)
    (call : (c : ToolCall) (s : S) → I s → I (world.call c s).1) where
  make_call-Steady :
      (c : ToolCall) (p : Progress S) (o : Option Outcome) (s : S)
      → I s
      → I (make_call json_sorted world c p (o, s)).1.state
  unfolding make_call answer_call
  make_call-Steady c p none s h = h
  make_call-Steady c p (some r) s h = h

  run_call-Steady :
      (c : ToolCall) (p : Progress S) → I p.state → I (run_call json_sorted world c p).1.state
  unfolding run_call answer_call
  run_call-Steady c p h = elim (Bool-cases (any (str_eq (call_key json_sorted c)) p.called)) [
    | inl e ↦ rw e h
    | inr e ↦ rw e (make_call-Steady c p _ _ (call c p.state h))
  ]

  after_call-Steady :
      (o : Option Problem) (after : Progress S) (rest : Option Problem × Progress S)
      → I after.state
      → I rest.1.state
      → I (after_call json_sorted world o after rest).1.state
  unfolding after_call
  after_call-Steady none after rest h k = k
  after_call-Steady (some e) after rest h k = h

  run_calls-Steady :
      (cs : List ToolCall) (p : Progress S)
      → I p.state
      → I (run_calls json_sorted world cs p).1.state
  unfolding run_calls
  run_calls-Steady [] p h = h
  run_calls-Steady (c ∷ cs) p h =
      let first = run_call-Steady c p h in
      after_call-Steady _ _ _ first (run_calls-Steady cs _ first)

  next_round-Steady :
      (o : Option Problem) (after : Progress S) (rest : Ending × Progress S)
      → I after.state
      → I rest.1.state
      → I (next_round json_sorted world o after rest).1.state
  unfolding next_round
  next_round-Steady none after rest h k = k
  next_round-Steady (some e) after rest h k = h

  after_turn-Steady :
      (o : Option Problem) (cs : List ToolCall) (step : ℕ) (read : Progress S)
      (onward : Ending × Progress S)
      → I read.state
      → I onward.1.state
      → I (after_turn json_sorted world o cs step read onward).1.state
  unfolding after_turn
  after_turn-Steady (some e) cs step read onward h k = h
  after_turn-Steady none [] step read onward h k = h
  after_turn-Steady none (c ∷ cs) step read onward h k = k

  rounds-Steady :
      (left step : ℕ) (p : Progress S)
      → I p.state
      → I (rounds json_sorted world left step p).1.state
  unfolding rounds read_turn note_calls
  rounds-Steady zero step p h = turn p.messages false p.state h
  rounds-Steady (suc left) step p h =
      let (streamed, s) = world.turn p.messages true p.state in
      let read = read_turn json_sorted world streamed.0 s p in
      let cs = calls_of streamed.0 in
      let kept = turn p.messages true p.state h in
      let ran = run_calls-Steady cs (note_calls json_sorted world streamed.0 read) kept in
      after_turn-Steady streamed.1 cs step read _ kept
        (next_round-Steady _ _ _ ran (rounds-Steady left (suc step) _ ran))

  pub loop-Steady :
      (prompt : String) (redact : String → String × ℕ) (question : String) (max_steps : ℕ) (s : S)
      → I s
      → I (loop json_sorted world prompt redact question max_steps s).1.state
  unfolding loop
  loop-Steady prompt redact question max_steps s h = rounds-Steady max_steps 0 _ h
