-- ===== src/Agent/Bounded.antt =====
-- The bounds of `_loop` in apps/api/app/agent.py: how many rounds it takes, and that it makes no call
-- twice.
use triage_assistant.Prelude.{
  ℕ, zero, suc, ◌+◌, ◌≤◌, String, ◌≡◌, refl, sym, ap, subst, inl, inr, true, false, Option, none,
  some, List, [], ◌∷◌, All, any, Bool-cases, arith, str_eq, eq_iff, ◌≢◌,
}
use triage_assistant.Triage.Events.{Problem}
use triage_assistant.Agent.{
  ToolCall, Message, Outcome, Ending, answered, raised, World, Progress, call_key, calls_of,
  answer_call, make_call, run_call, after_call, run_calls, read_turn, note_calls, ending,
  next_round, after_turn, rounds, loop,
}

-- What was asked of the tools and the model: the key of every call made, newest first, and the number
-- of model calls.
pub record Log : Type 0 where
  pub made : List String
  pub turns : ℕ

abbrev pub empty_log : Log
empty_log = record { made = []; turns = 0 }

-- No two of some texts are the same.
abbrev pub NoneTwice : List String → Type 0
NoneTwice [] = Unit
NoneTwice (k ∷ ks) = All (λ j. k ≢ j) ks × NoneTwice ks

not_any : (k : String) (ks : List String) → any (str_eq k) ks ≡ false → All (λ j. k ≢ j) ks
not_any k [] h = tt
not_any k (j ∷ ks) h = (ground (arith, h, eq_iff k j), not_any k ks (ground (arith, h)))

module _ {S : Type 0} (json_sorted : String → Option String) (world : World S) where
  -- The same world, with a log beside its state.
  abbrev pub logged : World (S × Log)
  logged = record {
    turn = λ messages offered (s, log).
        let (r, s') = world.turn messages offered s in
        (r, (s', record log { turns = suc log.turns }));
    call = λ c (s, log).
        let (r, s') = world.call c s in
        (r, (s', record log { made = call_key json_sorted c ∷ log.made }));
    failure = world.failure;
  }

  abbrev Kept : ℕ → Progress (S × Log) → Type 0
  Kept n p = NoneTwice p.called × (p.state.1.made ≡ p.called) × (p.state.1.turns ≤ n)

  make_call-Kept :
      (n : ℕ) (c : ToolCall) (p : Progress (S × Log)) (o : Option Outcome) (s : S)
      → any (str_eq (call_key json_sorted c)) p.called ≡ false
      → Kept n p
      → Kept n
          (make_call json_sorted logged c p
            (o, (s, record p.state.1 { made = call_key json_sorted c ∷ p.state.1.made }))).1
  unfolding make_call answer_call
  make_call-Kept n c p none s f (d, e, l) =
      ((not_any _ p.called f, d), ap (λ ks. call_key json_sorted c ∷ ks) e, l)
  make_call-Kept n c p (some r) s f (d, e, l) =
      ((not_any _ p.called f, d), ap (λ ks. call_key json_sorted c ∷ ks) e, l)

  run_call-Kept :
      (n : ℕ) (c : ToolCall) (p : Progress (S × Log))
      → Kept n p
      → Kept n (run_call json_sorted logged c p).1
  unfolding run_call answer_call
  run_call-Kept n c p h = elim (Bool-cases (any (str_eq (call_key json_sorted c)) p.called)) [
    | inl e ↦ rw e h
    | inr e ↦ rw e (make_call-Kept n c p _ _ e h)
  ]

  after_call-Kept :
      (n : ℕ) (o : Option Problem) (p : Progress (S × Log))
      (rest : Option Problem × Progress (S × Log))
      → Kept n p
      → Kept n rest.1
      → Kept n (after_call json_sorted logged o p rest).1
  unfolding after_call
  after_call-Kept n none p rest h k = k
  after_call-Kept n (some e) p rest h k = h

  run_calls-Kept :
      (n : ℕ) (cs : List ToolCall) (p : Progress (S × Log))
      → Kept n p
      → Kept n (run_calls json_sorted logged cs p).1
  unfolding run_calls
  run_calls-Kept n [] p h = h
  run_calls-Kept n (c ∷ cs) p h =
      let first = run_call-Kept n c p h in
      after_call-Kept n _ _ _ first (run_calls-Kept n cs _ first)

  abbrev pub Within : ℕ → Ending → Type 0
  Within steps (answered n) = n ≤ steps
  Within steps (raised e) = Unit

  abbrev Run : ℕ → ℕ → Ending × Progress (S × Log) → Type 0
  Run steps n r = Kept n r.1 × Within steps r.0

  Kept-more : (n m : ℕ) (p : Progress (S × Log)) → n ≤ m → Kept n p → Kept m p
  Kept-more n m p h (d, e, l) = (d, e, omega (arith, h, l))

  Within-more : (a b : ℕ) (e : Ending) → a ≤ b → Within a e → Within b e
  Within-more a b (answered n) h k = omega (arith, h, k)
  Within-more a b (raised e) h k = tt

  Run-more : (a b n m : ℕ) (r : Ending × Progress (S × Log)) → a ≤ b → n ≤ m → Run a n r → Run b m r
  Run-more a b n m r h k (kept, within) = (Kept-more n m r.1 k kept, Within-more a b r.0 h within)

  ending-Within :
      (steps step : ℕ) (o : Option Problem)
      → step ≤ steps
      → Within steps (ending json_sorted logged step o)
  unfolding ending
  ending-Within steps step none h = h
  ending-Within steps step (some e) h = tt

  next_round-Run :
      (steps n : ℕ) (o : Option Problem) (after : Progress (S × Log))
      (rest : Ending × Progress (S × Log))
      → Kept n after
      → Run steps n rest
      → Run steps n (next_round json_sorted logged o after rest)
  unfolding next_round
  next_round-Run steps n none after rest h k = k
  next_round-Run steps n (some e) after rest h k = (h, tt)

  after_turn-Run :
      (steps n step : ℕ) (o : Option Problem) (cs : List ToolCall) (read : Progress (S × Log))
      (onward : Ending × Progress (S × Log))
      → step ≤ steps
      → Kept n read
      → Run steps n onward
      → Run steps n (after_turn json_sorted logged o cs step read onward)
  unfolding after_turn
  after_turn-Run steps n step (some e) cs read onward h k r = (k, tt)
  after_turn-Run steps n step none [] read onward h k r = (k, h)
  after_turn-Run steps n step none (c ∷ cs) read onward h k r = r

  rounds-Run :
      (left step n : ℕ) (p : Progress (S × Log))
      → Kept n p
      → Run (step + left) (n + suc left) (rounds json_sorted logged left step p)
  unfolding rounds read_turn note_calls
  rounds-Run zero step n p (d, e, l) =
      ((d, e, omega (arith, l)), ending-Within _ step _ (omega arith))
  rounds-Run (suc left) step n p (d, e, l) =
      let (turn, s) = world.turn p.messages true p.state.0 in
      let read =
        read_turn json_sorted logged turn.0 (s, record p.state.1 { turns = suc p.state.1.turns })
          p in
      let kept : Kept (suc n) read = (d, e, omega (arith, l)) in
      let ran =
        run_calls-Kept (suc n) (calls_of turn.0) (note_calls json_sorted logged turn.0 read) kept in
      let after =
        (run_calls json_sorted logged (calls_of turn.0)
          (note_calls json_sorted logged turn.0 read)).1 in
      let rest = rounds json_sorted logged left (suc step) after in
      let onward : Run (step + suc left) (n + suc (suc left)) rest =
        Run-more (suc step + left) (step + suc left) (suc n + suc left) (n + suc (suc left)) rest
          (omega arith) (omega arith) (rounds-Run left (suc step) (suc n) after ran) in
      let n' = n + suc (suc left) in
      let more : suc n ≤ n' = omega arith in
      let started : step ≤ step + suc left = omega arith in
      after_turn-Run (step + suc left) n' step _ (calls_of turn.0) read _ started
        (Kept-more (suc n) n' read more kept)
        (next_round-Run (step + suc left) n' _ after rest (Kept-more (suc n) n' after more ran)
          onward)

  -- Whatever the model asks for and the tools answer, a run with a limit of `max_steps` makes at most
  -- one model call more than that, makes no tool call twice with the same arguments, and ends, unless
  -- by an exception, after at most `max_steps` rounds of calls.
  pub loop_bounded :
      (prompt : String) (redact : String → String × ℕ) (question : String) (max_steps : ℕ) (s : S)
      → ((loop json_sorted logged prompt redact question max_steps (s, empty_log)).1.state.1.turns
          ≤ suc max_steps)
        × NoneTwice
            (loop json_sorted logged prompt redact question max_steps (s, empty_log)).1.state.1.made
        × Within max_steps
            (loop json_sorted logged prompt redact question max_steps (s, empty_log)).0
  unfolding loop
  loop_bounded prompt redact question max_steps s =
      let start : Progress (S × Log) = record {
        messages = Message.system prompt ∷ Message.user (redact question).0 ∷ [];
        called = [];
        emitted = [];
        state = (s, empty_log);
      } in
      let none_yet : Kept 0 start = (tt, refl, omega arith) in
      let (kept, within) = rounds-Run max_steps 0 0 start none_yet in
      (
        at_most kept.2,
        subst NoneTwice (sym kept.1) kept.0,
        Within-more (0 + max_steps) max_steps _ (omega arith) within,
      )
    where
      at_most : {t : ℕ} → t ≤ 0 + suc max_steps → t ≤ suc max_steps
      at_most h = omega (arith, h)
