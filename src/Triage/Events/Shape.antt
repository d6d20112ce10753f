-- ===== src/Triage/Events/Shape.antt =====
-- The events of an answer, as `answer_events` of apps/api/app/triage.py sends them.
use triage_assistant.Prelude.{
  subst₂, ℕ, suc, ◌+◌, String, ◌≡◌, refl, sym, ap, subst, inl, inr, Bool, true, false, ◌||◌, Option,
  List, [], ◌∷◌, All, Bool-cases, arith, ◌+++◌, append_assoc,
}
use triage_assistant.Triage.Citations.{Characters, citations}
use triage_assistant.Triage.Events.{
  text, usage, finish, tool_event, Arrival, item, silence, end, problem, llm_error, other_error,
  Event, meta, heartbeat, token, tool, error, done, Progress, at_start, take_item, error_event,
  finished, drain, answer_events, Given,
}

abbrev pub is_last : Event → Bool
is_last (done d) = true
is_last (error code message) = true
is_last _ = false

-- Does the producer end, before the client hangs up?
abbrev pub closes : List Arrival → Bool
closes [] = false
closes (end ∷ rest) = true
closes (problem e ∷ rest) = true
closes (_ ∷ rest) = closes rest

-- The text that a client puts together, whether it got any, and the tool calls that it saw.
abbrev pub deltas : List Event → String
deltas [] = ""
deltas (token d ∷ es) = d +++ deltas es
deltas (_ ∷ es) = deltas es

abbrev pub spoke : List Event → Bool
spoke [] = false
spoke (token d ∷ es) = true
spoke (_ ∷ es) = spoke es

abbrev pub tools : List Event → ℕ
tools [] = 0
tools (tool name ok summary ∷ es) = suc (tools es)
tools (_ ∷ es) = tools es

-- One event that ends the answer, and it is the last.
abbrev pub Closed : List Event → Type 0
Closed [] = ⊥
Closed (e ∷ []) = is_last e ≡ true
Closed (e ∷ f ∷ es) = (is_last e ≡ false) × Closed (f ∷ es)

abbrev pub Open : List Event → Type 0
Open es = All (λ e. is_last e ≡ false) es

Closed-cons : (e : Event) (es : List Event) → is_last e ≡ false → Closed es → Closed (e ∷ es)
Closed-cons e [] h c = absurd c
Closed-cons e (f ∷ es) h c = (h, c)

empty-append : (s : String) → s +++ "" ≡ s
empty-append String.[] = refl
empty-append (String.◌∷◌ c s) = ap (λ t. String.◌∷◌ c t) (empty-append s)

abbrev pub Ended : Bool → List Event → Type 0
Ended true es = Closed es
Ended false es = Open es

Ended-cons :
    (b : Bool) (e : Event) (es : List Event) → is_last e ≡ false → Ended b es → Ended b (e ∷ es)
Ended-cons true e es h c = Closed-cons e es h c
Ended-cons false e es h c = (h, c)

module _ (characters : Characters) (given : Given) where
  finished-Ended : (p : Progress) → Closed (finished characters given p).0
  unfolding finished
  finished-Ended p = elim (Bool-cases p.started) [ inl e ↦ rw e refl | inr e ↦ rw e refl ]

  drain-Ended :
      (as' : List Arrival) (p : Progress) → Ended (closes as') (drain characters given as' p).0
  unfolding drain take_item error_event
  drain-Ended [] p = tt
  drain-Ended (silence ∷ rest) p = Ended-cons (closes rest) heartbeat _ refl (drain-Ended rest p)
  drain-Ended (end ∷ rest) p = finished-Ended p
  drain-Ended (problem (llm_error code message) ∷ rest) p = refl
  drain-Ended (problem other_error ∷ rest) p = refl
  drain-Ended (item (text d) ∷ rest) p =
      Ended-cons (closes rest) (token d) _ refl (drain-Ended rest _)
  drain-Ended (item (usage u) ∷ rest) p = drain-Ended rest _
  drain-Ended (item (finish r) ∷ rest) p = drain-Ended rest _
  drain-Ended (item (tool_event name ok summary) ∷ rest) p =
      Ended-cons (closes rest) (tool name ok summary) _ refl (drain-Ended rest _)

  -- What a last event says of the events before it.
  abbrev pub Reports : String → Bool → ℕ → Event → Type 0
  Reports answer said calls (done d) =
      (d.citations ≡ (citations characters answer given.sections).0)
      × (d.invalid_citations ≡ (citations characters answer given.sections).1)
      × (said ≡ true)
      × (d.tool_calls ≡ calls)
  Reports answer said calls _ = Unit

  abbrev pub Consistent : List Event → Type 0
  Consistent es = All (Reports (deltas es) (spoke es) (tools es)) es

  abbrev Faithful : Progress → List Event → Type 0
  Faithful p es =
      All (Reports (p.answer +++ deltas es) (p.started || spoke es) (p.tool_calls + tools es)) es

  finished-Faithful : (p : Progress) → Faithful p (finished characters given p).0
  unfolding finished
  finished-Faithful p =
      let same = sym (empty-append p.answer) in
      elim (Bool-cases p.started) [
        | inl e ↦ rw e (
          (
            ap (λ a. (citations characters a given.sections).0) same,
            ap (λ a. (citations characters a given.sections).1) same,
            refl,
            omega arith,
          ),
          tt,
        )
        | inr e ↦ rw e (tt, tt)
      ]

  Faithful-text :
      (d : String) (p : Progress) (es : List Event)
      → Faithful (take_item (text d) p).0 es
      → Faithful p (token d ∷ es)
  unfolding take_item
  Faithful-text d p es h = (
    tt,
    subst₂ (λ a b. All (Reports a b (p.tool_calls + tools es)) es)
        (append_assoc p.answer d (deltas es)) (said p.started) h,
  )
    where
      said : (b : Bool) → true ≡ (b || true)
      said b = ground arith

  Faithful-tool :
      (name : String) (ok : Bool) (summary : String) (p : Progress) (es : List Event)
      → Faithful (take_item (tool_event name ok summary) p).0 es
      → Faithful p (tool name ok summary ∷ es)
  unfolding take_item
  Faithful-tool name ok summary p es h =
      let moved : suc p.tool_calls + tools es ≡ p.tool_calls + suc (tools es) = omega arith in
      (tt, subst (λ n. All (Reports (p.answer +++ deltas es) (p.started || spoke es) n) es) moved h)

  drain-Faithful : (as' : List Arrival) (p : Progress) → Faithful p (drain characters given as' p).0
  unfolding drain take_item error_event
  drain-Faithful [] p = tt
  drain-Faithful (silence ∷ rest) p = (tt, drain-Faithful rest p)
  drain-Faithful (end ∷ rest) p = finished-Faithful p
  drain-Faithful (problem (llm_error code message) ∷ rest) p = (tt, tt)
  drain-Faithful (problem other_error ∷ rest) p = (tt, tt)
  drain-Faithful (item (text d) ∷ rest) p =
      Faithful-text d p _ (drain-Faithful rest (take_item (text d) p).0)
  drain-Faithful (item (usage u) ∷ rest) p = drain-Faithful rest (take_item (usage u) p).0
  drain-Faithful (item (finish r) ∷ rest) p = drain-Faithful rest (take_item (finish r) p).0
  drain-Faithful (item (tool_event name ok summary) ∷ rest) p =
      Faithful-tool name ok summary p _
        (drain-Faithful rest (take_item (tool_event name ok summary) p).0)

  -- If the producer ends before the client hangs up, by reaching its end or by any error, exactly
  -- one "done" or "error" event is sent, as the last; else none is.
  pub answer_events-Ended :
      (mode : String) (alerts : Option ℕ) (sections : ℕ) (retrieval : Option String)
      (as' : List Arrival)
      → Ended (closes as') (answer_events characters given mode alerts sections retrieval as').0
  unfolding answer_events
  answer_events-Ended mode alerts sections retrieval as' =
      Ended-cons (closes as') (meta mode alerts sections retrieval) _ refl
        (drain-Ended as' at_start)

  -- A "done" event is sent only after answer text, and reports the citations and invented numbers of
  -- exactly the text that was sent, and as many tool calls as "tool" events were sent.
  pub answer_events-Reports :
      (mode : String) (alerts : Option ℕ) (sections : ℕ) (retrieval : Option String)
      (as' : List Arrival)
      → Consistent (answer_events characters given mode alerts sections retrieval as').0
  unfolding answer_events
  answer_events-Reports mode alerts sections retrieval as' =
      let es = (drain characters given as' at_start).0 in
      let none_yet : 0 + tools es ≡ tools es = omega arith in
      (
        tt,
        subst (λ n. All (Reports (deltas es) (spoke es) n) es) none_yet
            (drain-Faithful as' at_start),
      )
