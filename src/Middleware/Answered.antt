-- ===== src/Middleware/Answered.antt =====
-- apps/api/app/middleware.py: what a client gets of every request.
use triage_assistant.Prelude.{
  ◌&&◌, ◌&&◌, ◌&&◌, ◌&&◌, subst, arith, append_nil, ℕ, ◌≡◌, refl, sym, ap, ◌∙◌, inl, inr, ◌⊎◌, true,
  false, ◌&&◌, String, List, [], ◌∷◌, ◌++◌, map, any, All, Bool-cases, if◌then◌else◌,
}
use mathlib.Core.List.{map-append}
use triage_assistant.Errors.{Response, error_response}
use triage_assistant.Middleware.Marked.{Laws, HasId, KeepsId, wrap-HasId, IsId, request_id_of-IsId}
use triage_assistant.Middleware.{
  none, late, is_unanswered, answer, Headers, Message, start, body, Run, Scope, Handled,
  request_id_of, is_start, wrap, status_of, messages, internal_error, call,
}

-- A message less its headers.
abbrev pub bare : {H : Type 0} → Message H → Message (Unit {0})
bare (start status h) = start status tt
bare (body text more) = body text more

abbrev pub IsBody : {H : Type 0} → Message H → Type 0
IsBody (start status h) = ⊥
IsBody (body text more) = Unit

-- The app had begun to answer.
abbrev pub Begun : {H : Type 0} → List (Message H) → Type 0
Begun [] = ⊥
Begun (start status h ∷ ms) = Unit
Begun (body text more ∷ ms) = Begun ms

-- The status of the last start, or 500 of none.
abbrev pub LastStatus : {H : Type 0} → List (Message H) → ℕ → Type 0
LastStatus {H = H} ms status =
    (All IsBody ms × (status ≡ 500))
    ⊎ ((before after : List (Message H)) × (h : H) × (ms ≡ before ++ start status h ∷ after)
        × All IsBody after)

abbrev pub generic : String → Response
generic id = record {
  status = 500;
  code = "internal_error";
  message = "internal error";
  request_id = id;
  details = none;
  headers = [];
}

module _ {H : Type 0} (render : Response → H × String) (id : String) (run : Run H)
    (out : Handled H) where
  -- An app that raised before it began is answered for, and its exception goes no further.
  abbrev pub AnsweredFor : Type 0
  AnsweredFor =
      (run.raised ≡ true)
      × All IsBody run.sent
      × (map bare out.sent
          ≡ map bare run.sent ++ start 500 tt ∷ body (render (generic id)).1 false ∷ [])
      × (out.raised ≡ false)
      × (out.status ≡ 500)

  -- What any other app did stands as it is, with its exception.
  abbrev pub PassedOn : Type 0
  PassedOn =
      ((run.raised ≡ false) ⊎ Begun run.sent)
      × (map bare out.sent ≡ map bare run.sent)
      × (out.raised ≡ run.raised)
      × LastStatus run.sent out.status

-- What the client and the log get of a request with an id.
abbrev pub Answered :
    {H : Type 0} (headers : Headers H)
    → Laws headers
    → (Response → H × String)
    → String
    → Run H
    → Handled H
    → Type 0
Answered headers laws render id run out =
    All (HasId headers laws id) out.sent
    × (AnsweredFor render id run out ⊎ PassedOn render id run out)

abbrev LastOr : {H : Type 0} → ℕ → List (Message H) → ℕ → Type 0
LastOr {H = H} default ms status =
    (All IsBody ms × (status ≡ default))
    ⊎ ((before after : List (Message H)) × (h : H) × (ms ≡ before ++ start status h ∷ after)
        × All IsBody after)

-- The last start after one more message.
after_message :
    {H : Type 0} (default status : ℕ) (m : Message H) (ms : List (Message H))
    → ((before after : List (Message H)) × (h : H) × (ms ≡ before ++ start status h ∷ after)
        × All IsBody after)
    → LastOr default (m ∷ ms) status
after_message default status m ms (before, after, h, e, k) =
    inr (m ∷ before, after, h, ap (λ l. m ∷ l) e, k)

status_of-LastOr :
    {H : Type 0} (default : ℕ) (ms : List (Message H)) → LastOr default ms (status_of default ms)
unfolding status_of
status_of-LastOr default [] = inl (tt, refl)
status_of-LastOr default (start s h ∷ ms) = elim (status_of-LastOr s ms) [
  | inl (bodies, e) ↦ inr ([], ms, h, ap (λ n. start n h ∷ ms) (sym e), bodies)
  | inr last ↦ after_message default (status_of s ms) (start s h) ms last
]
status_of-LastOr default (body text more ∷ ms) = elim (status_of-LastOr default ms) [
  | inl (bodies, e) ↦ inl ((tt, bodies), e)
  | inr last ↦ after_message default (status_of default ms) (body text more) ms last
]

unstarted : {H : Type 0} (ms : List (Message H)) → any is_start ms ≡ false → All IsBody ms
unfolding is_start
unstarted [] e = tt
unstarted (start status h ∷ ms) e = ground (arith, e)
unstarted (body text more ∷ ms) e = (tt, unstarted ms e)

started : {H : Type 0} (ms : List (Message H)) → any is_start ms ≡ true → Begun ms
unfolding is_start
started [] e = ground (arith, e)
started (start status h ∷ ms) e = tt
started (body text more ∷ ms) e = started ms e

module _ {H : Type 0} (headers : Headers H) where
  bare-wrap :
      (id : String) (extra : List (String × String)) (ms : List (Message H))
      → map bare (map (wrap headers id extra) ms) ≡ map bare ms
  unfolding wrap
  bare-wrap id extra [] = refl
  bare-wrap id extra (start status h ∷ ms) = ap (λ r. start status tt ∷ r) (bare-wrap id extra ms)
  bare-wrap id extra (body text more ∷ ms) = ap (λ r. body text more ∷ r) (bare-wrap id extra ms)

  status_of-wrap :
      (status : ℕ) (id : String) (extra : List (String × String)) (ms : List (Message H))
      → status_of status (map (wrap headers id extra) ms) ≡ status_of status ms
  unfolding wrap status_of
  status_of-wrap status id extra [] = refl
  status_of-wrap status id extra (start s h ∷ ms) = status_of-wrap s id extra ms
  status_of-wrap status id extra (body text more ∷ ms) = status_of-wrap status id extra ms

module _ {H : Type 0} (render : Response → H × String) where
  status_of-late :
      (status : ℕ) (ms : List (Message H)) (r : Response)
      → status_of status (ms ++ messages render r) ≡ r.status
  unfolding status_of messages
  status_of-late status [] r = refl
  status_of-late status (start s h ∷ ms) r = status_of-late s ms r
  status_of-late status (body text more ∷ ms) r = status_of-late status ms r

  map-bare-late :
      (id : String) (run : Run H)
      → map bare (late render id run) ≡ (
          if is_unanswered run
          then start 500 tt ∷ body (render (internal_error id)).1 false ∷ []
          else [])
  unfolding late messages internal_error
  map-bare-late id run = elim (Bool-cases (is_unanswered run)) [
    | inl e ↦ rw e refl
    | inr e ↦ rw e refl
  ]

  status_of-append-late :
      (id : String) (run : Run H)
      → status_of 500 (run.sent ++ late render id run)
        ≡ (if is_unanswered run then 500 else status_of 500 run.sent)
  unfolding late internal_error
  status_of-append-late id run = elim (Bool-cases (is_unanswered run)) [
    | inl e ↦ rw e (status_of-late 500 run.sent (internal_error id))
    | inr e ↦ rw e (ap (status_of 500) (sym (append_nil run.sent)))
  ]

module _ {H : Type 0} (headers : Headers H) (laws : Laws headers)
    (render : Response → H × String) where
  sent_lem :
      (id : String) (scope : Scope) (run : Run H)
      → map bare (answer headers render id scope run).sent
        ≡ map bare run.sent
          ++ (if is_unanswered run
              then start 500 tt ∷ body (render (internal_error id)).1 false ∷ []
              else [])
  unfolding answer
  sent_lem id scope run =
      bare-wrap headers id scope.response_headers (run.sent ++ late render id run)
      ∙ map-append bare run.sent (late render id run)
      ∙ ap (λ l. map bare run.sent ++ l) (map-bare-late render id run)

  status_lem :
      (id : String) (scope : Scope) (run : Run H)
      → (answer headers render id scope run).status
        ≡ (if is_unanswered run then 500 else status_of 500 run.sent)
  unfolding answer
  status_lem id scope run =
      status_of-wrap headers 500 id scope.response_headers (run.sent ++ late render id run)
      ∙ status_of-append-late render id run

  settled :
      (id : String) (run : Run H) (out : Handled H)
      → (map bare out.sent
          ≡ map bare run.sent
            ++ (if is_unanswered run
                then start 500 tt ∷ body (render (internal_error id)).1 false ∷ []
                else []))
      → out.raised ≡ (run.raised && any is_start run.sent)
      → out.status ≡ (if is_unanswered run then 500 else status_of 500 run.sent)
      → AnsweredFor render id run out ⊎ PassedOn render id run out
  unfolding is_unanswered internal_error error_response
  settled id run out sent goes_on status = elim (Bool-cases run.raised) [
    | inl raised ↦ elim (Bool-cases (any is_start run.sent)) [
      | inl begun ↦ inr (
        inr (started run.sent begun),
        (rw (raised, begun) at sent) ∙ sym (append_nil (map bare run.sent)),
        ground (arith, raised, begun, goes_on),
        passed (rw (raised, begun) at status),
      )
      | inr begun ↦ inl (
        raised,
        unstarted run.sent begun,
        rw (raised, begun) at sent,
        ground (arith, raised, begun, goes_on),
        rw (raised, begun) at status,
      )
    ]
    | inr raised ↦ inr (
      inl raised,
      (rw raised at sent) ∙ sym (append_nil (map bare run.sent)),
      ground (arith, raised, goes_on),
      passed (rw raised at status),
    )
  ]
    where
      passed : out.status ≡ status_of 500 run.sent → LastStatus run.sent out.status
      passed e = subst (LastStatus run.sent) (sym e) (status_of-LastOr 500 run.sent)

  answer-Answered :
      (id : String) (scope : Scope) (run : Run H)
      → KeepsId headers laws scope.response_headers
      → Answered headers laws render id run (answer headers render id scope run)
  unfolding answer
  answer-Answered id scope run keeps = (
    wrap-HasId headers laws id scope.response_headers (run.sent ++ late render id run) keeps,
    settled id run (answer headers render id scope run) (sent_lem id scope run) refl
        (status_lem id scope run),
  )

  -- Where the app's own headers leave the request's id alone: whatever a client sends and the app
  -- does, every start of an answer to an HTTP request carries the request's id, which is fresh or has
  -- 8 to 128 letters, digits, dots, low lines and hyphens and then one newline at most. If the app
  -- raised an exception before it began to answer, the client gets what it sent and then a 500 with
  -- the generic body, the exception goes no further, and 500 is logged; if it raised none or had
  -- begun, the client gets what it sent and no more, the exception goes on, and the last status that
  -- it sent is logged, or 500 if it sent none.
  pub call-Answered :
      (fresh : String) (scope : Scope) (run : Run H)
      → scope.is_http ≡ true
      → KeepsId headers laws scope.response_headers
      → (IsId (request_id_of fresh scope) ⊎ (request_id_of fresh scope ≡ fresh))
        × Answered headers laws render
            (request_id_of fresh scope)
            run
            (call headers render fresh scope run)
  unfolding call
  call-Answered fresh scope run http keeps = (
    request_id_of-IsId fresh scope,
    rw http (answer-Answered (request_id_of fresh scope) scope run keeps),
  )
