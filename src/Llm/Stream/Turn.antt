-- ===== src/Llm/Stream/Turn.antt =====
-- `stream` of apps/api/app/llm.py over a whole turn of the model.
use triage_assistant.Prelude.{
  if◌then◌else◌, ◌≡◌, refl, sym, ap, ◌∙◌, subst, subst₂, true, false, String, Option, none, some,
  List, [], ◌∷◌, ◌++◌, map, All, is_empty, append_nil, append-append,
}
use triage_assistant.Triage.Events.{Usage, text, finish}
use triage_assistant.Agent.{ToolCall, Part, said, calls, calls_of, items_of, texts_of}
use triage_assistant.Queries.Order.{order_by}
use triage_assistant.Llm.Errors.{SdkError}
use triage_assistant.Llm.Stream.{
  lower_index, whole_call, ℕ, Fragment, Choice, Chunk, Pending, or_empty, add_fragments, release,
  content_part, finish_part, read_choice, read_choices, usage_part, read_chunks, stream,
}
use triage_assistant.Llm.Stream.Assembled.{calls_from, calls_of-release}

-- The pieces of tool calls in some choices, and in some chunks, in order.
abbrev pub pieces_in : List Choice → List Fragment
pieces_in [] = []
pieces_in (c ∷ cs) = c.tool_calls ++ pieces_in cs

abbrev pub all_pieces : List Chunk → List Fragment
all_pieces [] = []
all_pieces (c ∷ cs) = pieces_in c.choices ++ all_pieces cs

abbrev pub text_in : Option String → List String
text_in none = []
text_in (some s) = if is_empty s then [] else s ∷ []

abbrev pub texts_in : List Choice → List String
texts_in [] = []
texts_in (c ∷ cs) = text_in c.content ++ texts_in cs

abbrev pub all_texts : List Chunk → List String
all_texts [] = []
all_texts (c ∷ cs) = texts_in c.choices ++ all_texts cs

-- No choice gives a reason to finish.
abbrev pub Unfinished : Chunk → Type 0
Unfinished c = All (λ choice. is_empty (or_empty choice.finish_reason) ≡ true) c.choices

-- The calls and the texts among what was yielded.
abbrev pub Yields : List Part → List ToolCall → List String → Type 0
Yields parts cs ts = (calls_of parts ≡ cs) × (texts_of (items_of parts) ≡ ts)

calls_of-append : (ps qs : List Part) → calls_of (ps ++ qs) ≡ calls_of ps ++ calls_of qs
unfolding calls_of
calls_of-append [] qs = refl
calls_of-append (said i ∷ ps) qs = calls_of-append ps qs
calls_of-append (calls c ∷ ps) qs = ap (λ r. c ∷ r) (calls_of-append ps qs)

texts-append :
    (ps qs : List Part)
    → texts_of (items_of (ps ++ qs)) ≡ texts_of (items_of ps) ++ texts_of (items_of qs)
unfolding items_of texts_of
texts-append [] qs = refl
texts-append (said (text t) ∷ ps) qs = ap (λ r. t ∷ r) (texts-append ps qs)
texts-append (said i ∷ ps) qs = texts-append ps qs
texts-append (calls c ∷ ps) qs = texts-append ps qs

Yields-append :
    (ps qs : List Part) (cs ds : List ToolCall) (ts us : List String)
    → Yields ps cs ts
    → Yields qs ds us
    → Yields (ps ++ qs) (cs ++ ds) (ts ++ us)
Yields-append ps qs cs ds ts us (c, t) (d, u) =
    (calls_of-append ps qs ∙ rw (c, d) refl, texts-append ps qs ∙ rw (t, u) refl)

Yields-then_nothing :
    (ps qs : List Part) (cs : List ToolCall) (ts : List String)
    → Yields ps cs ts
    → Yields qs [] []
    → Yields (ps ++ qs) cs ts
Yields-then_nothing ps qs cs ts y n =
    subst₂ (Yields (ps ++ qs)) (sym (append_nil cs)) (sym (append_nil ts))
      (Yields-append ps qs cs [] ts [] y n)

Yields-content_part : (content : Option String) → Yields (content_part content) [] (text_in content)
unfolding content_part calls_of items_of texts_of
Yields-content_part none = (refl, refl)
Yields-content_part (some String.[]) = (refl, refl)
Yields-content_part (some (String.◌∷◌ c s)) = (refl, refl)

Yields-usage_part : (u : Option Usage) → Yields (usage_part u) [] []
unfolding usage_part calls_of items_of texts_of
Yields-usage_part none = (refl, refl)
Yields-usage_part (some u) = (refl, refl)

finish_part_quiet :
    (r : Option String) (pending : List (ℕ × Pending))
    → is_empty (or_empty r) ≡ true
    → finish_part r pending ≡ ([], pending)
unfolding finish_part or_empty
finish_part_quiet none pending h = refl
finish_part_quiet (some s) pending h = rw h refl

add_fragments-append :
    (fs gs : List Fragment) (pending : List (ℕ × Pending))
    → add_fragments (fs ++ gs) pending ≡ add_fragments gs (add_fragments fs pending)
unfolding add_fragments
add_fragments-append [] gs pending = refl
add_fragments-append (f ∷ fs) gs pending = add_fragments-append fs gs _

-- Choices that do not finish yield their texts and add their pieces.
Yields-read_choices :
    (cs : List Choice) (pending : List (ℕ × Pending))
    → All (λ choice. is_empty (or_empty choice.finish_reason) ≡ true) cs
    → Yields (read_choices cs pending).0 [] (texts_in cs)
      × ((read_choices cs pending).1 ≡ add_fragments (pieces_in cs) pending)
unfolding read_choices read_choice calls_of texts_of items_of
Yields-read_choices [] pending h = ((refl, refl), refl)
Yields-read_choices (c ∷ cs) pending (h, hs) =
    rw (finish_part_quiet c.finish_reason (add_fragments c.tool_calls pending) h) (
      let content = content_part c.content in
      let pending' = add_fragments c.tool_calls pending in
      let first =
        subst (λ p. Yields p [] (text_in c.content)) (append_nil content)
          (Yields-content_part c.content) in
      let (more, left) = Yields-read_choices cs pending' hs in
      (
        Yields-append (content ++ []) (read_choices cs pending').0 [] [] (text_in c.content)
            (texts_in cs) first more,
        left ∙ sym (add_fragments-append c.tool_calls (pieces_in cs) pending),
      ))

Yields-Unfinished :
    (chunks rest : List Chunk) (pending : List (ℕ × Pending)) (cs : List ToolCall)
    (ts : List String)
    → All Unfinished chunks
    → Yields (read_chunks rest (add_fragments (all_pieces chunks) pending)) cs ts
    → Yields (read_chunks (chunks ++ rest) pending) cs (all_texts chunks ++ ts)
unfolding read_chunks
Yields-Unfinished [] rest pending cs ts h y = y
Yields-Unfinished (c ∷ chunks) rest pending cs ts (h, hs) y =
    let (read, left) = Yields-read_choices c.choices pending h in
    let pending' = (read_choices c.choices pending).1 in
    let onward = Yields-Unfinished chunks rest pending' cs ts hs (
      subst (λ p. Yields (read_chunks rest p) cs ts)
        (add_fragments-append (pieces_in c.choices) (all_pieces chunks) pending
          ∙ ap (add_fragments (all_pieces chunks)) (sym left))
        y) in
    subst (Yields _ cs) (sym (append-append (texts_in c.choices) (all_texts chunks) ts)) (
      Yields-append (usage_part c.usage) _ [] cs [] _ (Yields-usage_part c.usage) (
        Yields-append (read_choices c.choices pending).0 _ [] cs (texts_in c.choices) _ read
          onward))

abbrev pub usage_chunk : Option Usage → Chunk
usage_chunk u = record { usage = u; choices = [] }

Yields-usage_chunks :
    (us : List (Option Usage)) (pending : List (ℕ × Pending))
    → Yields (read_chunks (map usage_chunk us) pending) [] []
unfolding read_chunks read_choices calls_of items_of texts_of
Yields-usage_chunks [] pending = (refl, refl)
Yields-usage_chunks (u ∷ us) pending =
    Yields-append (usage_part u) (read_chunks (map usage_chunk us) pending) [] [] [] []
      (Yields-usage_part u) (Yields-usage_chunks us pending)

-- The chunk that finishes the turn.
abbrev pub last_chunk : Option Usage → Option String → List Fragment → String → Chunk
last_chunk u content pieces reason = record {
  usage = u;
  choices = record { content = content; tool_calls = pieces; finish_reason = some reason } ∷ [];
}

texts_of-calls {ℓ} :
    {A : Type ℓ} (f : A → ToolCall) (xs : List A)
    → texts_of (items_of (map (λ x. calls (f x)) xs)) ≡ []
unfolding items_of texts_of
texts_of-calls f [] = refl
texts_of-calls f (x ∷ xs) = texts_of-calls f xs

Yields-release : (fs : List Fragment) → Yields (release (add_fragments fs [])) (calls_from fs) []
unfolding release
Yields-release fs =
    (calls_of-release fs, texts_of-calls whole_call (order_by lower_index (add_fragments fs [])))

finish_part_ends :
    (reason : String) (pending : List (ℕ × Pending))
    → is_empty reason ≡ false
    → finish_part (some reason) pending ≡ (release pending ++ said (finish reason) ∷ [], [])
unfolding finish_part
finish_part_ends reason pending h = rw h refl

Yields-last_chunk :
    (u : Option Usage) (content : Option String) (pieces : List Fragment) (reason : String)
    (rest : List Chunk) (pending : List (ℕ × Pending)) (cs : List ToolCall)
    → is_empty reason ≡ false
    → Yields (release (add_fragments pieces pending)) cs []
    → Yields (read_chunks rest []) [] []
    → Yields (read_chunks (last_chunk u content pieces reason ∷ rest) pending) cs (text_in content)
unfolding read_chunks read_choices read_choice calls_of items_of texts_of
Yields-last_chunk u content pieces reason rest pending cs r y after =
    rw (finish_part_ends reason (add_fragments pieces pending) r) (
      let kept = release (add_fragments pieces pending) in
      let ended = kept ++ said (finish reason) ∷ [] in
      let spoken = content_part content in
      let one =
        Yields-append spoken ended [] cs (text_in content) [] (Yields-content_part content)
          (Yields-then_nothing kept (said (finish reason) ∷ []) cs [] y (refl, refl)) in
      let two = subst (Yields (spoken ++ ended) cs) (sym (append_nil (text_in content))) one in
      let three =
        Yields-then_nothing ((spoken ++ ended)) [] cs (text_in content) two (refl, refl) in
      Yields-append (usage_part u) _ [] cs [] (text_in content) (Yields-usage_part u) (
        Yields-then_nothing ((spoken ++ ended) ++ []) (read_chunks rest []) cs (text_in content)
          three after))

-- However a provider cuts a turn's tool calls into pieces and mixes those of several calls with each
-- other and with text, if no choice before the last gives a reason to finish and only usage comes
-- after it: the texts are yielded as they came, less the empty ones, and each call is yielded once, in the
-- order of the indices, with the last id that was given and all its names and arguments in order.
pub stream-calls_from :
    (chunks : List Chunk) (u : Option Usage) (content : Option String) (pieces : List Fragment)
    (reason : String) (after : List (Option Usage)) (failure : Option SdkError)
    → All Unfinished chunks
    → is_empty reason ≡ false
    → Yields
        (stream (chunks ++ last_chunk u content pieces reason ∷ map usage_chunk after, failure)).0
        (calls_from (all_pieces chunks ++ pieces))
        (all_texts chunks ++ text_in content)
unfolding stream
stream-calls_from chunks u content pieces reason after failure h r =
    Yields-Unfinished chunks (last_chunk u content pieces reason ∷ map usage_chunk after) [] _ _ h (
      Yields-last_chunk u content pieces reason (map usage_chunk after)
        (add_fragments (all_pieces chunks) []) _ r
        (subst (λ p. Yields (release p) (calls_from (all_pieces chunks ++ pieces)) [])
          (add_fragments-append (all_pieces chunks) pieces [])
          (Yields-release (all_pieces chunks ++ pieces)))
        (Yields-usage_chunks after []))
