-- ===== src/Llm/Stream/Assembled.antt =====
-- `stream` of apps/api/app/llm.py: a call is its pieces, put together by index.
use triage_assistant.Prelude.{
  append_nil, append_empty, keep-append, ℕ, ◌≡◌, refl, sym, ap, ◌∙◌, subst, inl, inr, true, false,
  String, List, [], ◌∷◌, ◌++◌, map, keep, All, append_assoc, ltb, ◌==◌, ==_iff, is_empty,
  if◌then◌else◌, ◌+++◌, Bool-cases, arith, append-append,
}
use triage_assistant.Queries.Order.{order_by-map, order_by}
use triage_assistant.Agent.{ToolCall, calls, calls_of}
use triage_assistant.Llm.Stream.{
  Fragment, Pending, nothing_yet, or_empty, name_of, arguments_of, add_piece, add_fragment,
  add_fragments, whole_call, lower_index, release,
}

-- The last id that is not empty.
abbrev last_id : List Fragment → String
last_id [] = ""
last_id (f ∷ fs) = let rest = last_id fs in if is_empty rest then or_empty f.id else rest

-- The pieces of one call.
abbrev pieces : ℕ → List Fragment → List Fragment
pieces i fs = keep (λ f. f.index == i) fs

abbrev names : List Fragment → String
names [] = ""
names (f ∷ fs) = name_of f.function +++ names fs

abbrev arguments : List Fragment → String
arguments [] = ""
arguments (f ∷ fs) = arguments_of f.function +++ arguments fs

-- A call as its pieces say: the last id, and all the names and arguments one after the other.
gathered : List Fragment → Pending
gathered fs = record { id = last_id fs; name = names fs; arguments = arguments fs }

pub assembled : List Fragment → ℕ → Pending
unfolding gathered
assembled fs i = gathered (pieces i fs)

abbrev add_index : ℕ → List ℕ → List ℕ
add_index n [] = n ∷ []
add_index n (i ∷ is) = if i == n then i ∷ is else i ∷ add_index n is

abbrev add_indices : List Fragment → List ℕ → List ℕ
add_indices [] is = is
add_indices (f ∷ fs) is = add_indices fs (add_index f.index is)

-- The indices of some pieces, each once.
abbrev pub indices : List Fragment → List ℕ
indices fs = add_indices fs []

names-append :
    (fs : List Fragment) (g : Fragment) → names (fs ++ g ∷ []) ≡ names fs +++ name_of g.function
names-append [] g = append_empty (name_of g.function)
names-append (f ∷ fs) g =
    ap (λ r. name_of f.function +++ r) (names-append fs g)
    ∙ sym (append_assoc (name_of f.function) (names fs) (name_of g.function))

arguments-append :
    (fs : List Fragment) (g : Fragment)
    → arguments (fs ++ g ∷ []) ≡ arguments fs +++ arguments_of g.function
arguments-append [] g = append_empty (arguments_of g.function)
arguments-append (f ∷ fs) g =
    ap (λ r. arguments_of f.function +++ r) (arguments-append fs g)
    ∙ sym (append_assoc (arguments_of f.function) (arguments fs) (arguments_of g.function))

self : (s : String) → s ≡ (if is_empty s then "" else s)
self String.[] = refl
self (String.◌∷◌ c s) = refl

last_id-append :
    (fs : List Fragment) (g : Fragment)
    → last_id (fs ++ g ∷ []) ≡ (if is_empty (or_empty g.id) then last_id fs else or_empty g.id)
last_id-append [] g = self (or_empty g.id)
last_id-append (f ∷ fs) g =
    rw (last_id-append fs g) (elim (Bool-cases (is_empty (or_empty g.id))) [
      | inl e ↦ rw e refl
      | inr e ↦ rw e (rw e refl)
    ])

gathered-append :
    (fs : List Fragment) (g : Fragment) → gathered (fs ++ g ∷ []) ≡ add_piece g (gathered fs)
unfolding gathered add_piece
gathered-append fs g = rw (last_id-append fs g, names-append fs g, arguments-append fs g) refl

updated : Fragment → (ℕ → Pending) → ℕ → Pending
updated g of_index i = if g.index == i then add_piece g (of_index i) else of_index i

assembled-append :
    (fs : List Fragment) (g : Fragment) (i : ℕ)
    → assembled (fs ++ g ∷ []) i ≡ updated g (assembled fs) i
unfolding assembled updated
assembled-append fs g i =
    ap gathered (keep-append (λ f. f.index == i) fs (g ∷ [])) ∙ elim (Bool-cases (g.index == i)) [
      | inl e ↦ rw e (gathered-append (pieces i fs) g)
      | inr e ↦ rw e (ap gathered (sym (append_nil (pieces i fs))))
    ]

-- A number that is not in a list.
abbrev Fresh : ℕ → List ℕ → Type 0
Fresh n is = All (λ i. (i == n) ≡ false) is

abbrev Distinct : List ℕ → Type 0
Distinct [] = Unit
Distinct (i ∷ is) = Fresh i is × Distinct is

Fresh-add_index : (m n : ℕ) (is : List ℕ) → (n == m) ≡ false → Fresh m is → Fresh m (add_index n is)
Fresh-add_index m n [] e h = (e, tt)
Fresh-add_index m n (i ∷ is) e (hi, hs) = elim (Bool-cases (i == n)) [
  | inl t ↦ rw (t, All) (hi, hs)
  | inr t ↦ rw (t, All) (hi, Fresh-add_index m n is e hs)
]

Distinct-add_index : (n : ℕ) (is : List ℕ) → Distinct is → Distinct (add_index n is)
Distinct-add_index n [] h = (tt, tt)
Distinct-add_index n (i ∷ is) (hi, hs) = elim (Bool-cases (i == n)) [
  | inl t ↦ rw (t, Distinct) (hi, hs)
  | inr t ↦
      rw (t, Distinct) (Fresh-add_index i n is (ground (arith, t)) hi, Distinct-add_index n is hs)
]

add_index_there : (n i : ℕ) (is : List ℕ) → (i == n) ≡ true → add_index n (i ∷ is) ≡ i ∷ is
add_index_there n i is t = rw t refl

add_index_next :
    (n i : ℕ) (is : List ℕ) → (i == n) ≡ false → add_index n (i ∷ is) ≡ i ∷ add_index n is
add_index_next n i is t = rw t refl

-- What is new in a list with one more number.
Fresh-of_add_index :
    (m n : ℕ) (is : List ℕ) → Fresh m (add_index n is) → ((n == m) ≡ false) × Fresh m is
Fresh-of_add_index m n [] (e, h) = (e, tt)
Fresh-of_add_index m n (i ∷ is) h = elim (Bool-cases (i == n)) [
  | inl t ↦ let k = subst (Fresh m) (add_index_there n i is t) h in (ground (arith, t, k.0), k)
  | inr t ↦
      let k = subst (Fresh m) (add_index_next n i is t) h in
      let r = Fresh-of_add_index m n is k.1 in (r.0, (k.0, r.1))
]

abbrev entry : (ℕ → Pending) → ℕ → ℕ × Pending
entry of_index i = (i, of_index i)

updated_self :
    (g : Fragment) (of_index : ℕ → Pending) (i : ℕ)
    → (g.index == i) ≡ true
    → updated g of_index i ≡ add_piece g (of_index i)
unfolding updated
updated_self g of_index i e = rw e refl

updated_other :
    (g : Fragment) (of_index : ℕ → Pending) (i : ℕ)
    → (i == g.index) ≡ false
    → of_index i ≡ updated g of_index i
unfolding updated
updated_other g of_index i e = let k : (g.index == i) ≡ false = ground (arith, e) in rw k refl

map-Fresh :
    (g : Fragment) (of_index : ℕ → Pending) (is : List ℕ)
    → Fresh g.index is
    → map (entry of_index) is ≡ map (entry (updated g of_index)) is
map-Fresh g of_index [] h = refl
map-Fresh g of_index (i ∷ is) (hi, hs) =
    ap (λ c. (i, c) ∷ map (entry of_index) is) (updated_other g of_index i hi)
    ∙ ap (λ r. (i, updated g of_index i) ∷ r) (map-Fresh g of_index is hs)

add_fragment-map :
    (g : Fragment) (of_index : ℕ → Pending) (is : List ℕ)
    → Distinct is
    → (Fresh g.index is → of_index g.index ≡ nothing_yet)
    → add_fragment g (map (entry of_index) is)
      ≡ map (entry (updated g of_index)) (add_index g.index is)
unfolding add_fragment
add_fragment-map g of_index [] d h =
    ap (λ c. (g.index, c) ∷ [])
      (ap (add_piece g) (sym (h tt))
        ∙ sym (updated_self g of_index g.index ((==_iff g.index g.index).1 refl)))
add_fragment-map g of_index (i ∷ is) (di, ds) h = elim (Bool-cases (i == g.index)) [
  | inl e ↦ rw e (
      ap (λ c. (i, c) ∷ map (entry of_index) is)
        (sym (updated_self g of_index i (ground (arith, e))))
      ∙ ap (λ r. (i, updated g of_index i) ∷ r)
          (map-Fresh g of_index is (subst (λ n. Fresh n is) ((==_iff i g.index).0 e) di)))
  | inr e ↦ rw e (
      ap (λ c. (i, c) ∷ add_fragment g (map (entry of_index) is)) (updated_other g of_index i e)
      ∙ ap (λ r. (i, updated g of_index i) ∷ r)
          (add_fragment-map g of_index is ds (λ fresh. h (e, fresh))))
]

map-entry_cong :
    (f g : ℕ → Pending) (is : List ℕ) → ((i : ℕ) → f i ≡ g i) → map (entry f) is ≡ map (entry g) is
map-entry_cong f g [] h = refl
map-entry_cong f g (i ∷ is) h =
    ap (λ c. (i, c) ∷ map (entry f) is) (h i) ∙ ap (λ r. (i, g i) ∷ r) (map-entry_cong f g is h)

-- No piece has come for a call that is not listed.
abbrev Covers : List Fragment → List ℕ → Type 0
Covers fs is = (i : ℕ) → Fresh i is → assembled fs i ≡ nothing_yet

Covers-add_index :
    (fs : List Fragment) (g : Fragment) (is : List ℕ)
    → Covers fs is
    → Covers (fs ++ g ∷ []) (add_index g.index is)
unfolding updated
Covers-add_index fs g is c i h =
    let k = Fresh-of_add_index i g.index is h in assembled-append fs g i ∙ rw k.0 (c i k.1)

add_fragments-assembled :
    (gs fs : List Fragment) (is : List ℕ)
    → Distinct is
    → Covers fs is
    → add_fragments gs (map (entry (assembled fs)) is)
      ≡ map (entry (assembled (fs ++ gs))) (add_indices gs is)
unfolding add_fragments
add_fragments-assembled [] fs is d c = ap (λ l. map (entry (assembled l)) is) (append_nil fs)
add_fragments-assembled (g ∷ gs) fs is d c =
    ap (add_fragments gs) (
      add_fragment-map g (assembled fs) is d (c g.index)
      ∙ map-entry_cong _ _ (add_index g.index is) (λ i. sym (assembled-append fs g i)))
    ∙ add_fragments-assembled gs (fs ++ g ∷ []) (add_index g.index is)
        (Distinct-add_index g.index is d) (Covers-add_index fs g is c)
    ∙ ap (λ l. map (entry (assembled l)) (add_indices gs (add_index g.index is)))
        (append-append fs (g ∷ []) gs)

-- The calls that some pieces are: one for each index, in the order of the indices.
pub calls_from : List Fragment → List ToolCall
calls_from fs = map (λ i. whole_call (i, assembled fs i)) (order_by ltb (indices fs))

calls_of-map-calls {ℓ} :
    {A : Type ℓ} (f : A → ToolCall) (xs : List A) → calls_of (map (λ x. calls (f x)) xs) ≡ map f xs
unfolding calls_of
calls_of-map-calls f [] = refl
calls_of-map-calls f (x ∷ xs) = ap (λ r. f x ∷ r) (calls_of-map-calls f xs)

map-map {ℓ κ ι} :
    {A : Type ℓ} {B : Type κ} {C : Type ι} (f : B → C) (g : A → B) (xs : List A)
    → map f (map g xs) ≡ map (λ x. f (g x)) xs
map-map f g [] = refl
map-map f g (x ∷ xs) = ap (λ r. f (g x) ∷ r) (map-map f g xs)

pub calls_of-release :
    (fs : List Fragment) → calls_of (release (add_fragments fs [])) ≡ calls_from fs
unfolding release calls_from lower_index assembled
calls_of-release fs =
    calls_of-map-calls whole_call (order_by lower_index (add_fragments fs []))
    ∙ ap (λ l. map whole_call (order_by lower_index l))
        (add_fragments-assembled fs [] [] tt (λ i h. refl))
    ∙ ap (map whole_call) (order_by-map lower_index (entry (assembled fs)) (indices fs))
    ∙ map-map whole_call (entry (assembled fs)) (order_by ltb (indices fs))
