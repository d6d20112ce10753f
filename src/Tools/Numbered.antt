-- ===== src/Tools/Numbered.antt =====
-- The numbers under which the tools of apps/api/app/tools.py give sections to the model.
use triage_assistant.Prelude.{
  append-append, append_nil, ℕ, zero, suc, ◌+◌, ◌==◌, ◌≡◌, refl, ◌∙◌, sym, ap, inl, inr, Option,
  none, some, List, [], ◌∷◌, ◌++◌, All, Bool-cases, arith, get_elem?, length, subst,
}
use triage_assistant.Triage.Hits.{Hit}
use triage_assistant.Tools.{number_from, placed, place, place_all}

-- A number refers to a hit in a list of sections: the section there is the same chunk.
abbrev pub Refers : List Hit → ℕ × Hit → Type 0
Refers known (n, hit) =
    (i : ℕ) × (s : Hit) × (n ≡ suc i) × (get_elem? known i ≡ some s) × (s.chunk_id ≡ hit.chunk_id)

-- What is known stays at its place.
abbrev pub Extends : List Hit → List Hit → Type 0
Extends known more = (new : List Hit) × (more ≡ known ++ new)

get-append :
    (xs ys : List Hit) (i : ℕ) (s : Hit) → get_elem? xs i ≡ some s → get_elem? (xs ++ ys) i ≡ some s
get-append [] ys i s h = absurd (ground (arith, h))
get-append (x ∷ xs) ys zero s h = h
get-append (x ∷ xs) ys (suc i) s h = get-append xs ys i s h

get-last : (xs : List Hit) (y : Hit) → get_elem? (xs ++ y ∷ []) (length xs) ≡ some y
get-last [] y = refl
get-last (x ∷ xs) y = get-last xs y

number_from-Refers :
    (k n id : ℕ) (ss : List Hit)
    → number_from k ss id ≡ some n
    → (i : ℕ) × (s : Hit) × (n ≡ k + i) × (get_elem? ss i ≡ some s) × (s.chunk_id ≡ id)
unfolding number_from
number_from-Refers k n id [] h = absurd (ground (arith, h))
number_from-Refers k n id (s ∷ ss) h = elim (Bool-cases (s.chunk_id == id)) [
  | inl e ↦ (0, s, ground (arith, (rw e at h)), refl, ground (arith, e))
  | inr e ↦
      let (i, t, n', g, c) = number_from-Refers (suc k) n id ss (rw e at h) in
      (suc i, t, omega (arith, n'), g, c)
]

placed-Refers :
    (hit : Hit) (known : List Hit) (o : Option ℕ)
    → number_from 1 known hit.chunk_id ≡ o
    → Refers (placed hit known o).1 ((placed hit known o).0, hit)
      × Extends known (placed hit known o).1
unfolding placed
placed-Refers hit known none e =
    ((length known, hit, refl, get-last known hit, refl), (hit ∷ [], refl))
placed-Refers hit known (some n) e =
    let (i, s, m, g, c) = number_from-Refers 1 n hit.chunk_id known e in
    ((i, s, omega (arith, m), g, c), ([], append_nil known))

Refers-Extends :
    (known more : List Hit) (r : ℕ × Hit) → Extends known more → Refers known r → Refers more r
Refers-Extends known more (n, hit) (new, e) (i, s, m, g, c) =
    (i, s, m, subst (λ l. get_elem? l i ≡ some s) (sym e) (get-append known new i s g), c)

-- Every section that a search gives the model has a number that refers to the same section in the
-- list against which citations are checked, and every section already in that list keeps its place.
pub place_all-Refers :
    (hits known : List Hit)
    → All (Refers (place_all hits known).1) (place_all hits known).0
      × Extends known (place_all hits known).1
unfolding place_all place
place_all-Refers [] known = (tt, ([], append_nil known))
place_all-Refers (hit ∷ hits) known =
    let (here, (a, e)) = placed-Refers hit known (number_from 1 known hit.chunk_id) refl in
    let known' = (place hit known).1 in
    let (there, (b, f)) = place_all-Refers hits known' in
    (
      (
        Refers-Extends known' (place_all hits known').1 ((place hit known).0, hit) (b, f) here,
        there,
      ),
      (a ++ b, f ∙ ap (λ t. t ++ b) e ∙ append-append known a b),
    )
