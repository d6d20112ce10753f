-- ===== src/Prelude/Members.antt =====
-- Members of a list, and what holds of all of them.
use mathlib.Core.List.Memᴰ
use mathlib.Core.Path.{◌≡◌, refl, ap, sym, subst, ◌∙◌}
use mathlib.Core.Logic.{inl, inr}
use mathlib.Core.Bool.{Bool, true, false, not}
use mathlib.Core.List.{List, [], ◌∷◌, map, Memᴰ}
use mathlib.Core.Option.{none, some, some-injective}
use native.Mathlib.Omega.{arith}
use triage_assistant.Prelude.Tests.{if◌then◌else◌, Bool-cases}
use triage_assistant.Prelude.Lists.{All, All-map, All-keep_of_All, find, keep}

pub All-Mem {ℓ} : {A : Type ℓ} (xs : List A) → All (λ x. Memᴰ x xs) xs
All-Mem [] = tt
All-Mem (x ∷ xs) = (
  Memᴰ.head refl,
  All-map (λ y. Memᴰ y xs) (λ y. Memᴰ y (x ∷ xs)) xs (λ y m. Memᴰ.tail m) (All-Mem xs),
)

pub All-every {ℓ κ} : {A : Type ℓ} (P : A → Type κ) (xs : List A) → ((x : A) → P x) → All P xs
All-every P [] f = tt
All-every P (x ∷ xs) f = (f x, All-every P xs f)

pub All_at {ℓ κ} : {A : Type ℓ} (P : A → Type κ) (xs : List A) (x : A) → All P xs → Memᴰ x xs → P x
All_at P [] x h m = absurd (Memᴰ.not-nil m)
All_at P (y ∷ ys) x h (Memᴰ.head e) = subst P (sym e) h.0
All_at P (y ∷ ys) x h (Memᴰ.tail m) = All_at P ys x h.1 m

pub All-map_of {ℓ ℓ' κ} :
    {A : Type ℓ} {B : Type ℓ'} (P : B → Type κ) (f : A → B) (xs : List A)
    → All (λ x. P (f x)) xs
    → All P (map f xs)
All-map_of P f [] h = tt
All-map_of P f (x ∷ xs) h = (h.0, All-map_of P f xs h.1)

pub keep_Mem {ℓ} :
    {A : Type ℓ} (p : A → Bool) (xs : List A) (x : A) → Memᴰ x (keep p xs) → Memᴰ x xs
keep_Mem p xs x m =
    All_at (λ y. Memᴰ y xs) (keep p xs) x (All-keep_of_All (λ y. Memᴰ y xs) p xs (All-Mem xs)) m

pub find-keep-not {ℓ} :
    {A : Type ℓ} (p : A → Bool) (xs : List A) → find p (keep (λ x. not (p x)) xs) ≡ none
find-keep-not p [] = refl
find-keep-not p (x ∷ xs) = elim (Bool-cases (p x)) [
  | inl e ↦ rw e (find-keep-not p xs)
  | inr e ↦ rw (e, e) (find-keep-not p xs)
]

-- What is looked for is no less there without what is not.
pub find-keep {ℓ} :
    {A : Type ℓ} (p q : A → Bool) (xs : List A)
    → ((x : A) → p x ≡ true → q x ≡ true)
    → find p (keep q xs) ≡ find p xs
find-keep p q [] f = refl
find-keep p q (x ∷ xs) f = elim (Bool-cases (q x)) [
  | inl e ↦ rw e (ap (λ rest. if p x then some x else rest) (find-keep p q xs f))
  | inr e ↦ rw e (find-keep p q xs f ∙ sym (skipped (p x) (f x) e))
]
  where
    skipped :
        (b : Bool)
        → (b ≡ true → q x ≡ true)
        → q x ≡ false
        → (if b then some x else find p xs) ≡ find p xs
    skipped true g e = ground (arith, g refl)
    skipped false g e = refl

pub keep-keep {ℓ} :
    {A : Type ℓ} (p q : A → Bool) (xs : List A)
    → ((x : A) → p x ≡ true → q x ≡ true)
    → keep p (keep q xs) ≡ keep p xs
keep-keep p q [] f = refl
keep-keep p q (x ∷ xs) f = elim (Bool-cases (q x)) [
  | inl e ↦ rw e (ap (λ rest. if p x then x ∷ rest else rest) (keep-keep p q xs f))
  | inr e ↦ rw e (keep-keep p q xs f ∙ sym (skipped (p x) (f x) e))
]
  where
    skipped :
        (b : Bool)
        → (b ≡ true → q x ≡ true)
        → q x ≡ false
        → (if b then x ∷ keep p xs else keep p xs) ≡ keep p xs
    skipped true g e = ground (arith, g refl)
    skipped false g e = refl

-- What holds of all elements holds of the one that is found.
pub All-find {ℓ κ} :
    {A : Type ℓ} (P : A → Type κ) (p : A → Bool) (xs : List A) (x : A)
    → All P xs
    → find p xs ≡ some x
    → P x
All-find P p [] x h e = ground arith
All-find P p (y ∷ ys) x h e = elim (Bool-cases (p y)) [
  | inl b ↦
      subst P (some-injective _ _ (subst (λ b. (if b then some y else find p ys) ≡ some x) b e)) h.0
  | inr b ↦ All-find P p ys x h.1 (subst (λ b. (if b then some y else find p ys) ≡ some x) b e)
]
