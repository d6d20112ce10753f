-- ===== src/Queries/Order.antt =====
-- ORDER BY and LIMIT of the statements in apps/api/app: sorting by insertion, and what a limit on
-- parts of the rows changes. Rows are compared by a test `first`.
use triage_assistant.Prelude.{
  ℕ, zero, suc, ◌≡◌, refl, sym, ap, ◌∙◌, inl, inr, Bool, true, not, List, [], ◌∷◌, ◌++◌,
  if◌then◌else◌, Bool-cases, take, take-take, All, arith,
}
use mathlib.Core.List.{append-nil, map}

take-take-suc {ℓ} : {A : Type ℓ} (n : ℕ) (zs : List A) → take n (take (suc n) zs) ≡ take n zs
take-take-suc zero zs = refl
take-take-suc (suc n) [] = refl
take-take-suc (suc n) (z ∷ zs) = ap (λ r. z ∷ r) (take-take-suc n zs)

take_short {ℓ} :
    {A : Type ℓ} (n : ℕ) (z : A) (zs : List A) → take n (z ∷ take n zs) ≡ take n (z ∷ zs)
take_short zero z zs = refl
take_short (suc n) z zs = ap (λ r. z ∷ r) (take-take-suc n zs)

module _ {ℓ} {A : Type ℓ} (first : A → A → Bool) where
  unfoldable pub insert : A → List A → List A
  insert x [] = x ∷ []
  insert x (y ∷ ys) = let rest = insert x ys in if first x y then x ∷ y ∷ ys else y ∷ rest

  unfoldable pub order_by : List A → List A
  unfolding insert
  order_by [] = []
  order_by (x ∷ xs) = insert x (order_by xs)

  -- One of two rows comes before the other.
  abbrev pub Apart : A → A → Type 0
  Apart x y = first y x ≡ not (first x y)

  abbrev pub Strict : List A → Type 0
  Strict [] = Unit
  Strict (x ∷ xs) = All (Apart x) xs × Strict xs

  -- What the comparison is.
  abbrev pub Transitive : Type ℓ
  Transitive = (x y z : A) → first x y ≡ true → first y z ≡ true → first x z ≡ true

  abbrev pub Sorted : List A → Type 0
  Sorted [] = Unit
  Sorted (x ∷ xs) = All (λ y. first x y ≡ true) xs × Sorted xs

  pub insert_comm :
      Transitive
      → (x y : A) (zs : List A) → Apart x y
      → insert x (insert y zs) ≡ insert y (insert x zs)
  unfolding insert
  insert_comm trans x y [] a = ground arith
  insert_comm trans x y (z ∷ zs) a =
      ground (arith, insert_comm trans x y zs, trans x y z, trans y x z)

  -- A limit on the rows that a row is inserted into does not show under the same limit.
  pub take-insert :
      (n : ℕ) (x : A) (ys : List A) → take n (insert x (take n ys)) ≡ take n (insert x ys)
  unfolding insert
  take-insert zero x ys = refl
  take-insert (suc n) x [] = refl
  take-insert (suc n) x (y ∷ ys) = elim (Bool-cases (first x y)) [
    | inl e ↦ rw e (ap (λ r. x ∷ r) (take_short n y ys))
    | inr e ↦ rw e (ap (λ r. y ∷ r) (take-insert n x ys))
  ]

  -- Inserting all of a list.
  unfoldable pub insert_all : List A → List A → List A
  insert_all [] ys = ys
  insert_all (x ∷ xs) ys = insert x (insert_all xs ys)

  pub order_by-append : (xs ys : List A) → order_by (xs ++ ys) ≡ insert_all xs (order_by ys)
  unfolding order_by insert_all
  order_by-append [] ys = refl
  order_by-append (x ∷ xs) ys = ap (insert x) (order_by-append xs ys)

  pub take-insert_all :
      (n : ℕ) (xs ys : List A) → take n (insert_all xs (take n ys)) ≡ take n (insert_all xs ys)
  unfolding insert_all
  take-insert_all n [] ys = take-take n ys
  take-insert_all n (x ∷ xs) ys =
      sym (take-insert n x (insert_all xs (take n ys)))
      ∙ ap (λ r. take n (insert x r)) (take-insert_all n xs ys)
      ∙ take-insert n x (insert_all xs ys)

  insert-insert_all :
      Transitive
      → (x : A) (xs ys : List A) → All (Apart x) xs
      → insert x (insert_all xs ys) ≡ insert_all xs (insert x ys)
  unfolding insert_all
  insert-insert_all trans x [] ys a = refl
  insert-insert_all trans x (y ∷ xs) ys a =
      insert_comm trans x y (insert_all xs ys) a.0
      ∙ ap (insert y) (insert-insert_all trans x xs ys a.1)

  -- A row may stand behind the rows that it is apart from.
  pub order_by_middle :
      Transitive
      → (x : A) (ys zs : List A) → All (Apart x) ys
      → order_by (ys ++ x ∷ zs) ≡ insert x (order_by (ys ++ zs))
  unfolding order_by
  order_by_middle trans x ys zs a =
      order_by-append ys (x ∷ zs)
      ∙ sym (insert-insert_all trans x ys (order_by zs) a)
      ∙ ap (insert x) (sym (order_by-append ys zs))

  -- The order does not depend on which of two lists comes first.
  pub order_by_comm :
      Transitive
      → (xs ys : List A) → All (λ x. All (Apart x) ys) xs
      → order_by (xs ++ ys) ≡ order_by (ys ++ xs)
  unfolding order_by
  order_by_comm trans [] ys a = ap order_by (sym (append-nil ys))
  order_by_comm trans (x ∷ xs) ys a =
      ap (insert x) (order_by_comm trans xs ys a.1) ∙ sym (order_by_middle trans x ys xs a.0)

module _ {ℓ κ} {A : Type ℓ} {B : Type κ} (first : B → B → Bool) (f : A → B) where
  insert-map :
      (x : A) (ys : List A)
      → insert first (f x) (map f ys) ≡ map f (insert (λ a b. first (f a) (f b)) x ys)
  unfolding insert
  insert-map x [] = refl
  insert-map x (y ∷ ys) = elim (Bool-cases (first (f x) (f y))) [
    | inl e ↦ rw e refl
    | inr e ↦ rw e (ap (λ r. f y ∷ r) (insert-map x ys))
  ]

  pub order_by-map :
      (xs : List A) → order_by first (map f xs) ≡ map f (order_by (λ a b. first (f a) (f b)) xs)
  unfolding order_by
  order_by-map [] = refl
  order_by-map (x ∷ xs) =
      ap (insert first (f x)) (order_by-map xs)
      ∙ insert-map x (order_by (λ a b. first (f a) (f b)) xs)
