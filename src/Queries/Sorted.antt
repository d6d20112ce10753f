-- ===== src/Queries/Sorted.antt =====
-- What ORDER BY gives: rows in order, each as it was.
use triage_assistant.Prelude.{
  All-take, ℕ, zero, suc, ◌≡◌, refl, sym, ap, ◌∙◌, inl, inr, Bool, true, List, [], ◌∷◌, ◌++◌,
  Bool-cases, take, All, All-map, arith,
}
use triage_assistant.Queries.Order.{
  insert, order_by, insert_all, Apart, Strict, Transitive, Sorted, order_by-append, take-insert_all,
}

module _ {ℓ} {A : Type ℓ} (first : A → A → Bool) where
  All-insert {κ} :
      (P : A → Type κ) (x : A) (ys : List A) → P x → All P ys → All P (insert first x ys)
  unfolding insert
  All-insert P x [] p h = (p, tt)
  All-insert P x (y ∷ ys) p h = elim (Bool-cases (first x y)) [
    | inl e ↦ rw e (p, h)
    | inr e ↦ rw e (h.0, All-insert P x ys p h.1)
  ]

  pub All-order_by {κ} : (P : A → Type κ) (xs : List A) → All P xs → All P (order_by first xs)
  unfolding order_by
  All-order_by P [] h = tt
  All-order_by P (x ∷ xs) h = All-insert P x (order_by first xs) h.0 (All-order_by P xs h.1)

  insert-Sorted :
      Transitive first
      → (x : A) (ys : List A) → All (Apart first x) ys
      → Sorted first ys
      → Sorted first (insert first x ys)
  unfolding insert
  insert-Sorted trans x [] a s = (tt, tt)
  insert-Sorted trans x (y ∷ ys) a s = elim (Bool-cases (first x y)) [
    | inl e ↦ rw e ((e, All-map _ (λ z. first x z ≡ true) ys (λ z h. trans x y z e h) s.0), s)
    | inr e ↦ rw e (
      All-insert (λ z. first y z ≡ true) x ys (ground arith) s.0,
      insert-Sorted trans x ys a.1 s.1,
    )
  ]

  pub order_by-Sorted :
      Transitive first → (xs : List A) → Strict first xs → Sorted first (order_by first xs)
  unfolding order_by
  order_by-Sorted trans [] h = tt
  order_by-Sorted trans (x ∷ xs) h =
      insert-Sorted trans x (order_by first xs) (All-order_by (Apart first x) xs h.0)
        (order_by-Sorted trans xs h.1)

  pub take-Sorted : (n : ℕ) (xs : List A) → Sorted first xs → Sorted first (take n xs)
  take-Sorted zero xs s = tt
  take-Sorted (suc n) [] s = tt
  take-Sorted (suc n) (x ∷ xs) s = (All-take (λ y. first x y ≡ true) n xs s.0, take-Sorted n xs s.1)

  pub insert-first :
      (x : A) (ys : List A) → All (λ y. first x y ≡ true) ys → insert first x ys ≡ x ∷ ys
  unfolding insert
  insert-first x [] h = refl
  insert-first x (y ∷ ys) h = rw h.0

  -- Rows in order stay as they are.
  pub order_by_lem : (xs : List A) → Sorted first xs → order_by first xs ≡ xs
  unfolding order_by
  order_by_lem [] s = refl
  order_by_lem (x ∷ xs) s = ap (insert first x) (order_by_lem xs s.1) ∙ insert-first x xs s.0

  -- A limit on a part of the rows, in the same order, does not show under the same limit.
  pub take-order_by-append :
      Transitive first
      → (n : ℕ) (xs ys : List A) → Strict first ys
      → take n (order_by first (xs ++ take n (order_by first ys)))
        ≡ take n (order_by first (xs ++ ys))
  take-order_by-append trans n xs ys h =
      ap (take n) (
        order_by-append first xs (take n (order_by first ys))
        ∙ ap (insert_all first xs) (order_by_lem _ (take-Sorted n _ (order_by-Sorted trans ys h))))
      ∙ take-insert_all first n xs (order_by first ys)
      ∙ ap (take n) (sym (order_by-append first xs ys))
