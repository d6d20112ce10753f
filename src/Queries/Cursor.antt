-- ===== src/Queries/Cursor.antt =====
-- Reading the rows after a row: what a keyset cursor keeps of rows in order.
use triage_assistant.Prelude.{
  String, ℕ, ◌≡◌, refl, sym, ap, ◌∙◌, inl, inr, Bool, true, false, ◌&&◌, List, [], ◌∷◌, ◌++◌,
  Bool-cases, keep, take, All, All-keep_of_All, All-map, keep_cong, keep_yes, keep_no, Option,
  arith,
}
use triage_assistant.Access.Roles.Visibility.{covers}
use triage_assistant.Models.{Alert}
use triage_assistant.Queries.Order.{insert, order_by, Strict, Sorted, Transitive}
use triage_assistant.Queries.Sorted.{order_by-Sorted, insert-first}
use triage_assistant.Queries.Merge.{
  newer_trans, Keyed, Keyed-Strict, keep-Strict, DistinctTeams, newest_rows-newest_where,
}
use triage_assistant.Queries.{
  newer, older_than, severity_is, is_before, passes, newest_where, newest_rows,
}

module _ {ℓ} {A : Type ℓ} (first : A → A → Bool) (trans : Transitive first) where
  insert_after :
      (x y : A) (ys : List A) → first x y ≡ false → insert first x (y ∷ ys) ≡ y ∷ insert first x ys
  unfolding insert
  insert_after x y ys e = rw e

  insert_before : (x y : A) (ys : List A) → first x y ≡ true → insert first x (y ∷ ys) ≡ x ∷ y ∷ ys
  unfolding insert
  insert_before x y ys e = rw e

  -- Leaving rows out of sorted rows and inserting a row commute.
  keep-insert_yes :
      (p : A → Bool) (x : A) (ys : List A)
      → p x ≡ true
      → Sorted first ys
      → keep p (insert first x ys) ≡ insert first x (keep p ys)
  unfolding insert
  keep-insert_yes p x [] e s = keep_yes p x [] e
  keep-insert_yes p x (y ∷ ys) e s = elim (Bool-cases (first x y)) [
    | inl b ↦
        ap (keep p) (insert_before x y ys b)
        ∙ keep_yes p x (y ∷ ys) e
        ∙ sym (
            insert-first first x (keep p (y ∷ ys)) (
              All-keep_of_All (λ z. first x z ≡ true) p (y ∷ ys)
                (b, All-map _ _ ys (λ z. trans x y z b) s.0)))
    | inr b ↦ elim (Bool-cases (p y)) [
      | inl k ↦
          ap (keep p) (insert_after x y ys b)
          ∙ keep_yes p y (insert first x ys) k
          ∙ ap (λ r. y ∷ r) (keep-insert_yes p x ys e s.1)
          ∙ sym (insert_after x y (keep p ys) b)
          ∙ ap (insert first x) (sym (keep_yes p y ys k))
      | inr k ↦
          ap (keep p) (insert_after x y ys b)
          ∙ keep_no p y (insert first x ys) k
          ∙ keep-insert_yes p x ys e s.1
          ∙ ap (insert first x) (sym (keep_no p y ys k))
    ]
  ]

  keep-insert_no :
      (p : A → Bool) (x : A) (ys : List A) → p x ≡ false → keep p (insert first x ys) ≡ keep p ys
  unfolding insert
  keep-insert_no p x [] e = keep_no p x [] e
  keep-insert_no p x (y ∷ ys) e = elim (Bool-cases (first x y)) [
    | inl b ↦ ap (keep p) (insert_before x y ys b) ∙ keep_no p x (y ∷ ys) e
    | inr b ↦ elim (Bool-cases (p y)) [
      | inl k ↦
          ap (keep p) (insert_after x y ys b)
          ∙ keep_yes p y (insert first x ys) k
          ∙ ap (λ r. y ∷ r) (keep-insert_no p x ys e)
          ∙ sym (keep_yes p y ys k)
      | inr k ↦
          ap (keep p) (insert_after x y ys b)
          ∙ keep_no p y (insert first x ys) k
          ∙ keep-insert_no p x ys e
          ∙ sym (keep_no p y ys k)
    ]
  ]

  -- Sorting and leaving rows out commute.
  pub order_by-keep :
      (p : A → Bool) (xs : List A)
      → Strict first xs
      → order_by first (keep p xs) ≡ keep p (order_by first xs)
  unfolding order_by
  order_by-keep p [] s = refl
  order_by-keep p (x ∷ xs) s = elim (Bool-cases (p x)) [
    | inl e ↦
        ap (order_by first) (keep_yes p x xs e)
        ∙ ap (insert first x) (order_by-keep p xs s.1)
        ∙ sym (keep-insert_yes p x (order_by first xs) e (order_by-Sorted first trans xs s.1))
    | inr e ↦
        ap (order_by first) (keep_no p x xs e)
        ∙ order_by-keep p xs s.1
        ∙ sym (keep-insert_no p x (order_by first xs) e)
  ]

  keep-All : (p : A → Bool) (xs : List A) → All (λ x. p x ≡ true) xs → keep p xs ≡ xs
  keep-All p [] h = refl
  keep-All p (x ∷ xs) h = keep_yes p x xs h.0 ∙ ap (λ r. x ∷ r) (keep-All p xs h.1)

  -- In sorted rows, those after a row are the ones that it comes before.
  pub keep_after :
      ((x y : A) → first x y ≡ true → first y x ≡ false)
      → ((x : A) → first x x ≡ false)
      → (pre : List A) (x : A) (post : List A) → Sorted first (pre ++ x ∷ post)
      → keep (first x) (pre ++ x ∷ post) ≡ post
  keep_after asym irr [] x post s = keep_no (first x) x post (irr x) ∙ keep-All (first x) post s.0
  keep_after asym irr (y ∷ pre) x post s =
      keep_no (first x) y (pre ++ x ∷ post) (asym y x (behind pre s.0))
      ∙ keep_after asym irr pre x post s.1
    where
      behind : (zs : List A) → All (λ z. first y z ≡ true) (zs ++ x ∷ post) → first y x ≡ true
      behind [] h = h.0
      behind (z ∷ zs) h = behind zs h.1

keep-keep {ℓ} :
    {A : Type ℓ} (p q : A → Bool) (xs : List A) → keep q (keep p xs) ≡ keep (λ x. p x && q x) xs
keep-keep p q [] = refl
keep-keep p q (x ∷ xs) = elim (Bool-cases (p x)) [
  | inl e ↦ elim (Bool-cases (q x)) [
    | inl k ↦
        ap (keep q) (keep_yes p x xs e)
        ∙ keep_yes q x (keep p xs) k
        ∙ ap (λ r. x ∷ r) (keep-keep p q xs)
        ∙ sym (keep_yes (λ y. p y && q y) x xs (rw e k))
    | inr k ↦
        ap (keep q) (keep_yes p x xs e)
        ∙ keep_no q x (keep p xs) k
        ∙ keep-keep p q xs
        ∙ sym (keep_no (λ y. p y && q y) x xs (rw e k))
  ]
  | inr e ↦
      ap (keep q) (keep_no p x xs e)
      ∙ keep-keep p q xs
      ∙ sym (keep_no (λ y. p y && q y) x xs (rw e))
]

pub newer_asym : (a b : Alert) → newer a b ≡ true → newer b a ≡ false
unfolding newer
newer_asym a b h = ground arith

pub newer_irr : (a : Alert) → newer a a ≡ false
unfolding newer
newer_irr a = ground arith

pub older_than-newer : (a b : Alert) → older_than (a.created_at, a.id) b ≡ newer a b
unfolding older_than newer
older_than-newer a b = ground arith

module _ (team_ids : Option (List ℕ)) (severity : Option String) (alerts : List Alert) where
  -- What the caller may see, newest first.
  unfoldable pub seen : List Alert
  seen = order_by newer (keep (λ a. covers team_ids a.team_id && severity_is severity a) alerts)

  pub seen-Sorted : Keyed alerts → Sorted newer seen
  unfolding seen
  seen-Sorted keyed =
      order_by-Sorted newer newer_trans _ (keep-Strict _ alerts (Keyed-Strict alerts keyed))

  -- The rows of a query are those, after its cursor, cut to its limit.
  pub newest_rows-seen :
      Keyed alerts
      → DistinctTeams team_ids
      → (limit : ℕ) (before : Option (ℕ × ℕ))
      → newest_rows team_ids (passes severity before) limit alerts
        ≡ take limit (keep (is_before before) seen)
  unfolding newest_where seen passes
  newest_rows-seen keyed d limit before =
      newest_rows-newest_where team_ids (passes severity before) limit alerts keyed d
      ∙ ap (λ r. take limit (order_by newer r))
          (keep_cong _ _ alerts (λ a.
              regroup (covers team_ids a.team_id) (severity_is severity a) (is_before before a))
            ∙ sym (keep-keep _ (is_before before) alerts))
      ∙ ap (take limit) (
          order_by-keep newer newer_trans (is_before before) _
            (keep-Strict _ alerts (Keyed-Strict alerts keyed)))
    where
      regroup : (b c d : Bool) → (b && (c && d)) ≡ ((b && c) && d)
      regroup true c d = refl
      regroup false c d = refl
