-- ===== src/Queries/Merge.antt =====
-- `newest_alerts` of apps/api/app/queries.py reads each team by itself and merges: what it gives is
-- the newest rows of all the teams together.
use triage_assistant.Prelude.{
  All-take, ℕ, zero, suc, ◌≡◌, refl, sym, ap, ◌∙◌, subst₂, inl, inr, Bool, true, false, ◌&&◌, ◌||◌,
  Option, none, some, List, [], ◌∷◌, ◌++◌, ◌==◌, Bool-cases, any, keep, keep_yes, keep_no, take,
  All, All-map, All-pair, All-append, All-keep_of_All, All-keep_weaken, keep_none, keep_cong, arith,
}
use triage_assistant.Models.{Alert}
use triage_assistant.Queries.Order.{
  insert, order_by, insert_all, Apart, Strict, Transitive, order_by-append, take-insert_all,
  order_by_comm, order_by_middle,
}
use triage_assistant.Queries.Sorted.{All-order_by, take-order_by-append}
use triage_assistant.Access.Roles.Visibility.{covers}
use triage_assistant.Queries.{newer, newest_where, per_team, newest_rows}

pub newer_trans : Transitive newer
unfolding newer
newer_trans a b c h k = ground arith

-- No id twice: the primary key.
abbrev pub Keyed : List Alert → Type 0
Keyed [] = Unit
Keyed (a ∷ rows) = All (λ b. (a.id == b.id) ≡ false) rows × Keyed rows

newer-Apart : (a b : Alert) → (a.id == b.id) ≡ false → Apart newer a b
unfolding newer
newer-Apart a b h = ground arith

-- No team twice.
abbrev pub Distinct : List ℕ → Type 0
Distinct [] = Unit
Distinct (t ∷ ts) = (any (λ u. u == t) ts ≡ false) × Distinct ts

pub Keyed-Strict : (alerts : List Alert) → Keyed alerts → Strict newer alerts
Keyed-Strict [] k = tt
Keyed-Strict (a ∷ rows) k =
    (All-map _ (Apart newer a) rows (newer-Apart a) k.0, Keyed-Strict rows k.1)

Apart-sym : (a b : Alert) → Apart newer a b → Apart newer b a
unfolding newer
Apart-sym a b h = ground arith

pub keep-Strict :
    (p : Alert → Bool) (rows : List Alert) → Strict newer rows → Strict newer (keep p rows)
keep-Strict p [] s = tt
keep-Strict p (a ∷ rows) s = elim (Bool-cases (p a)) [
  | inl e ↦ rw e (All-keep_of_All (Apart newer a) p rows s.0, keep-Strict p rows s.1)
  | inr e ↦ rw e (keep-Strict p rows s.1)
]

-- Each row of the one list is apart from each of the other.
abbrev AllApart : List Alert → List Alert → Type 0
AllApart xs ys = All (λ a. All (Apart newer a) ys) xs

module _ (p q : Alert → Bool) (apart : (a : Alert) → p a ≡ true → q a ≡ false) where
  -- Rows that pass the one test are apart from those that pass the other.
  keep-Apart : (rows : List Alert) → Strict newer rows → AllApart (keep p rows) (keep q rows)
  keep-Apart [] s = tt
  keep-Apart (a ∷ rows) s = elim (Bool-cases (p a)) [
    | inl e ↦
        subst₂ AllApart (sym (keep_yes p a rows e)) (sym (keep_no q a rows (apart a e)))
          (All-keep_of_All (Apart newer a) q rows s.0, keep-Apart rows s.1)
    | inr e ↦ elim (Bool-cases (q a)) [
      | inl k ↦ subst₂ AllApart (sym (keep_no p a rows e)) (sym (keep_yes q a rows k)) (
          All-pair (λ b. Apart newer b a) (λ b. All (Apart newer b) (keep q rows)) (keep p rows)
            (All-map (Apart newer a) (λ b. Apart newer b a) (keep p rows) (Apart-sym a)
              (All-keep_of_All (Apart newer a) p rows s.0))
            (keep-Apart rows s.1))
      | inr k ↦
          subst₂ AllApart (sym (keep_no p a rows e)) (sym (keep_no q a rows k))
            (keep-Apart rows s.1)
    ]
  ]

  -- Sorting the one and then the other is sorting both.
  order_by-keep_or :
      (rows : List Alert)
      → Strict newer rows
      → order_by newer (keep p rows ++ keep q rows) ≡ order_by newer (keep (λ a. p a || q a) rows)
  unfolding order_by
  order_by-keep_or [] s = refl
  order_by-keep_or (a ∷ rows) s = elim (Bool-cases (p a)) [
    | inl e ↦ rw (e, apart a e) (ap (insert newer a) (order_by-keep_or rows s.1))
    | inr e ↦ elim (Bool-cases (q a)) [
      | inl k ↦
          rw (e, k)
            (order_by_middle newer newer_trans a (keep p rows) (keep q rows)
                (All-keep_of_All (Apart newer a) p rows s.0)
              ∙ ap (insert newer a) (order_by-keep_or rows s.1))
      | inr k ↦ rw (e, k) (order_by-keep_or rows s.1)
    ]
  ]

abbrev pub DistinctTeams : Option (List ℕ) → Type 0
DistinctTeams none = Unit
DistinctTeams (some ids) = Distinct ids

one_team : (t u : ℕ) (b : Bool) → (b && u == t) ≡ ((t == u || false) && b)
one_team t u b = ground arith

take-nil : (n : ℕ) → ◌≡◌ {A = List Alert} (take n []) []
take-nil zero = refl
take-nil (suc n) = refl

module _ (p : Alert → Bool) (limit : ℕ) (alerts : List Alert) (keyed : Keyed alerts) where
  in_team : ℕ → Alert → Bool
  in_team t a = a.team_id == t && p a

  in_any : List ℕ → Alert → Bool
  in_any ts a = any (λ t. t == a.team_id) ts && p a

  any_of_team : (t : ℕ) (ts : List ℕ) (a : Alert) → in_team t a ≡ true → in_any (t ∷ ts) a ≡ true
  unfolding in_team in_any
  any_of_team t ts a e = ground arith

  any_of_any : (t : ℕ) (ts : List ℕ) (a : Alert) → in_any ts a ≡ true → in_any (t ∷ ts) a ≡ true
  unfolding in_any
  any_of_any t ts a e = ground arith

  any_split : (t : ℕ) (ts : List ℕ) (a : Alert) → (in_team t a || in_any ts a) ≡ in_any (t ∷ ts) a
  unfolding in_team in_any
  any_split t ts a = ground arith

  in_team_apart :
      (t : ℕ) (ts : List ℕ)
      → any (λ u. u == t) ts ≡ false
      → (a : Alert) → in_team t a ≡ true
      → in_any ts a ≡ false
  unfolding in_team in_any
  in_team_apart t ts h a e = rw (same a.team_id t (ground arith), h)
    where
      same : (x y : ℕ) → (x == y) ≡ true → x ≡ y
      same x y k = ground arith

  All-per_team {κ} :
      (P : Alert → Type κ) (ts : List ℕ)
      → All P (keep (in_any ts) alerts)
      → All P (per_team p limit alerts ts)
  unfolding per_team newest_where in_any in_team
  All-per_team P [] h = tt
  All-per_team P (t ∷ ts) h =
      All-append P (newest_where (λ a. a.team_id == t && p a) limit alerts)
        (per_team p limit alerts ts)
        (All-take P limit _ (
          All-order_by newer P _
            (All-keep_weaken P (in_team t) (in_any (t ∷ ts)) alerts (any_of_team t ts) h)))
        (All-per_team P ts
          (All-keep_weaken P (in_any ts) (in_any (t ∷ ts)) alerts (any_of_any t ts) h))

  limited_rest :
      (team others rest : List Alert)
      → take limit (order_by newer others) ≡ take limit (order_by newer rest)
      → take limit (order_by newer (team ++ others)) ≡ take limit (order_by newer (team ++ rest))
  limited_rest team others rest e =
      ap (take limit) (order_by-append newer team others)
      ∙ sym (take-insert_all newer limit team (order_by newer others))
      ∙ ap (λ r. take limit (insert_all newer team r)) e
      ∙ take-insert_all newer limit team (order_by newer rest)
      ∙ ap (take limit) (sym (order_by-append newer team rest))

  -- The rows of each team, each list cut short, are those of all the teams, cut short.
  take-per_team :
      (ts : List ℕ)
      → Distinct ts
      → take limit (order_by newer (per_team p limit alerts ts))
        ≡ take limit (order_by newer (keep (in_any ts) alerts))
  unfolding per_team newest_where in_any in_team
  take-per_team [] d = rw (keep_none (in_any []) alerts (λ a. refl))
  take-per_team (t ∷ ts) d =
      let strict = Keyed-Strict alerts keyed in
      let apart = in_team_apart t ts d.0 in
      let team = keep (in_team t) alerts in
      let others = per_team p limit alerts ts in
      let cut = take limit (order_by newer team) in
      let far : AllApart team others =
        All-map _ _ team (λ a. All-per_team (Apart newer a) ts)
          (keep-Apart (in_team t) (in_any ts) apart alerts strict) in
      ap (take limit) (
        order_by_comm newer newer_trans cut others
          (All-take _ limit _ (All-order_by newer (λ a. All (Apart newer a) others) team far)))
      ∙ take-order_by-append newer newer_trans limit others team
          (keep-Strict (in_team t) alerts strict)
      ∙ ap (take limit) (sym (order_by_comm newer newer_trans team others far))
      ∙ limited_rest team others (keep (in_any ts) alerts) (take-per_team ts d.1)
      ∙ ap (take limit) (
          order_by-keep_or (in_team t) (in_any ts) apart alerts strict
          ∙ ap (order_by newer) (keep_cong _ _ alerts (any_split t ts)))

-- For a caller's teams, each named once, `newest_alerts` gives the newest rows that pass the filters
-- among those teams' rows (among all rows, for every team), `limit` of them at most, however the
-- rows are spread over the teams.
pub newest_rows-newest_where :
    (team_ids : Option (List ℕ)) (p : Alert → Bool) (limit : ℕ) (alerts : List Alert)
    → Keyed alerts
    → DistinctTeams team_ids
    → newest_rows team_ids p limit alerts
      ≡ newest_where (λ a. covers team_ids a.team_id && p a) limit alerts
unfolding newest_rows newest_where order_by in_any
newest_rows-newest_where none p limit alerts keyed d = refl
newest_rows-newest_where (some []) p limit alerts keyed d =
    rw (keep_none (λ a. false) alerts (λ a. refl)) (sym (take-nil limit))
newest_rows-newest_where (some (t ∷ [])) p limit alerts keyed d =
    ap (λ r. take limit (order_by newer r)) (keep_cong _ _ alerts (λ a. one_team t a.team_id (p a)))
newest_rows-newest_where (some (t ∷ u ∷ ts)) p limit alerts keyed d =
    take-per_team p limit alerts keyed (t ∷ u ∷ ts) d
