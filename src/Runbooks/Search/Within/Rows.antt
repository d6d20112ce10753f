-- ===== src/Runbooks/Search/Within/Rows.antt =====
-- What a search of apps/api/app/runbooks.py may give, and that its parts give no other.
use mathlib.Core.List.{Memᴰ}
use triage_assistant.Prelude.{
  ℕ, suc, ◌≤◌, ◌≡◌, refl, subst, inl, inr, Bool, true, ◌&&◌, ◌||◌, ◌==◌, Option, some, List, [],
  ◌∷◌, map, length, keep, find, is_some, str_eq, String, if◌then◌else◌, All, All-map, All-Mem,
  All_at, All-map_of, All-pair, All-keep, All-keep_of_All, All-take, length-take, Bool-cases,
  Option-cases, ==_iff, arith,
}
use triage_assistant.Models.{Db, Runbook, RunbookChunk, Team}
use triage_assistant.Triage.Hits.{Hit}
use triage_assistant.Queries.Order.{order_by}
use triage_assistant.Queries.Sorted.{All-order_by}
use triage_assistant.Runbooks.Search.{
  Postgres, Ranked, in_teams, place_in, rank_of, better, nearer, matching, keyword_ids,
  semantic_rows, hit_of, ranked, is_candidate, joined, ranked_before, result, max_candidates,
}

-- The index gives only rows that there are.
abbrev pub GivesRows : Postgres → Type 0
GivesRows postgres =
    (n : ℕ) (rows : List (ℕ × ℕ)) → All (λ row. Memᴰ row rows) (postgres.nearest n rows)

-- No two sections have the same id.
abbrev pub Keyed : Db → Type 0
Keyed db =
    (c c' : RunbookChunk)
    → Memᴰ c db.runbook_chunks
    → Memᴰ c' db.runbook_chunks
    → c.id ≡ c'.id
    → c ≡ c'

-- A section in one of the teams, as it is stored, of a runbook and a team that are there.
abbrev pub Found : Option (List ℕ) → Db → Hit → Type 0
Found teams db h =
    (c : RunbookChunk) × (r : Runbook) × (t : Team) × Memᴰ c db.runbook_chunks
    × (in_teams teams c ≡ true)
    × (find (λ r. r.id == c.runbook_id) db.runbooks ≡ some r)
    × (find (λ t. t.id == c.team_id) db.teams ≡ some t)
    × (h ≡ hit_of c r t)

abbrev pub Within : Option (List ℕ) → ℕ → Db → List Ranked → Type 0
Within teams k db hits = All (λ row. Found teams db row.hit) hits × (length hits ≤ k)

module _ (teams : Option (List ℕ)) (db : Db) where
  abbrev pub Permitted : ℕ → Type 0
  unfolding in_teams
  Permitted i =
      (c : RunbookChunk) × Memᴰ c db.runbook_chunks × (in_teams teams c ≡ true) × (c.id ≡ i)

  All-matching :
      (rank : RunbookChunk → Option ℕ) (cs : List RunbookChunk)
      → All (λ c. Permitted c.id) cs
      → All (λ row. Permitted row.0) (matching rank cs)
  unfolding matching
  All-matching rank [] h = tt
  All-matching rank (c ∷ cs) h = elim (Option-cases (rank c)) [
    | inl e ↦ rw (e, All) (All-matching rank cs h.1)
    | inr (n, e) ↦ rw (e, All) (h.0, All-matching rank cs h.1)
  ]

  keep-Permitted :
      (p : RunbookChunk → Bool)
      → ((c : RunbookChunk) → p c ≡ true → in_teams teams c ≡ true)
      → All (λ c. Permitted c.id) (keep p db.runbook_chunks)
  unfolding in_teams
  keep-Permitted p f =
      All-map (λ c. Memᴰ c db.runbook_chunks × (p c ≡ true)) (λ c. Permitted c.id) _
        (λ c h. (c, h.0, f c h.1, refl))
        (All-pair (λ c. Memᴰ c db.runbook_chunks) (λ c. p c ≡ true) _
          (All-keep_of_All _ p db.runbook_chunks (All-Mem db.runbook_chunks))
          (All-keep p db.runbook_chunks))

  pub keyword_ids-Permitted :
      (postgres : Postgres) (query : String) → All Permitted (keyword_ids postgres query teams db)
  unfolding keyword_ids matching in_teams better
  keyword_ids-Permitted postgres query =
      All-map_of Permitted (λ row. row.0) _
        (All-take (λ row. Permitted row.0) max_candidates _
          (All-order_by better (λ row. Permitted row.0) _
            (All-matching (postgres.text_rank query) _
              (keep-Permitted (in_teams teams) (λ c h. h)))))

  pub semantic_rows-Permitted :
      (postgres : Postgres)
      → GivesRows postgres
      → (embedding key : String)
      → All (λ row. Permitted row.0) (semantic_rows postgres embedding key teams db)
  unfolding semantic_rows in_teams nearer
  semantic_rows-Permitted postgres gives embedding key =
      All-order_by nearer (λ row. Permitted row.0) _
        (All-map _ (λ row. Permitted row.0) _
          (λ row m.
            All_at (λ row. Permitted row.0) _ row
              (All-map_of (λ row. Permitted row.0) (λ c. (c.id, postgres.distance embedding c)) _
                (keep-Permitted (λ c. str_eq c.embedding_key key && in_teams teams c)
                  (λ c h. ground arith)))
              m)
          (gives max_candidates _))

  place_in_holds :
      (n id : ℕ) (ids : List ℕ)
      → All Permitted ids
      → is_some (place_in n id ids) ≡ true
      → Permitted id
  unfolding place_in in_teams
  place_in_holds n id [] h e = ground arith
  place_in_holds n id (i ∷ is) h e = elim (Bool-cases (i == id)) [
    | inl y ↦ subst Permitted ((==_iff i id).0 y) h.0
    | inr y ↦
        place_in_holds (suc n) id is h.1
          (subst (λ b. is_some (if b then some n else place_in (suc n) id is) ≡ true) y e)
  ]

  module _ (keywords : List ℕ) (nearest : List (ℕ × ℕ)) where
    is_candidate-Permitted :
        All Permitted keywords
        → All (λ row. Permitted row.0) nearest
        → (c : RunbookChunk) → is_candidate keywords nearest c ≡ true
        → Permitted c.id
    unfolding is_candidate rank_of place_in in_teams
    is_candidate-Permitted hk hs c e = elim (Bool-cases (is_some (rank_of c.id keywords))) [
      | inl y ↦ place_in_holds 1 c.id keywords hk y
      | inr y ↦
          place_in_holds 1 c.id (map (λ row. row.0) nearest)
            (All-map_of Permitted (λ row. row.0) nearest hs)
            (subst (λ b. (b || is_some (rank_of c.id (map (λ row. row.0) nearest))) ≡ true) y e)
    ]

    joined-Found :
        (cs : List RunbookChunk)
        → All (λ c. Memᴰ c db.runbook_chunks × (in_teams teams c ≡ true)) cs
        → All (λ row. Found teams db row.hit) (joined keywords nearest db cs)
    unfolding joined ranked in_teams hit_of
    joined-Found [] h = tt
    joined-Found (c ∷ cs) h = elim (Option-cases (find (λ r. r.id == c.runbook_id) db.runbooks)) [
      | inl e ↦ rw (e, All) (joined-Found cs h.1)
      | inr (r, e) ↦ elim (Option-cases (find (λ t. t.id == c.team_id) db.teams)) [
        | inl e' ↦ rw (e, e', All) (joined-Found cs h.1)
        | inr (t, e') ↦ rw (e, e', All) ((c, r, t, h.0.0, h.0.1, e, e', refl), joined-Found cs h.1)
      ]
    ]

    pub result-Within :
        Keyed db
        → (k : ℕ) → All Permitted keywords
        → All (λ row. Permitted row.0) nearest
        → Within teams k db (result keywords nearest k db)
    unfolding result joined ranked_before is_candidate in_teams
    result-Within keyed k hk hs =
        let rows =
          joined keywords nearest db (keep (is_candidate keywords nearest) db.runbook_chunks) in
        (
          All-take _ k _ (
              All-order_by (ranked_before keywords nearest) _ rows (
                joined-Found _ (
                  All-map (λ c. Memᴰ c db.runbook_chunks × (is_candidate keywords nearest c ≡ true))
                    _ _
                    (λ c h.
                      let (c', m, p, e) = is_candidate-Permitted hk hs c h.1 in
                      (h.0, subst (λ d. in_teams teams d ≡ true) (keyed c' c m h.0 e) p))
                    (All-pair _ _ _
                      (All-keep_of_All _ _ db.runbook_chunks (All-Mem db.runbook_chunks))
                      (All-keep (is_candidate keywords nearest) db.runbook_chunks))))),
          omega (arith, length-take k (order_by (ranked_before keywords nearest) rows)),
        )
