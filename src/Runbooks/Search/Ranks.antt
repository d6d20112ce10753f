-- ===== src/Runbooks/Search/Ranks.antt =====
-- The ranks and scores of a search of runbooks in apps/api/app/runbooks.py, and the rows that its two
-- retrievers give.
use triage_assistant.Prelude.{
  ℕ, suc, ◌+◌, ◌*◌, String, Bool, true, ◌&&◌, ◌||◌, ◌==◌, Option, none, some, List, [], ◌∷◌, any,
  map, keep, take, ltb, str_eq, if◌then◌else◌,
}
use triage_assistant.Models.{Db, RunbookChunk}
use triage_assistant.Queries.Order.{order_by}
use triage_assistant.Triage.Hits.{Hit}

-- What Postgres computes: how well a section's text matches a question, if it does; how far its
-- vector is from the question's, both as numbers in the same order; and the rows, each an id and a
-- distance, that a scan of the index gives for a limit.
pub record Postgres : Type 0 where
  pub text_rank : String → RunbookChunk → Option ℕ
  pub distance : String → RunbookChunk → ℕ
  pub nearest : ℕ → List (ℕ × ℕ) → List (ℕ × ℕ)

abbrev pub max_candidates : ℕ
max_candidates = 20

abbrev pub rrf_k : ℕ
rrf_k = 60

pub data Mode : Type 0 where
  hybrid : Mode
  keyword : Mode
  semantic : Mode
  keyword_only : Mode

-- A score; zero is over one.
pub record Fraction : Type 0 where
  pub over : ℕ
  pub under : ℕ

unfoldable pub plus : Fraction → Fraction → Fraction
plus a b = record { over = a.over * b.under + b.over * a.under; under = a.under * b.under }

unfoldable pub less : Fraction → Fraction → Bool
less a b = ltb (a.over * b.under) (b.over * a.under)

-- `coalesce(1.0 / (:rrf_k + rank_no), 0)`
unfoldable pub share : Option ℕ → Fraction
share none = record { over = 0; under = 1 }
share (some n) = record { over = 1; under = rrf_k + n }

-- A row of the result. Its hit leaves out what follows here.
pub record Ranked : Type 0 where
  pub hit : Hit
  pub score : Fraction
  pub keyword_rank : Option ℕ
  pub semantic_rank : Option ℕ
  pub distance : Option ℕ

-- What a search returns: `Retrieval`.
pub record Retrieval : Type 0 where
  pub hits : List Ranked
  pub mode : Mode
  pub embedding_error : Option String

-- None is an org admin's search, of every team.
unfoldable pub in_teams : Option (List ℕ) → RunbookChunk → Bool
in_teams none c = true
in_teams (some ids) c = any (λ id. id == c.team_id) ids

-- The place of a number in a list, counted from `n`.
unfoldable pub place_in : ℕ → ℕ → List ℕ → Option ℕ
place_in n id [] = none
place_in n id (i ∷ is) = let later = place_in (suc n) id is in if i == id then some n else later

-- `row_number()`
unfoldable pub rank_of : ℕ → List ℕ → Option ℕ
unfolding place_in
rank_of id ids = place_in 1 id ids

unfoldable pub distance_of : ℕ → List (ℕ × ℕ) → Option ℕ
distance_of id [] = none
distance_of id ((i, d) ∷ rest) =
    let later = distance_of id rest in if i == id then some d else later

-- Better matches first, then lower ids; nearer rows first, then lower ids.
unfoldable pub better : ℕ × ℕ → ℕ × ℕ → Bool
better (i, a) (j, b) = ltb b a || (a == b && ltb i j)

unfoldable pub nearer : ℕ × ℕ → ℕ × ℕ → Bool
nearer (i, a) (j, b) = ltb a b || (a == b && ltb i j)

unfoldable pub matching : (RunbookChunk → Option ℕ) → List RunbookChunk → List (ℕ × ℕ)
matching rank [] = []
matching rank (c ∷ cs) = elim (rank c) [
  | none ↦ matching rank cs
  | some n ↦ (c.id, n) ∷ matching rank cs
]

module _ (postgres : Postgres) where
  -- `_KEYWORD`
  unfoldable pub keyword_ids : String → Option (List ℕ) → Db → List ℕ
  unfolding matching in_teams better
  keyword_ids query teams db =
      map (λ row. row.0)
        (take max_candidates (
          order_by better
            (matching (postgres.text_rank query) (keep (in_teams teams) db.runbook_chunks))))

  -- `_SEMANTIC`
  unfoldable pub semantic_rows : String → String → Option (List ℕ) → Db → List (ℕ × ℕ)
  unfolding in_teams nearer
  semantic_rows embedding key teams db = order_by nearer (
      postgres.nearest max_candidates (
        map (λ c. (c.id, postgres.distance embedding c))
          (keep (λ c. str_eq c.embedding_key key && in_teams teams c) db.runbook_chunks)))
