-- ===== src/Runbooks/Save/Whole/Chunks.antt =====
-- The rows that `save_runbook` of apps/api/app/runbooks.py writes for sections.
use triage_assistant.Prelude.{
  ℕ, suc, ◌==◌, ◌≡◌, refl, ap, inl, inr, String, not, some, List, [], ◌∷◌, ◌++◌, map, keep, length,
  All, Bool-cases, ==_iff, arith,
}
use triage_assistant.Models.{Db, RunbookChunk}
use triage_assistant.Runbooks.Sections.{Section}
use triage_assistant.Runbooks.Save.{Upload, new_chunk, chunks_of}
use triage_assistant.Llm.Embeddings.{embedding_dim}
use triage_assistant.Llm.Embeddings.Sized.{Sized}

-- The sections that are stored for a runbook, in order.
abbrev pub stored_sections : ℕ → Db → List RunbookChunk
stored_sections id db = keep (λ c. c.runbook_id == id) db.runbook_chunks

-- They are these sections, each with a vector of the database's size.
pub record Whole (size : String → ℕ) (sections : List Section) (chunks : List RunbookChunk)
    : Type 0 where
  pub texts : map (λ c. record { heading = c.heading; content = c.content }) chunks ≡ sections
  pub sized : All (λ c. size c.embedding ≡ embedding_dim) chunks

module _ (size : String → ℕ) (runbook_id : ℕ) (u : Upload) where
  -- The rows of some sections.
  pub chunks_of-Whole :
      (id n : ℕ) (sections : List Section) (vectors : List String)
      → Sized size (length sections) vectors
      → (rows : List RunbookChunk) × (chunks_of runbook_id u id n sections vectors ≡ some rows)
        × Whole size sections rows
        × All (λ c. c.runbook_id ≡ runbook_id) rows
  unfolding chunks_of new_chunk
  chunks_of-Whole id n [] [] h = ([], refl, record { texts = refl; sized = tt }, tt)
  chunks_of-Whole id n [] (v ∷ vs) (l, s) = absurd (ground (arith, l))
  chunks_of-Whole id n (s ∷ ss) [] (l, z) = absurd (ground (arith, l))
  chunks_of-Whole id n (s ∷ ss) (v ∷ vs) (l, (z, zs)) =
      let (rows, made, whole, ids) =
        chunks_of-Whole (suc id) (suc n) ss vs (ground (arith, l), zs) in
      (
        new_chunk runbook_id u id n s v ∷ rows,
        rw made refl,
        record { texts = ap (λ r. s ∷ r) whole.texts; sized = (z, whole.sized) },
        (refl, ids),
      )

pub keep_replaced :
    (id : ℕ) (chunks rows : List RunbookChunk)
    → All (λ c. c.runbook_id ≡ id) rows
    → keep (λ c. c.runbook_id == id) (keep (λ c. not (c.runbook_id == id)) chunks ++ rows) ≡ rows
keep_replaced id [] [] h = refl
keep_replaced id [] (r ∷ rows) (h, hs) =
    rw ((==_iff r.runbook_id id).1 h) (ap (λ l. r ∷ l) (keep_replaced id [] rows hs))
keep_replaced id (c ∷ chunks) rows h = elim (Bool-cases (c.runbook_id == id)) [
  | inl e ↦ rw e (keep_replaced id chunks rows h)
  | inr e ↦ rw e (rw e (keep_replaced id chunks rows h))
]
