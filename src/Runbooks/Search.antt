-- ===== src/Runbooks/Search.antt =====
-- `search_runbooks` of apps/api/app/runbooks.py, with the statements that it assembles read as what
-- they say of rows. Spans are left out.
pub mod Ranks
pub mod Fallback
pub mod Within
pub mod Samples
mod Tests
unfoldable pub use Ranks.*
use triage_assistant.Prelude.{
  not, ℕ, zero, suc, ◌+◌, ◌*◌, String, Bool, true, false, ◌&&◌, ◌||◌, ◌==◌, Option, none, some,
  List, [], ◌∷◌, any, map, keep, find, take, ltb, is_some, str_eq, if◌then◌else◌, ◌+++◌,
}
use triage_assistant.Settings.{Settings}
use triage_assistant.Models.{Db, Runbook, RunbookChunk, Team}
use triage_assistant.Queries.Order.{order_by}
use triage_assistant.Triage.Hits.{Hit}
use triage_assistant.Runbooks.Embed.{
  Outcome, done, llm_error, value_error, Embedder, embed_texts, embedding_key,
}

-- The joined row of a section, whose runbook and team are there.
unfoldable pub hit_of : RunbookChunk → Runbook → Team → Hit
hit_of c r t = record {
  chunk_id = c.id;
  runbook_id = c.runbook_id;
  team = t.slug;
  title = r.title;
  heading = c.heading;
  content = c.content;
  updated_at = r.updated_at;
  runbook_sha256 = r.body_sha256;
}

module _ (keywords : List ℕ) (nearest : List (ℕ × ℕ)) where
  unfoldable pub ranked : RunbookChunk → Runbook → Team → Ranked
  unfolding hit_of plus share rank_of distance_of
  ranked c r t = record {
    hit = hit_of c r t;
    score =
        plus (share (rank_of c.id keywords)) (share (rank_of c.id (map (λ row. row.0) nearest)));
    keyword_rank = rank_of c.id keywords;
    semantic_rank = rank_of c.id (map (λ row. row.0) nearest);
    distance = distance_of c.id nearest;
  }

  unfoldable pub is_candidate : RunbookChunk → Bool
  unfolding rank_of
  is_candidate c =
      is_some (rank_of c.id keywords) || is_some (rank_of c.id (map (λ row. row.0) nearest))

  unfoldable pub joined : Db → List RunbookChunk → List Ranked
  unfolding ranked
  joined db [] = []
  joined db (c ∷ cs) = elim (find (λ r. r.id == c.runbook_id) db.runbooks) [
    | none ↦ joined db cs
    | some r ↦ elim (find (λ t. t.id == c.team_id) db.teams) [
      | none ↦ joined db cs
      | some t ↦ ranked c r t ∷ joined db cs
    ]
  ]

  unfoldable pub ranked_before : Ranked → Ranked → Bool
  unfolding less
  ranked_before a b =
      less b.score a.score || (not (less a.score b.score) && ltb a.hit.chunk_id b.hit.chunk_id)

  -- `_RESULT`
  unfoldable pub result : ℕ → Db → List Ranked
  unfolding is_candidate joined ranked_before
  result k db = take k (order_by ranked_before (joined db (keep is_candidate db.runbook_chunks)))

unfoldable pub has_any {ℓ} : {A : Type ℓ} → List A → Bool
has_any [] = false
has_any (x ∷ xs) = true

-- What became of the question's vector: not asked for, or the reason why there is none.
pub data Question : Type 0 where
  embedded : String → Question
  unembedded : Option String → Question

-- `(await _embed(…))[0]`; None is another exception.
unfoldable pub first_vector : Outcome (List String) → Option Question
first_vector (done []) = none
first_vector (done (v ∷ vs)) = some (embedded v)
first_vector (llm_error code message) = some (unembedded (some code))
first_vector value_error = none

unfoldable pub embed_question :
    {W : Type 0}
    → Embedder W
    → (String → String)
    → Settings
    → Mode
    → Option String
    → String
    → W
    → Option Question × W
unfolding first_vector embed_texts
embed_question embedder redact settings keyword model query w = (some (unembedded none), w)
embed_question embedder redact settings mode none query w =
    (some (unembedded (some "embeddings_off")), w)
embed_question embedder redact settings mode (some model) query w =
    let (vectors, w') =
      embed_texts embedder redact ((settings.embedding_query_prefix +++ query) ∷ []) w in
    (first_vector vectors, w')

module _ (postgres : Postgres) (settings : Settings) (sha256 : String → String) (query : String)
    (teams : Option (List ℕ)) (k : ℕ) (db : Db) where
  unfoldable pub by_keyword : Mode → Option String → Retrieval
  unfolding keyword_ids result
  by_keyword mode error = record {
    hits = result (keyword_ids postgres query teams db) [] k db;
    mode = mode;
    embedding_error = error;
  }

  unfoldable pub by_vector : List (ℕ × ℕ) → Retrieval
  unfolding result
  by_vector nearest = record {
    hits = result [] nearest k db;
    mode = semantic;
    embedding_error = none;
  }

  -- No row near the question is said only of a search that found something.
  unfoldable pub by_both : List (ℕ × ℕ) → Retrieval
  unfolding keyword_ids result has_any
  by_both nearest =
      let hits = result (keyword_ids postgres query teams db) nearest k db in
      if has_any hits && not (has_any nearest)
      then record { hits = hits; mode = keyword_only; embedding_error = some "no_current_vectors" }
      else record { hits = hits; mode = hybrid; embedding_error = none }

  unfoldable pub retrieved : Mode → Question → Retrieval
  unfolding by_keyword by_vector by_both semantic_rows embedding_key
  retrieved hybrid (embedded v) =
      by_both (semantic_rows postgres v (embedding_key sha256 settings) teams db)
  retrieved semantic (embedded v) =
      by_vector (semantic_rows postgres v (embedding_key sha256 settings) teams db)
  retrieved hybrid (unembedded error) = by_keyword keyword_only error
  retrieved semantic (unembedded error) = record {
    hits = [];
    mode = semantic;
    embedding_error = error;
  }
  retrieved mode (embedded v) = by_keyword mode none
  retrieved mode (unembedded error) = by_keyword mode error

  -- A search; None is an exception that is no LLMError.
  unfoldable pub search_runbooks :
      {W : Type 0} → Embedder W → (String → String) → Mode → W → Option Retrieval × W
  unfolding embed_question retrieved
  search_runbooks embedder redact mode w =
      let (question, w') =
        embed_question embedder redact settings mode embedder.embedding_model query w in
      (elim question [ none ↦ none | some q ↦ some (retrieved mode q) ], w')
