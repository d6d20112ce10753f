-- ===== src/Runbooks/Search/Fallback.antt =====
-- A search of apps/api/app/runbooks.py whose question could not be embedded.
use triage_assistant.Prelude.{ℕ, ◌≡◌, refl, Option, none, some, String, List, [], ◌∷◌, ◌+++◌}
use triage_assistant.Models.{Db}
use triage_assistant.Settings.{Settings}
use triage_assistant.Runbooks.Embed.{Embedder, llm_error}
use triage_assistant.Runbooks.Search.{
  Postgres, Ranked, keyword, hybrid, semantic, keyword_only, keyword_ids, result, search_runbooks,
}

-- Why there is no vector, and the state after it was asked for.
pub data Fails {W : Type 0} (embedder : Embedder W) (question : String) (w : W)
    : String → W → Type 0 where
  off : embedder.embedding_model ≡ none → Fails embedder question w "embeddings_off" w
  refused :
      (model code message : String) (w' : W)
      → embedder.embedding_model ≡ some model
      → embedder.embed (question ∷ []) w ≡ (llm_error code message, w')
      → Fails embedder question w code w'

module _ {W : Type 0} (postgres : Postgres) (settings : Settings) (sha256 : String → String)
    (query : String) (teams : Option (List ℕ)) (k : ℕ) (db : Db) (embedder : Embedder W)
    (redact : String → String) where
  -- Where the question cannot be embedded, as embeddings are off or the provider refuses it, a hybrid
  -- search gives exactly the sections that a keyword search gives, in the same order, says that it
  -- was one by keywords only and names the reason; a semantic search gives none and names the reason;
  -- and a keyword search asks for no vector.
  pub search_runbooks-Fails :
      (w w' : W) (code : String)
      → Fails embedder (redact (settings.embedding_query_prefix +++ query)) w code w'
      → (hits : List Ranked) × (search_runbooks postgres settings sha256 query teams k db embedder
            redact keyword w
          ≡ (some (record { hits = hits; mode = keyword; embedding_error = none }), w))
        × (search_runbooks postgres settings sha256 query teams k db embedder redact hybrid w
            ≡ (some (record { hits = hits; mode = keyword_only; embedding_error = some code }), w'))
        × (search_runbooks postgres settings sha256 query teams k db embedder redact semantic w
            ≡ (some (record { hits = []; mode = semantic; embedding_error = some code }), w'))
  unfolding search_runbooks
  search_runbooks-Fails w w' code (off e) =
      (result (keyword_ids postgres query teams db) [] k db, refl, rw e refl, rw e refl)
  search_runbooks-Fails w w' code (refused model code' message w'' e answer) = (
    result (keyword_ids postgres query teams db) [] k db,
    refl,
    rw (e, answer) refl,
    rw (e, answer) refl,
  )
