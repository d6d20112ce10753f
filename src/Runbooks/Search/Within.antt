-- ===== src/Runbooks/Search/Within.antt =====
-- What a search of apps/api/app/runbooks.py may give.
pub mod Rows
unfoldable pub use Rows.*
use mathlib.Core.List.{Memᴰ}
use triage_assistant.Prelude.{
  not, some-injective, ℕ, suc, ◌≤◌, ◌≡◌, refl, subst, inl, inr, Bool, true, false, ◌&&◌, ◌||◌, ◌==◌,
  Option, none, some, List, [], ◌∷◌, map, length, keep, find, is_some, str_eq, String,
  if◌then◌else◌, All, All-map, All-Mem, All_at, All-map_of, All-pair, All-keep, All-keep_of_All,
  All-take, length-take, Bool-cases, Option-cases, ==_iff, arith,
}
use triage_assistant.Models.{Db, Runbook, RunbookChunk, Team}
use triage_assistant.Triage.Hits.{Hit}
use triage_assistant.Queries.Order.{order_by}
use triage_assistant.Queries.Sorted.{All-order_by}
use triage_assistant.Runbooks.Search.{
  embedding_key, Question, embedded, unembedded, hybrid, semantic, keyword, keyword_only, Mode,
  has_any, by_keyword, by_both, by_vector, retrieved, search_runbooks, embed_question, hybrid,
  Question, Embedder, by_vector, keyword_only, Mode, by_both, search_runbooks, retrieved,
  by_keyword, Settings, Postgres, Ranked, Retrieval, in_teams, place_in, rank_of, better, nearer,
  matching, keyword_ids, semantic_rows, hit_of, ranked, is_candidate, joined, ranked_before, result,
  max_candidates,
}

module _ (postgres : Postgres) (settings : Settings) (sha256 : String → String) (query : String)
    (teams : Option (List ℕ)) (k : ℕ) (db : Db) where
  by_keyword-Within :
      Keyed db
      → (mode : Mode) (error : Option String)
      → Within teams k db (by_keyword postgres settings sha256 query teams k db mode error).hits
  unfolding by_keyword
  by_keyword-Within keyed mode error =
      result-Within teams db (keyword_ids postgres query teams db) [] keyed k
        (keyword_ids-Permitted teams db postgres query) tt

  by_both-Within :
      Keyed db
      → (nearest : List (ℕ × ℕ)) → All (λ row. Permitted teams db row.0) nearest
      → Within teams k db (by_both postgres settings sha256 query teams k db nearest).hits
  unfolding by_both
  by_both-Within keyed nearest hs =
      either (
        has_any (result (keyword_ids postgres query teams db) nearest k db)
        && not (has_any nearest))
    where
      either :
          (b : Bool)
          → Within teams k db
              (if◌then◌else◌ {A = Retrieval} b
                (record {
                  hits = result (keyword_ids postgres query teams db) nearest k db;
                  mode = keyword_only;
                  embedding_error = some "no_current_vectors";
                })
                (record {
                  hits = result (keyword_ids postgres query teams db) nearest k db;
                  mode = hybrid;
                  embedding_error = none;
                })).hits
      either true =
          result-Within teams db (keyword_ids postgres query teams db) nearest keyed k
            (keyword_ids-Permitted teams db postgres query) hs
      either false =
          result-Within teams db (keyword_ids postgres query teams db) nearest keyed k
            (keyword_ids-Permitted teams db postgres query) hs

  retrieved-Within :
      GivesRows postgres
      → Keyed db
      → (mode : Mode) (question : Question)
      → Within teams k db (retrieved postgres settings sha256 query teams k db mode question).hits
  unfolding retrieved by_vector
  retrieved-Within gives keyed hybrid (embedded v) =
      by_both-Within keyed _
        (semantic_rows-Permitted teams db postgres gives v (embedding_key sha256 settings))
  retrieved-Within gives keyed semantic (embedded v) =
      result-Within teams db [] _ keyed k tt
        (semantic_rows-Permitted teams db postgres gives v (embedding_key sha256 settings))
  retrieved-Within gives keyed hybrid (unembedded error) =
      by_keyword-Within keyed keyword_only error
  retrieved-Within gives keyed semantic (unembedded error) = (tt, omega arith)
  retrieved-Within gives keyed keyword (embedded v) = by_keyword-Within keyed keyword none
  retrieved-Within gives keyed keyword (unembedded error) = by_keyword-Within keyed keyword error
  retrieved-Within gives keyed keyword_only (embedded v) = by_keyword-Within keyed keyword_only none
  retrieved-Within gives keyed keyword_only (unembedded error) =
      by_keyword-Within keyed keyword_only error

  -- Whatever the provider, the text search and the vectors answer, a search that ends gives at most
  -- `k` sections, and each is a section of one of the teams asked for, as it is stored, with the
  -- runbook and the team that it belongs to. It is assumed that no two sections have the same id and
  -- that a scan of the index gives only rows that there are.
  pub search_runbooks-Within :
      GivesRows postgres
      → Keyed db
      → {W : Type 0} (embedder : Embedder W) (redact : String → String) (mode : Mode) (w : W)
        (retrieval : Retrieval)
      → (search_runbooks postgres settings sha256 query teams k db embedder redact mode w).0
        ≡ some retrieval
      → Within teams k db retrieval.hits
  unfolding search_runbooks
  search_runbooks-Within gives keyed embedder redact mode w retrieval e =
      asked (embed_question embedder redact settings mode embedder.embedding_model query w).0 e
    where
      asked :
          (question : Option Question)
          → elim question [
            | none ↦ none
            | some q ↦ some (retrieved postgres settings sha256 query teams k db mode q)
          ]
            ≡ some retrieval
          → Within teams k db retrieval.hits
      asked none e = ground arith
      asked (some q) e =
          subst (λ (r : Retrieval). Within teams k db r.hits) (some-injective _ _ e)
            (retrieved-Within gives keyed mode q)
