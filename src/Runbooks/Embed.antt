-- ===== src/Runbooks/Embed.antt =====
-- `embedding_key` and `_embed` of apps/api/app/runbooks.py.
use triage_assistant.Prelude.{
  ℕ, zero, suc, String, Option, none, some, List, [], ◌∷◌, ◌++◌, map, take, drop, length, ◌+++◌,
  front,
}
use triage_assistant.Prelude.Numbers.{decimal}
use triage_assistant.Settings.{Settings}
use triage_assistant.Runbooks.Sections.{Section}

-- What a call returns, or the exception that it raises: an LLMError's code and message, or the ValueError of
-- a strict zip of lists that are not equally long.
pub data Outcome {ℓ} (A : Type ℓ) : Type ℓ where
  done : A → Outcome A
  llm_error : String → String → Outcome A
  value_error : Outcome A

-- The provider of embeddings, with a state that each call may change; vectors are texts, as in the
-- rows.
pub record Embedder (W : Type 0) : Type 0 where
  pub embedding_model : Option String
  pub embed : List String → W → Outcome (List String) × W

abbrev pub embed_batch : ℕ
embed_batch = 32

unfoldable pub or_native : Option ℕ → String
or_native none = "native"
or_native (some zero) = "native"
or_native (some (suc n)) = decimal (suc n)

-- A value in an f-string.
unfoldable pub shown : Option String → String
shown none = "None"
shown (some s) = s

unfoldable pub embedding_key : (String → String) → Settings → String
unfolding or_native shown
embedding_key sha256 settings =
    shown settings.embedding_model
    +++ "|"
    +++ or_native settings.embedding_dimensions
    +++ "|"
    +++ front 8 (sha256 settings.embedding_document_prefix)

unfoldable pub document_text : Section → String
document_text section = section.heading +++ "\n\n" +++ section.content

module _ {W : Type 0} (embedder : Embedder W) where
  unfoldable pub add_vectors : List String → Outcome (List String) × W → Outcome (List String) × W
  add_vectors vectors (done more, w) = (done (vectors ++ more), w)
  add_vectors vectors (llm_error code e, w) = (llm_error code e, w)
  add_vectors vectors (value_error, w) = (value_error, w)

  unfoldable pub then_embed :
      Outcome (List String) × W → (W → Outcome (List String) × W) → Outcome (List String) × W
  unfolding add_vectors
  then_embed (done vectors, w) next = add_vectors vectors (next w)
  then_embed (llm_error code e, w) next = (llm_error code e, w)
  then_embed (value_error, w) next = (value_error, w)

  -- Batch by batch; the number of texts is fuel enough, as each turn takes one at least.
  unfoldable pub embed_batches : ℕ → List String → W → Outcome (List String) × W
  unfolding then_embed
  embed_batches zero texts w = (done [], w)
  embed_batches (suc fuel) [] w = (done [], w)
  embed_batches (suc fuel) (t ∷ texts) w =
      then_embed (embedder.embed (take embed_batch (t ∷ texts)) w)
        (λ w'. embed_batches fuel (drop embed_batch (t ∷ texts)) w')

-- The texts leave redacted.
unfoldable pub embed_texts :
    {W : Type 0} → Embedder W → (String → String) → List String → W → Outcome (List String) × W
unfolding embed_batches
embed_texts embedder redact texts w =
    let texts' = map redact texts in embed_batches embedder (length texts') texts' w
