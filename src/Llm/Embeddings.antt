-- ===== src/Llm/Embeddings.antt =====
-- `OpenAICompatibleClient.embed` of apps/api/app/llm.py, less spans and the timeout, which the SDK
-- applies.
pub mod Sized
use triage_assistant.Prelude.{
  ℕ, ◌==◌, String, Bool, not, Option, none, some, List, [], ◌∷◌, map, keep, length, leb, min, ◌+++◌,
  if◌then◌else◌,
}
use triage_assistant.Prelude.Numbers.{decimal}
use triage_assistant.Queries.Order.{order_by}
use triage_assistant.Triage.Events.{Problem, llm_error, other_error}
use triage_assistant.Llm.Errors.{SdkError, provider_error}
use triage_assistant.Runbooks.Embed.{Outcome, done, llm_error as failed, Embedder}

-- `EMBEDDING_DIM` of apps/api/app/models.py.
abbrev pub embedding_dim : ℕ
embedding_dim = 768

-- What the provider gives: vectors, each with an index, or the SDK's error.
pub data Reply : Type 0 where
  reply : List (ℕ × String) → Reply
  refused : SdkError → Reply

-- By index; `sorted` keeps the order of equal ones.
unfoldable pub before : ℕ × String → ℕ × String → Bool
before a b = leb a.0 b.0

unfoldable pub in_order : List (ℕ × String) → List String
unfolding before
in_order items = map (λ item. item.1) (order_by before items)

-- `min(wrong)`
unfoldable pub least : ℕ → List ℕ → ℕ
least n [] = n
least n (m ∷ ms) = least (min n m) ms

unfoldable pub wrong_size : List ℕ → List String → Outcome (List String)
unfolding least
wrong_size [] vectors = done vectors
wrong_size (n ∷ wrong) vectors = failed "llm_error" (
    "the embedding model returned "
    +++ decimal (least n wrong)
    +++ " dimensions; the database stores "
    +++ decimal embedding_dim
    +++ ". Set EMBEDDING_DIMENSIONS="
    +++ decimal embedding_dim
    +++ " if the model can shorten its vectors (Matryoshka), or choose another model")

-- An error's message.
unfoldable pub raised : Problem → Outcome (List String)
raised (llm_error code message) = failed code message
raised other_error = Outcome.value_error

-- `size` is the `len` of a vector, which stands as a text.
module _ (size : String → ℕ) where
  unfoldable pub check : ℕ → List String → Outcome (List String)
  unfolding wrong_size
  check asked vectors =
      if length vectors == asked
      then wrong_size (keep (λ n. not (n == embedding_dim)) (map size vectors)) vectors
      else failed "llm_error"
          ("asked for " +++ decimal asked +++ " embeddings, got " +++ decimal (length vectors))

  unfoldable pub read_reply : ℕ → Reply → Outcome (List String)
  unfolding check in_order provider_error raised
  read_reply asked (refused e) = raised (provider_error "the embedding model" e)
  read_reply asked (reply items) = check asked (in_order items)

  unfoldable pub embed :
      {W : Type 0}
      → Option String
      → (List String → W → Reply × W)
      → List String
      → W
      → Outcome (List String) × W
  unfolding read_reply
  embed none create texts w =
      (failed "llm_error" "runbook search is off: EMBEDDING_MODEL is not set", w)
  embed (some model) create texts w =
      let (answer, w') = create texts w in (read_reply (length texts) answer, w')

  -- The client as what runbooks are embedded with.
  unfoldable pub client : {W : Type 0} → Option String → (List String → W → Reply × W) → Embedder W
  unfolding embed
  client model create = record { embedding_model = model; embed = embed model create }
