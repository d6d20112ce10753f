-- ===== src/Llm/Embeddings/Sized.antt =====
-- `embed` of apps/api/app/llm.py and `_embed` of apps/api/app/runbooks.py: as many vectors as texts,
-- of the database's size.
use triage_assistant.Prelude.{
  ◌≤◌, ℕ, zero, suc, ◌+◌, ◌==◌, ◌≡◌, refl, sym, ap, ◌∙◌, subst, inl, inr, String, not, Option, none,
  some, List, [], ◌∷◌, map, keep, take, drop, length, length-append, All, All-append, keep_yes,
  keep_no, take-append-drop, length-drop-le, length-map, Bool-cases, ==_iff, arith,
}
use triage_assistant.Llm.Errors.{
  timeout, connection, rate_limit, internal_server, bad_status, other_api_error, provider_error,
}
use triage_assistant.Runbooks.Embed.{
  Outcome, done, value_error, llm_error as failed, embed_batch, add_vectors, then_embed,
  embed_batches, embed_texts,
}
use triage_assistant.Llm.Embeddings.{
  embedding_dim, Reply, reply, refused, in_order, wrong_size, raised, check, read_reply, embed,
  client,
}

module _ (size : String → ℕ) where
  abbrev pub Sized : ℕ → List String → Type 0
  Sized n vectors = (length vectors ≡ n) × All (λ v. size v ≡ embedding_dim) vectors

  -- Vectors as asked for, or an error of the model's provider.
  abbrev pub Given : ℕ → Outcome (List String) → Type 0
  Given n (done vectors) = Sized n vectors
  Given n (failed code e) = Unit
  Given n value_error = ⊥

  no_wrong :
      (vectors : List String)
      → keep (λ n. not (n == embedding_dim)) (map size vectors) ≡ []
      → All (λ v. size v ≡ embedding_dim) vectors
  no_wrong [] h = tt
  no_wrong (v ∷ vs) h =
      let test = λ (n : ℕ). not (n == embedding_dim) in
      elim (Bool-cases (size v == embedding_dim)) [
        | inl e ↦ (
          (==_iff (size v) embedding_dim).0 e,
          no_wrong vs (sym (keep_no test (size v) (map size vs) (ap not e)) ∙ h),
        )
        | inr e ↦ absurd (ground (arith, sym (keep_yes test (size v) (map size vs) (ap not e)) ∙ h))
      ]

  Given-wrong_size :
      (n : ℕ) (wrong : List ℕ) (vectors : List String)
      → (wrong ≡ [] → Sized n vectors)
      → Given n (wrong_size wrong vectors)
  unfolding wrong_size
  Given-wrong_size n [] vectors h = h refl
  Given-wrong_size n (w ∷ wrong) vectors h = tt

  Given-check : (n : ℕ) (vectors : List String) → Given n (check size n vectors)
  unfolding check
  Given-check n vectors = elim (Bool-cases (length vectors == n)) [
    | inl e ↦
        rw (e, Given)
          (Given-wrong_size n (keep (λ n. not (n == embedding_dim)) (map size vectors)) vectors
            (λ h. ((==_iff (length vectors) n).0 e, no_wrong vectors h)))
    | inr e ↦ rw (e, Given) tt
  ]

  pub Given-read_reply : (n : ℕ) (answer : Reply) → Given n (read_reply size n answer)
  unfolding read_reply raised provider_error
  Given-read_reply n (reply items) = Given-check n (in_order items)
  Given-read_reply n (refused timeout) = tt
  Given-read_reply n (refused connection) = tt
  Given-read_reply n (refused rate_limit) = tt
  Given-read_reply n (refused internal_server) = tt
  Given-read_reply n (refused (bad_status s)) = tt
  Given-read_reply n (refused other_api_error) = tt

  module _ {W : Type 0} (model : Option String) (create : List String → W → Reply × W) where
    Given-embed :
        (texts : List String) (w : W) → Given (length texts) (embed size model create texts w).0
    unfolding embed
    Given-embed texts w = by_model model texts w
      where
        by_model :
            (m : Option String) (texts : List String) (w : W)
            → Given (length texts) (embed size m create texts w).0
        by_model none texts w = tt
        by_model (some m) texts w = Given-read_reply (length texts) (create texts w).0

    Given-then_embed :
        (n m : ℕ) (first : Outcome (List String) × W) (next : W → Outcome (List String) × W)
        → Given n first.0
        → ((w : W) → Given m (next w).0)
        → Given (n + m) (then_embed (client size model create) first next).0
    unfolding then_embed add_vectors
    Given-then_embed n m (done vectors, w) next h k = joined (next w) (k w)
      where
        joined :
            (second : Outcome (List String) × W)
            → Given m second.0
            → Given (n + m) (add_vectors (client size model create) vectors second).0
        joined (done more, w') g = (
          omega (arith, h.0, g.0, length-append vectors more),
          All-append (λ v. size v ≡ embedding_dim) vectors more h.1 g.1,
        )
        joined (failed code e, w') g = tt
        joined (value_error, w') g = g
    Given-then_embed n m (failed code e, w) next h k = tt
    Given-then_embed n m (value_error, w) next h k = h

    Given-embed_batches :
        (fuel : ℕ) (texts : List String) (w : W)
        → length texts ≤ fuel
        → Given (length texts) (embed_batches (client size model create) fuel texts w).0
    unfolding embed_batches client
    Given-embed_batches zero [] w h = (refl, tt)
    Given-embed_batches zero (t ∷ texts) w h = absurd (omega arith)
    Given-embed_batches (suc fuel) [] w h = (refl, tt)
    Given-embed_batches (suc fuel) (t ∷ texts) w h =
        let now = take embed_batch (t ∷ texts) in
        let later = drop embed_batch (t ∷ texts) in
        let split : length now + length later ≡ length (t ∷ texts) =
          sym (length-append now later) ∙ ap length (take-append-drop embed_batch (t ∷ texts)) in
        subst (λ n. Given n (embed_batches (client size model create) (suc fuel) (t ∷ texts) w).0)
          split
          (Given-then_embed (length now) (length later) (embed size model create now w)
            (λ w'. embed_batches (client size model create) fuel later w') (Given-embed now w)
            (λ w'. Given-embed_batches fuel later w' (omega (arith, h, length-drop-le 31 texts))))

    pub Given-embed_texts :
        (redact : String → String) (texts : List String) (w : W)
        → Given (length texts) (embed_texts (client size model create) redact texts w).0
    unfolding embed_texts
    Given-embed_texts redact texts w =
        subst (λ n. Given n (embed_texts (client size model create) redact texts w).0)
          (length-map redact texts)
          (Given-embed_batches (length (map redact texts)) (map redact texts) w (omega arith))
