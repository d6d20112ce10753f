-- ===== src/Runbooks/Sections/Packed.antt =====
-- `_limit` of apps/api/app/runbooks.py: the pieces in parts.
use triage_assistant.Prelude.{
  ℕ, ◌+◌, ◌≤◌, ◌≡◌, refl, ap, ◌∙◌, inl, inr, String, ◌&&◌, List, [], ◌∷◌, ◌++◌, length, ltb, arith,
  Bool-cases, All, append-append,
}
use triage_assistant.Runbooks.Markdown.{Alphabet, words}
use triage_assistant.Runbooks.Sections.{pack, has_lines}

module _ (alphabet : Alphabet) where
  unfoldable pub count : String → ℕ
  unfolding words
  count piece = length (words alphabet piece)

  unfoldable pub total : List String → ℕ
  unfolding count
  total [] = 0
  total (p ∷ ps) = count p + total ps

  pub total-append : (ps qs : List String) → total (ps ++ qs) ≡ total ps + total qs
  unfolding total
  total-append [] qs = ground arith
  total-append (p ∷ ps) qs = ground (arith, total-append ps qs)

unfoldable pub all_of : List (List String) → List String
all_of [] = []
all_of (part ∷ parts) = part ++ all_of parts

module _ (alphabet : Alphabet) (max_words : ℕ) where
  -- Filling parts with pieces loses and reorders none: the parts, one after the other, are the part
  -- begun and then all the pieces.
  pub all_of-pack :
      (ps current : List String) (size : ℕ)
      → all_of (pack alphabet max_words ps current size) ≡ current ++ ps
  unfolding all_of pack has_lines
  all_of-pack [] [] size = refl
  all_of-pack [] (c ∷ current) size = refl
  all_of-pack (p ∷ ps) current size =
      elim (Bool-cases
        (has_lines alphabet current && ltb max_words (size + length (words alphabet p)))) [
          | inl e ↦
              rw (e, all_of)
                (ap (λ l. current ++ l) (all_of-pack ps (p ∷ []) (length (words alphabet p))))
          | inr e ↦
              rw (e, all_of)
                (all_of-pack ps (current ++ p ∷ []) (size + length (words alphabet p))
                  ∙ append-append current (p ∷ []) ps)
        ]

  unfoldable pub Fits : List String → Type 0
  unfolding total
  Fits part = total alphabet part ≤ max_words

  pub pack-Fits :
      (ps current : List String) (size : ℕ)
      → size ≡ total alphabet current
      → Fits current
      → All (λ p. count alphabet p ≤ max_words) ps
      → All Fits (pack alphabet max_words ps current size)
  unfolding pack has_lines Fits total count
  pack-Fits [] [] size e h hs = tt
  pack-Fits [] (c ∷ current) size e h hs = (h, tt)
  pack-Fits (p ∷ ps) [] size e h (hp, hs) =
      pack-Fits ps (p ∷ []) (size + count alphabet p) (ground (arith, e)) (ground (arith, hp)) hs
  pack-Fits (p ∷ ps) (c ∷ current) size e h (hp, hs) =
      elim (Bool-cases (ltb max_words (size + length (words alphabet p)))) [
        | inl t ↦
            rw (t, All)
              (h, pack-Fits ps (p ∷ []) (count alphabet p) (ground arith) (ground (arith, hp)) hs)
        | inr t ↦
            rw (t, All)
              (pack-Fits ps (c ∷ current ++ p ∷ []) (size + count alphabet p)
                (ground (arith, e, total-append alphabet (c ∷ current) (p ∷ [])))
                (ground (arith, e, t, total-append alphabet (c ∷ current) (p ∷ []))) hs)
      ]
