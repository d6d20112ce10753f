-- ===== src/Runbooks/Sections/Short.antt =====
-- `_limit` of apps/api/app/runbooks.py: the words of a section.
use triage_assistant.Prelude.{
  ◌++◌, zero, leb→le, suc, All-append, ℕ, ◌≤◌, ◌≡◌, refl, ap, ◌∙◌, inl, inr, String, true, List, [],
  ◌∷◌, length, arith, Bool-cases, All, All-take, All-drop, length-take, ◌+++◌, take, drop, leb, map,
  join,
}
use triage_assistant.Runbooks.Markdown.{Alphabet, words}
use triage_assistant.Runbooks.Sections.{
  Section, pack, cut, pieces, pieces_of, limit, number_parts, paragraphs,
}
use triage_assistant.Runbooks.Sections.Packed.{count, total, Fits, pack-Fits}
use triage_assistant.Runbooks.Sections.Words.{
  words-append, words_blank, IsWord, total-words, count-join, words-IsWord,
}

module _ (alphabet : Alphabet) (max_words : ℕ) where
  unfoldable pub Few : String → Type 0
  Few p = count alphabet p ≤ max_words

  unfoldable pub FewIn : Section → Type 0
  FewIn s = Few s.content

module _ (alphabet : Alphabet) (space : alphabet.is_space b' ' ≡ true)
    (newline : alphabet.is_space b'\n' ≡ true) (max_words : ℕ) where
  Few-take :
      (ws : List String)
      → All (IsWord alphabet) ws
      → Few alphabet max_words (join " " (take max_words ws))
  unfolding Few
  Few-take ws h =
      let taken = take max_words ws in
      ground (
        arith,
        count-join alphabet " " (λ s t. words-append alphabet s _ t space) taken,
        total-words alphabet taken (All-take (IsWord alphabet) max_words ws h),
        length-take max_words ws,
      )

  cut-Few :
      (fuel : ℕ) (ws : List String)
      → All (IsWord alphabet) ws
      → All (Few alphabet max_words) (cut alphabet max_words fuel ws)
  unfolding cut Few
  cut-Few zero ws h = tt
  cut-Few (suc fuel) [] h = tt
  cut-Few (suc fuel) (w ∷ ws) h = (
    Few-take (w ∷ ws) h,
    cut-Few fuel (drop max_words (w ∷ ws)) (All-drop (IsWord alphabet) max_words (w ∷ ws) h),
  )

  pieces_of-Few : (p : String) → All (Few alphabet max_words) (pieces_of alphabet max_words p)
  unfolding pieces_of Few count
  pieces_of-Few p = elim (Bool-cases (leb (count alphabet p) max_words)) [
    | inl e ↦ rw (e, All) (leb→le (count alphabet p) max_words e, tt)
    | inr e ↦ rw (e, All) (cut-Few (count alphabet p) (words alphabet p) (words-IsWord alphabet p))
  ]

  pieces-Few : (ps : List String) → All (Few alphabet max_words) (pieces alphabet max_words ps)
  unfolding pieces
  pieces-Few [] = tt
  pieces-Few (p ∷ ps) =
      All-append (Few alphabet max_words) (pieces_of alphabet max_words p)
        (pieces alphabet max_words ps) (pieces_of-Few p) (pieces-Few ps)

  pub between :
      (s t : String) → words alphabet (s +++ "\n\n" +++ t) ≡ words alphabet s ++ words alphabet t
  between s t =
      words-append alphabet s _ (String.◌∷◌ _ t) newline
      ∙ ap (λ l. words alphabet s ++ l) (words_blank alphabet _ t newline)

  parts-Few :
      (parts : List (List String))
      → All (Fits alphabet max_words) parts
      → All (Few alphabet max_words) (map (join "\n\n") parts)
  unfolding Few Fits
  parts-Few [] h = tt
  parts-Few (part ∷ parts) (h, hs) =
      (ground (arith, count-join alphabet "\n\n" between part, h), parts-Few parts hs)

  packed-Few :
      (ps : List String)
      → All (Few alphabet max_words) ps
      → All (Few alphabet max_words) (map (join "\n\n") (pack alphabet max_words ps [] 0))
  unfolding Fits total Few
  packed-Few ps h =
      parts-Few (pack alphabet max_words ps [] 0)
        (pack-Fits alphabet max_words ps [] 0 refl (ground arith) h)

  number_parts-FewIn :
      (heading : String) (n of : ℕ) (parts : List String)
      → All (Few alphabet max_words) parts
      → All (FewIn alphabet max_words) (number_parts alphabet heading n of parts)
  unfolding number_parts FewIn
  number_parts-FewIn heading n of [] h = tt
  number_parts-FewIn heading n of (part ∷ parts) (h, hs) =
      (h, number_parts-FewIn heading (suc n) of parts hs)

  pub limit-FewIn :
      (heading content : String)
      → All (FewIn alphabet max_words) (limit alphabet heading content max_words)
  unfolding limit FewIn Few count
  limit-FewIn heading content =
      let ps = pieces alphabet max_words (paragraphs alphabet content) in
      let parts = map (join "\n\n") (pack alphabet max_words ps [] 0) in
      elim (Bool-cases (leb (count alphabet content) max_words)) [
        | inl e ↦ rw (e, All) (leb→le (count alphabet content) max_words e, tt)
        | inr e ↦
            rw (e, All)
              (number_parts-FewIn heading 1 (length parts) parts
                (packed-Few ps (pieces-Few (paragraphs alphabet content))))
      ]
