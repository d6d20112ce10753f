-- ===== src/Runbooks/Sections/Kept.antt =====
-- `_limit` of apps/api/app/runbooks.py keeps every word of a section.
use triage_assistant.Prelude.{
  ℕ, zero, suc, ◌≤◌, ◌≡◌, refl, sym, ap, ◌∙◌, String, true, inl, inr, List, [], ◌∷◌, ◌++◌,
  append-append, append_nil, take, drop, map, join, length, leb, Bool-cases, All, All-take,
  All-drop, take-append-drop, length-drop-le, arith,
}
use triage_assistant.Runbooks.Markdown.{Alphabet, words}
use triage_assistant.Runbooks.Sections.{
  Section, cut, pieces_of, pieces, pack, number_parts, limit, paragraphs,
}
use triage_assistant.Runbooks.Sections.Packed.{all_of, all_of-pack}
use triage_assistant.Runbooks.Sections.Paragraphs.{all_words-paragraphs}
use triage_assistant.Runbooks.Sections.Short.{between}
use triage_assistant.Runbooks.Sections.Words.{
  all_words, all_words-append, all_words-words, words-append, words-join, words-IsWord, IsWord,
}

-- The words of sections, one after the other.
unfoldable pub section_words : Alphabet → List Section → List String
unfolding all_words
section_words alphabet sections = all_words alphabet (map (λ s. s.content) sections)

pub section_words-append :
    (alphabet : Alphabet) (xs ys : List Section)
    → section_words alphabet (xs ++ ys) ≡ section_words alphabet xs ++ section_words alphabet ys
unfolding section_words all_words
section_words-append alphabet [] ys = refl
section_words-append alphabet (x ∷ xs) ys =
    ap (λ l. words alphabet x.content ++ l) (section_words-append alphabet xs ys)
    ∙ sym (
        append-append (words alphabet x.content) (section_words alphabet xs)
          (section_words alphabet ys))

length-drop_some :
    (n : ℕ) (w : String) (ws : List String) → 1 ≤ n → length (drop n (w ∷ ws)) ≤ length ws
length-drop_some zero w ws h = absurd (ground (arith, h))
length-drop_some (suc n) w ws h = length-drop-le n ws

module _ (alphabet : Alphabet) (space : alphabet.is_space b' ' ≡ true)
    (newline : alphabet.is_space b'\n' ≡ true) (max_words : ℕ) (some_words : 1 ≤ max_words) where
  words-line : (ws : List String) → All (IsWord alphabet) ws → words alphabet (join " " ws) ≡ ws
  words-line ws h =
      words-join alphabet " " (λ s t. words-append alphabet s _ t space) ws
      ∙ all_words-words alphabet ws h

  all_words-cut :
      (fuel : ℕ) (ws : List String)
      → length ws ≤ fuel
      → All (IsWord alphabet) ws
      → all_words alphabet (cut alphabet max_words fuel ws) ≡ ws
  unfolding cut all_words
  all_words-cut zero [] h k = refl
  all_words-cut zero (w ∷ ws) h k = absurd (ground (arith, h))
  all_words-cut (suc fuel) [] h k = refl
  all_words-cut (suc fuel) (w ∷ ws) h k =
      let rest = drop max_words (w ∷ ws) in
      ap (λ l. l ++ all_words alphabet (cut alphabet max_words fuel rest))
        (words-line (take max_words (w ∷ ws)) (All-take (IsWord alphabet) max_words (w ∷ ws) k))
      ∙ ap (λ l. take max_words (w ∷ ws) ++ l)
          (all_words-cut fuel rest (omega (arith, h, length-drop_some max_words w ws some_words))
            (All-drop (IsWord alphabet) max_words (w ∷ ws) k))
      ∙ take-append-drop max_words (w ∷ ws)

  all_words-pieces_of :
      (p : String) → all_words alphabet (pieces_of alphabet max_words p) ≡ words alphabet p
  unfolding pieces_of all_words
  all_words-pieces_of p = elim (Bool-cases (leb (length (words alphabet p)) max_words)) [
    | inl e ↦ rw e (sym (append_nil (words alphabet p)))
    | inr e ↦ rw e (
        all_words-cut (length (words alphabet p)) (words alphabet p) (ground arith)
          (words-IsWord alphabet p))
  ]

  all_words-pieces :
      (ps : List String) → all_words alphabet (pieces alphabet max_words ps) ≡ all_words alphabet ps
  unfolding pieces all_words
  all_words-pieces [] = refl
  all_words-pieces (p ∷ ps) =
      all_words-append alphabet (pieces_of alphabet max_words p) (pieces alphabet max_words ps)
      ∙ ap (λ l. l ++ all_words alphabet (pieces alphabet max_words ps)) (all_words-pieces_of p)
      ∙ ap (λ l. words alphabet p ++ l) (all_words-pieces ps)

  all_words-parts :
      (parts : List (List String))
      → all_words alphabet (map (join "\n\n") parts) ≡ all_words alphabet (all_of parts)
  unfolding all_words all_of
  all_words-parts [] = refl
  all_words-parts (part ∷ parts) =
      ap (λ l. l ++ all_words alphabet (map (join "\n\n") parts))
        (words-join alphabet "\n\n" (between alphabet space newline max_words) part)
      ∙ ap (λ l. all_words alphabet part ++ l) (all_words-parts parts)
      ∙ sym (all_words-append alphabet part (all_of parts))

  section_words-number_parts :
      (heading : String) (n of : ℕ) (parts : List String)
      → section_words alphabet (number_parts alphabet heading n of parts) ≡ all_words alphabet parts
  unfolding section_words number_parts all_words
  section_words-number_parts heading n of [] = refl
  section_words-number_parts heading n of (part ∷ parts) =
      ap (λ l. words alphabet part ++ l) (section_words-number_parts heading (suc n) of parts)

  pub section_words-limit :
      (heading content : String)
      → section_words alphabet (limit alphabet heading content max_words) ≡ words alphabet content
  unfolding limit section_words all_words
  section_words-limit heading content =
      let ps = pieces alphabet max_words (paragraphs alphabet content) in
      let parts = map (join "\n\n") (pack alphabet max_words ps [] 0) in
      elim (Bool-cases (leb (length (words alphabet content)) max_words)) [
        | inl e ↦ rw e (sym (append_nil (words alphabet content)))
        | inr e ↦ rw e (
            section_words-number_parts heading 1 (length parts) parts
            ∙ all_words-parts (pack alphabet max_words ps [] 0)
            ∙ ap (all_words alphabet) (all_of-pack alphabet max_words ps [] 0)
            ∙ all_words-pieces (paragraphs alphabet content)
            ∙ all_words-paragraphs alphabet newline content)
      ]
