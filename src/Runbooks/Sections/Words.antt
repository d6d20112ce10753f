-- ===== src/Runbooks/Sections/Words.antt =====
-- `split` in apps/api/app/runbooks.py: how many words joined texts have.
use triage_assistant.Prelude.{
  append_nil, append-append, sym, Char, ◌+◌, ◌≤◌, ◌≡◌, refl, ap, ◌∙◌, inl, inr, String, true, false,
  List, [], ◌∷◌, ◌++◌, length, arith, Bool-cases, All, keep-append, length-append, keep, not,
  is_empty, ◌+++◌, code, join,
}
use triage_assistant.Runbooks.Markdown.{Alphabet, before_first, gaps, words}
use triage_assistant.Runbooks.Sections.Packed.{count, total}

pub before_first-append :
    (c : String) (xs ys : List String)
    → 1 ≤ length xs
    → before_first c (xs ++ ys) ≡ before_first c xs ++ ys
unfolding before_first
before_first-append c [] ys h = ground (arith, h)
before_first-append c (x ∷ xs) ys h = refl

pub before_first-length : (c : String) (xs : List String) → 1 ≤ length (before_first c xs)
unfolding before_first
before_first-length c [] = ground arith
before_first-length c (x ∷ xs) = ground arith

module _ (alphabet : Alphabet) where
  pub gaps-length : (s : String) → 1 ≤ length (gaps alphabet s)
  unfolding gaps
  gaps-length String.[] = ground arith
  gaps-length (String.◌∷◌ c s) = elim (Bool-cases (alphabet.is_space (code c))) [
    | inl e ↦ rw (e, length) (ground arith)
    | inr e ↦ rw (e, length) (before_first-length (String.◌∷◌ c "") (gaps alphabet s))
  ]

  -- What a blank character splits.
  gaps-append :
      (s : String) (c : Char) (t : String)
      → alphabet.is_space (code c) ≡ true
      → gaps alphabet (s +++ String.◌∷◌ c t) ≡ gaps alphabet s ++ gaps alphabet t
  unfolding gaps
  gaps-append String.[] c t h = rw h refl
  gaps-append (String.◌∷◌ d s) c t h = elim (Bool-cases (alphabet.is_space (code d))) [
    | inl e ↦ rw e (ap (λ l. "" ∷ l) (gaps-append s c t h))
    | inr e ↦ rw e (
        ap (before_first (String.◌∷◌ d "")) (gaps-append s c t h)
        ∙ before_first-append (String.◌∷◌ d "") (gaps alphabet s) (gaps alphabet t) (gaps-length s))
  ]

  pub words-append :
      (s : String) (c : Char) (t : String)
      → alphabet.is_space (code c) ≡ true
      → words alphabet (s +++ String.◌∷◌ c t) ≡ words alphabet s ++ words alphabet t
  unfolding words
  words-append s c t h =
      ap (keep (λ w. not (is_empty w))) (gaps-append s c t h)
      ∙ keep-append (λ w. not (is_empty w)) (gaps alphabet s) (gaps alphabet t)

  pub words_blank :
      (c : Char) (t : String)
      → alphabet.is_space (code c) ≡ true
      → words alphabet (String.◌∷◌ c t) ≡ words alphabet t
  unfolding words gaps
  words_blank c t h = rw h refl

  -- The words of texts, one after the other.
  unfoldable pub all_words : List String → List String
  all_words [] = []
  all_words (p ∷ ps) = words alphabet p ++ all_words ps

  pub all_words-append : (ps qs : List String) → all_words (ps ++ qs) ≡ all_words ps ++ all_words qs
  unfolding all_words
  all_words-append [] qs = refl
  all_words-append (p ∷ ps) qs =
      ap (λ l. words alphabet p ++ l) (all_words-append ps qs)
      ∙ sym (append-append (words alphabet p) (all_words ps) (all_words qs))

  length-all_words : (ps : List String) → length (all_words ps) ≡ total alphabet ps
  unfolding all_words total count
  length-all_words [] = refl
  length-all_words (p ∷ ps) =
      length-append (words alphabet p) (all_words ps)
      ∙ ap (λ n. length (words alphabet p) + n) (length-all_words ps)

  -- A separator of blank characters keeps words apart.
  pub words-join :
      (sep : String)
      → ((s t : String) → words alphabet (s +++ sep +++ t) ≡ words alphabet s ++ words alphabet t)
      → (ps : List String) → words alphabet (join sep ps) ≡ all_words ps
  unfolding all_words words gaps
  words-join sep h [] = refl
  words-join sep h (p ∷ []) = append_nil (words alphabet p)
  words-join sep h (p ∷ q ∷ ps) =
      h p (join sep (q ∷ ps)) ∙ ap (λ l. words alphabet p ++ l) (words-join sep h (q ∷ ps))

  pub count-join :
      (sep : String)
      → ((s t : String) → words alphabet (s +++ sep +++ t) ≡ words alphabet s ++ words alphabet t)
      → (ps : List String) → count alphabet (join sep ps) ≡ total alphabet ps
  unfolding count
  count-join sep h ps = ap length (words-join sep h ps) ∙ length-all_words ps

  unfoldable IsGap : String → Type 0
  IsGap g = gaps alphabet g ≡ g ∷ []

  before_first-gaps :
      (c : Char) (gs : List String)
      → alphabet.is_space (code c) ≡ false
      → All IsGap gs
      → All IsGap (before_first (String.◌∷◌ c "") gs)
  unfolding before_first IsGap gaps
  before_first-gaps c [] h hs = (rw h refl, tt)
  before_first-gaps c (g ∷ gs) h (hg, hs) = (rw h (ap (before_first (String.◌∷◌ c "")) hg), hs)

  gaps-gaps : (s : String) → All IsGap (gaps alphabet s)
  unfolding gaps IsGap
  gaps-gaps String.[] = (refl, tt)
  gaps-gaps (String.◌∷◌ c s) = elim (Bool-cases (alphabet.is_space (code c))) [
    | inl e ↦ rw (e, All) (refl, gaps-gaps s)
    | inr e ↦ rw (e, All) (before_first-gaps c (gaps alphabet s) e (gaps-gaps s))
  ]

  -- A text that is one word.
  unfoldable pub IsWord : String → Type 0
  unfolding words
  IsWord w = words alphabet w ≡ w ∷ []

  gaps-IsWord : (gs : List String) → All IsGap gs → All IsWord (keep (λ w. not (is_empty w)) gs)
  unfolding IsWord IsGap words
  gaps-IsWord [] h = tt
  gaps-IsWord (g ∷ gs) (h, hs) = elim (Bool-cases (is_empty g)) [
    | inl e ↦ rw e (gaps-IsWord gs hs)
    | inr e ↦ rw (e, All) (rw (h, e) refl, gaps-IsWord gs hs)
  ]

  pub words-IsWord : (s : String) → All IsWord (words alphabet s)
  unfolding words
  words-IsWord s = gaps-IsWord (gaps alphabet s) (gaps-gaps s)

  pub all_words-words : (ws : List String) → All IsWord ws → all_words ws ≡ ws
  unfolding all_words IsWord
  all_words-words [] h = refl
  all_words-words (w ∷ ws) (h, hs) = rw h (ap (λ l. w ∷ l) (all_words-words ws hs))

  pub total-words : (ws : List String) → All IsWord ws → total alphabet ws ≡ length ws
  total-words ws h = sym (length-all_words ws) ∙ ap length (all_words-words ws h)
