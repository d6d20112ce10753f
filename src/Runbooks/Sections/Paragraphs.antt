-- ===== src/Runbooks/Sections/Paragraphs.antt =====
-- `strip` and the paragraphs of apps/api/app/runbooks.py: which words a text keeps.
use triage_assistant.Prelude.{
  keep-append, not, append_empty, Char, ◌≤◌, ◌≡◌, refl, sym, ap, ◌∙◌, subst, String, true, ◌&&◌,
  inl, inr, List, [], ◌∷◌, ◌++◌, append-append, append_nil, all_chars, is_empty, code, keep, map,
  join, length, Bool-cases, arith, if◌then◌else◌, ◌+++◌, ◌==◌, ==_iff,
}
use triage_assistant.Runbooks.Markdown.{
  Alphabet, before_first, split_newlines, lstrip, rstrip, strip, gaps, words,
}
use triage_assistant.Runbooks.Sections.{add_line, groups, has_lines, paragraphs}
use triage_assistant.Runbooks.Sections.Words.{
  before_first-append, before_first-length, gaps-length, all_words, words-join, words-append,
  words_blank,
}

module _ (alphabet : Alphabet) where
  words-lstrip : (s : String) → words alphabet (lstrip alphabet s) ≡ words alphabet s
  unfolding lstrip
  words-lstrip String.[] = refl
  words-lstrip (String.◌∷◌ c s) = elim (Bool-cases (alphabet.is_space (code c))) [
    | inl e ↦ rw e (words-lstrip s ∙ sym (words_blank alphabet c s e))
    | inr e ↦ rw e refl
  ]

  abbrev Blank : String → Type 0
  Blank b = all_chars (λ c. alphabet.is_space c) b ≡ true

  first-Blank : (c : Char) (b : String) → Blank (String.◌∷◌ c b) → alphabet.is_space (code c) ≡ true
  first-Blank c b h = ground (arith, h)

  rest-Blank : (c : Char) (b : String) → Blank (String.◌∷◌ c b) → Blank b
  rest-Blank c b h = ground (arith, h)

  words-Blank : (b : String) → Blank b → words alphabet b ≡ []
  unfolding words gaps
  words-Blank String.[] h = refl
  words-Blank (String.◌∷◌ c b) h =
      words_blank alphabet c b (first-Blank c b h) ∙ words-Blank b (rest-Blank c b h)

  pub words_none : (t : String) → is_empty t ≡ true → words alphabet t ≡ []
  words_none String.[] h = words-Blank "" refl
  words_none (String.◌∷◌ c t) h = absurd (ground (arith, h))

  words-after : (t b : String) → Blank b → words alphabet (t +++ b) ≡ words alphabet t
  words-after t String.[] h = ap (words alphabet) (append_empty t)
  words-after t (String.◌∷◌ c b) h =
      words-append alphabet t c b (first-Blank c b h)
      ∙ ap (λ l. words alphabet t ++ l) (words-Blank b (rest-Blank c b h))
      ∙ sym (append_nil (words alphabet t))

  whole-Blank :
      (c : Char) (r s b : String)
      → is_empty r && alphabet.is_space (code c) ≡ true
      → s ≡ r +++ b
      → Blank b
      → Blank (String.◌∷◌ c s)
  whole-Blank c String.[] s b k e h =
      subst (λ t. Blank (String.◌∷◌ c t)) (sym e) (ground (arith, k, h))
  whole-Blank c (String.◌∷◌ d r) s b k e h = absurd (ground (arith, k))

  -- What `rstrip` leaves out is blank.
  rstrip_tail : (s : String) → (b : String) × (s ≡ rstrip alphabet s +++ b) × Blank b
  unfolding rstrip
  rstrip_tail String.[] = ("", refl, refl)
  rstrip_tail (String.◌∷◌ c s) =
      let (b, e, h) = rstrip_tail s in
      elim (Bool-cases (is_empty (rstrip alphabet s) && alphabet.is_space (code c))) [
        | inl k ↦ rw k (String.◌∷◌ c s, refl, whole-Blank c (rstrip alphabet s) s b k e h)
        | inr k ↦ rw k (b, ap (λ t. String.◌∷◌ c t) e, h)
      ]

  pub words-strip : (s : String) → words alphabet (strip alphabet s) ≡ words alphabet s
  unfolding strip
  words-strip s =
      let t = lstrip alphabet s in
      let (b, e, h) = rstrip_tail t in
      sym (words-after (rstrip alphabet t) b h) ∙ ap (words alphabet) (sym e) ∙ words-lstrip s

  nonempty-split_newlines : (s : String) → 1 ≤ length (split_newlines s)
  unfolding split_newlines before_first
  nonempty-split_newlines String.[] = ground arith
  nonempty-split_newlines (String.◌∷◌ c s) = elim (Bool-cases (code c == b'\n')) [
    | inl e ↦ rw (e, length) (ground arith)
    | inr e ↦ rw (e, length) (before_first-length (String.◌∷◌ c "") (split_newlines s))
  ]

  all_gaps : List String → List String
  all_gaps [] = []
  all_gaps (l ∷ ls) = gaps alphabet l ++ all_gaps ls

  -- A character that is no newline, before the first of some lines.
  all_gaps-before_first :
      (c : Char) (ls : List String)
      → 1 ≤ length ls
      → all_gaps (before_first (String.◌∷◌ c "") ls) ≡ (
          if alphabet.is_space (code c)
          then "" ∷ all_gaps ls
          else before_first (String.◌∷◌ c "") (all_gaps ls))
  unfolding all_gaps before_first gaps
  all_gaps-before_first c [] h = absurd (ground (arith, h))
  all_gaps-before_first c (l ∷ ls) h = elim (Bool-cases (alphabet.is_space (code c))) [
    | inl e ↦ rw e refl
    | inr e ↦ rw e (
        sym (
          before_first-append (String.◌∷◌ c "") (gaps alphabet l) (all_gaps ls)
            (gaps-length alphabet l)))
  ]

  keep-all_gaps :
      (ls : List String) → keep (λ w. not (is_empty w)) (all_gaps ls) ≡ all_words alphabet ls
  unfolding all_gaps all_words words
  keep-all_gaps [] = refl
  keep-all_gaps (l ∷ ls) =
      keep-append (λ w. not (is_empty w)) (gaps alphabet l) (all_gaps ls)
      ∙ ap (λ w. words alphabet l ++ w) (keep-all_gaps ls)

  module _ (newline : alphabet.is_space b'\n' ≡ true) where
    gaps-split_newlines : (s : String) → gaps alphabet s ≡ all_gaps (split_newlines s)
    unfolding gaps split_newlines all_gaps
    gaps-split_newlines String.[] = refl
    gaps-split_newlines (String.◌∷◌ c s) = elim (Bool-cases (code c == b'\n')) [
      | inl e ↦
          rw (e, ap alphabet.is_space ((==_iff (code c) b'\n').0 e) ∙ newline)
            (ap (λ gs. "" ∷ gs) (gaps-split_newlines s))
      | inr e ↦ rw e (
          ap
            (λ gs.
              if alphabet.is_space (code c) then "" ∷ gs else before_first (String.◌∷◌ c "") gs)
            (gaps-split_newlines s)
          ∙ sym (all_gaps-before_first c (split_newlines s) (nonempty-split_newlines s)))
    ]

    words-split_newlines : (s : String) → words alphabet s ≡ all_words alphabet (split_newlines s)
    unfolding words
    words-split_newlines s =
        ap (keep (λ w. not (is_empty w))) (gaps-split_newlines s) ∙ keep-all_gaps (split_newlines s)

    pub words-lines : (ls : List String) → words alphabet (join "\n" ls) ≡ all_words alphabet ls
    words-lines ls = words-join alphabet "\n" (λ s t. words-append alphabet s _ t newline) ls

    words_in : List (List String) → List String
    words_in [] = []
    words_in (g ∷ gs) = all_words alphabet g ++ words_in gs

    words_in-add_line :
        (l : String) (gs : List (List String))
        → words_in (add_line alphabet l gs) ≡ words alphabet l ++ words_in gs
    unfolding words_in add_line all_words
    words_in-add_line l [] = append-append (words alphabet l) [] []
    words_in-add_line l (g ∷ gs) =
        append-append (words alphabet l) (all_words alphabet g) (words_in gs)

    words-blank_line : (l : String) → is_empty (lstrip alphabet l) ≡ true → words alphabet l ≡ []
    words-blank_line l h = sym (words-lstrip l) ∙ words_none (lstrip alphabet l) h

    words_in-groups : (ls : List String) → words_in (groups alphabet ls) ≡ all_words alphabet ls
    unfolding words_in groups all_words
    words_in-groups [] = refl
    words_in-groups (l ∷ ls) = elim (Bool-cases (is_empty (lstrip alphabet l))) [
      | inl e ↦ rw (e, words-blank_line l e) (words_in-groups ls)
      | inr e ↦ rw e (
          words_in-add_line l (groups alphabet ls)
          ∙ ap (λ w. words alphabet l ++ w) (words_in-groups ls))
    ]

    all_words-joined :
        (gs : List (List String))
        → all_words alphabet (map (join "\n") (keep (has_lines alphabet) gs)) ≡ words_in gs
    unfolding words_in has_lines all_words
    all_words-joined [] = refl
    all_words-joined ([] ∷ gs) = all_words-joined gs
    all_words-joined ((l ∷ g) ∷ gs) =
        ap (λ w. w ++ all_words alphabet (map (join "\n") (keep (has_lines alphabet) gs)))
          (words-lines (l ∷ g))
        ∙ ap (λ w. all_words alphabet (l ∷ g) ++ w) (all_words-joined gs)

    -- The paragraphs of a text have its words.
    pub all_words-paragraphs :
        (content : String)
        → all_words alphabet (paragraphs alphabet content) ≡ words alphabet content
    unfolding paragraphs
    all_words-paragraphs content =
        all_words-joined (groups alphabet (split_newlines content))
        ∙ words_in-groups (split_newlines content)
        ∙ sym (words-split_newlines content)
