-- ===== src/Runbooks/Sections/Split.antt =====
-- `split_sections` of apps/api/app/runbooks.py: its loop over the lines.
use triage_assistant.Prelude.{
  refl, append-append, append_nil, Bool, sym, ap, ◌∙◌, ◌++◌, ◌≤◌, not, ℕ, ◌≡◌, String, true, false,
  inl, inr, Option, none, some, List, [], ◌∷◌, All, All-append, Bool-cases, join, map, is_empty,
  if◌then◌else◌, ◌&&◌, ◌==◌, str_eq,
}
use triage_assistant.Runbooks.Markdown.{words, Alphabet, strip, heading, is_fence, split_lines}
use triage_assistant.Runbooks.Sections.{
  Section, Reading, limit, flush, read_heading, read_line, read_lines, split_sections,
}
use triage_assistant.Runbooks.Sections.Short.{FewIn, limit-FewIn}
use triage_assistant.Runbooks.Sections.Words.{all_words, all_words-append}
use triage_assistant.Runbooks.Sections.Paragraphs.{words-strip, words-lines, words_none}
use triage_assistant.Runbooks.Sections.Kept.{
  section_words, section_words-append, section_words-limit,
}

unfoldable pub keep_line : Option (ℕ × String) → String → List String → List String
keep_line none line rest = line ∷ rest
keep_line (some match) line rest = rest

-- The lines that are no headings; within a fence none is one.
unfoldable pub body_lines : Alphabet → Bool → List String → List String
unfolding keep_line
body_lines alphabet in_fence [] = []
body_lines alphabet in_fence (line ∷ lines) =
    let fenced = if is_fence line then not in_fence else in_fence in
    keep_line (if fenced then none else heading alphabet line) line
      (body_lines alphabet fenced lines)

abbrev pub start : (alphabet : Alphabet) → Reading alphabet
start alphabet = record { sections = []; path = []; lines = []; in_fence = false }

module _ (alphabet : Alphabet) (space : alphabet.is_space b' ' ≡ true)
    (newline : alphabet.is_space b'\n' ≡ true) (title : String) (max_words : ℕ) where
  abbrev is_title : ℕ → String → Bool
  is_title level text =
      (level == 1) && str_eq (alphabet.casefold (strip alphabet text)) (alphabet.casefold title)

  abbrev Short : List Section → Type 0
  Short = All (FewIn alphabet max_words)

  flush-Short :
      (r : Reading alphabet) → Short r.sections → Short (flush alphabet title max_words r).sections
  unfolding flush
  flush-Short r h =
      let content = strip alphabet (join "\n" r.lines) in
      let path = join " > " (title ∷ map (λ h. h.1) r.path) in
      elim (Bool-cases (is_empty content)) [
        | inl e ↦ rw (e, All) h
        | inr e ↦
            rw (e, All)
              (All-append (FewIn alphabet max_words) r.sections
                (limit alphabet path content max_words) h
                (limit-FewIn alphabet space newline max_words path content))
      ]

  read_heading-Short :
      (r : Reading alphabet) (line : String) (match : Option (ℕ × String))
      → Short r.sections
      → Short (read_heading alphabet title max_words r line match).sections
  unfolding read_heading
  read_heading-Short r line none h = h
  read_heading-Short r line (some (level, text)) h = elim (Bool-cases (is_title level text)) [
    | inl e ↦ rw (e, All) h
    | inr e ↦ rw (e, All) (flush-Short r h)
  ]

  read_line-Short :
      (r : Reading alphabet) (line : String)
      → Short r.sections
      → Short (read_line alphabet title max_words r line).sections
  unfolding read_line
  read_line-Short r line h =
      let fenced = if is_fence line then not r.in_fence else r.in_fence in
      read_heading-Short (record r { in_fence = fenced }) line
        (if fenced then none else heading alphabet line) h

  read_lines-Short :
      (r : Reading alphabet) (lines : List String)
      → Short r.sections
      → Short (read_lines alphabet title max_words r lines).sections
  unfolding read_lines
  read_lines-Short r [] h = h
  read_lines-Short r (l ∷ ls) h =
      read_lines-Short (read_line alphabet title max_words r l) ls (read_line-Short r l h)

  split_sections-Short :
      (markdown : String)
      → All (FewIn alphabet max_words) (split_sections alphabet title markdown max_words)
  unfolding split_sections
  split_sections-Short markdown =
      let lines = split_lines alphabet markdown in
      flush-Short (read_lines alphabet title max_words (start alphabet) lines)
        (read_lines-Short (start alphabet) lines tt)

  module _ (some_words : 1 ≤ max_words) where
    -- What has been read: the words of the sections, then those of the lines kept so far.
    abbrev read_words : Reading alphabet → List String
    read_words r = section_words alphabet r.sections ++ all_words alphabet r.lines

    words-content :
        (lines : List String)
        → words alphabet (strip alphabet (join "\n" lines)) ≡ all_words alphabet lines
    words-content lines =
        words-strip alphabet (join "\n" lines) ∙ words-lines alphabet newline lines

    read_words-flush :
        (r : Reading alphabet)
        → section_words alphabet (flush alphabet title max_words r).sections ≡ read_words r
    unfolding flush
    read_words-flush r =
        let content = strip alphabet (join "\n" r.lines) in
        let path = join " > " (title ∷ map (λ h. h.1) r.path) in
        elim (Bool-cases (is_empty content)) [
          | inl e ↦ rw e (
              append_nil (section_words alphabet r.sections)
              ∙ ap (λ l. section_words alphabet r.sections ++ l)
                  (sym (words_none alphabet content e) ∙ words-content r.lines))
          | inr e ↦ rw e (
              section_words-append alphabet r.sections (limit alphabet path content max_words)
              ∙ ap (λ l. section_words alphabet r.sections ++ l)
                  (section_words-limit alphabet space newline max_words some_words path content
                    ∙ words-content r.lines))
        ]

    read_words-read_heading :
        (r : Reading alphabet) (line : String) (match : Option (ℕ × String))
        → read_words (read_heading alphabet title max_words r line match)
          ≡ read_words r ++ all_words alphabet (keep_line match line [])
    unfolding read_heading keep_line all_words
    read_words-read_heading r line none =
        ap (λ l. section_words alphabet r.sections ++ l)
          (all_words-append alphabet r.lines (line ∷ []))
        ∙ sym (
            append-append (section_words alphabet r.sections) (all_words alphabet r.lines)
              (all_words alphabet (line ∷ [])))
    read_words-read_heading r line (some (level, text)) = elim (Bool-cases (is_title level text)) [
      | inl e ↦ rw e (append_nil (read_words r))
      | inr e ↦ rw e (ap (λ l. l ++ []) (read_words-flush r))
    ]

    in_fence-read_heading :
        (r : Reading alphabet) (line : String) (match : Option (ℕ × String))
        → (read_heading alphabet title max_words r line match).in_fence ≡ r.in_fence
    unfolding read_heading flush
    in_fence-read_heading r line none = refl
    in_fence-read_heading r line (some (level, text)) = elim (Bool-cases (is_title level text)) [
      | inl e ↦ rw e refl
      | inr e ↦ rw e refl
    ]

    all_words-keep_line :
        (match : Option (ℕ × String)) (line : String) (rest : List String)
        → all_words alphabet (keep_line match line rest)
          ≡ all_words alphabet (keep_line match line []) ++ all_words alphabet rest
    unfolding keep_line all_words
    all_words-keep_line none line rest = all_words-append alphabet (line ∷ []) rest
    all_words-keep_line (some match) line rest = refl

    read_words-read_lines :
        (r : Reading alphabet) (lines : List String)
        → read_words (read_lines alphabet title max_words r lines)
          ≡ read_words r ++ all_words alphabet (body_lines alphabet r.in_fence lines)
    unfolding read_lines read_line body_lines all_words
    read_words-read_lines r [] = append_nil (read_words r)
    read_words-read_lines r (l ∷ ls) =
        let fenced = if is_fence l then not r.in_fence else r.in_fence in
        let match = if fenced then none else heading alphabet l in
        let next = read_line alphabet title max_words r l in
        read_words-read_lines next ls
        ∙ ap (λ b. read_words next ++ all_words alphabet (body_lines alphabet b ls))
            (in_fence-read_heading (record r { in_fence = fenced }) l match)
        ∙ ap (λ w. w ++ all_words alphabet (body_lines alphabet fenced ls))
            (read_words-read_heading (record r { in_fence = fenced }) l match)
        ∙ append-append (read_words r) (all_words alphabet (keep_line match l []))
            (all_words alphabet (body_lines alphabet fenced ls))
        ∙ ap (λ w. read_words r ++ w)
            (sym (all_words-keep_line match l (body_lines alphabet fenced ls)))

  -- If a space and a newline count as white space, and a section may have a word: every section of a
  -- runbook has at most `max_words` words, and the words of the sections, in their order, are those of
  -- the document's lines that are no headings, so that none is lost, repeated or moved, whatever the
  -- document holds.
  pub split_sections_whole :
      (markdown : String)
      → 1 ≤ max_words
      → All (FewIn alphabet max_words) (split_sections alphabet title markdown max_words)
        × (section_words alphabet (split_sections alphabet title markdown max_words)
            ≡ all_words alphabet (body_lines alphabet false (split_lines alphabet markdown)))
  unfolding split_sections section_words all_words
  split_sections_whole markdown some_words = (
    split_sections-Short markdown,
    read_words-flush some_words
          (read_lines alphabet title max_words (start alphabet) (split_lines alphabet markdown))
        ∙ read_words-read_lines some_words (start alphabet) (split_lines alphabet markdown),
  )
