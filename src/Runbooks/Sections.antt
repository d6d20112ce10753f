-- ===== src/Runbooks/Sections.antt =====
-- `split_sections` and `_limit` of apps/api/app/runbooks.py: a runbook's Markdown in sections.
pub mod Kept
pub mod Packed
pub mod Paragraphs
pub mod Short
pub mod Split
pub mod Words
use triage_assistant.Prelude.{
  ℕ, zero, suc, ◌+◌, ◌==◌, String, Bool, true, false, not, ◌&&◌, ◌||◌, Option, none, some, List, [],
  ◌∷◌, ◌++◌, map, keep, take, drop, length, code, ltb, leb, str_eq, begins, is_empty, join,
  if◌then◌else◌, ◌+++◌,
}
use triage_assistant.Prelude.Numbers.{decimal}
use triage_assistant.Runbooks.Markdown.{
  before_first, skip_spaces, is_fence, hashes, split_newlines, split_lines, lstrip, rstrip, strip,
  is_tail, shortest, last_of_two, heading_text, heading, gaps, words, Alphabet,
}

pub record Section : Type 0 where
  pub heading : String
  pub content : String

abbrev pub max_section_words : ℕ
max_section_words = 300

module _ (alphabet : Alphabet) where
  -- Lines in groups, apart at blank ones; a group may be empty.
  unfoldable pub add_line : String → List (List String) → List (List String)
  add_line l [] = (l ∷ []) ∷ []
  add_line l (g ∷ gs) = (l ∷ g) ∷ gs

  unfoldable pub groups : List String → List (List String)
  unfolding add_line lstrip
  groups [] = [] ∷ []
  groups (l ∷ ls) =
      let rest = groups ls in if is_empty (lstrip alphabet l) then [] ∷ rest else add_line l rest

  unfoldable pub has_lines : List String → Bool
  has_lines [] = false
  has_lines (l ∷ ls) = true

  -- `re.split(r"\n\s*\n", content)`, of a stripped content: what stands between blank lines.
  unfoldable pub paragraphs : String → List String
  unfolding groups has_lines split_newlines
  paragraphs content = map (join "\n") (keep has_lines (groups (split_newlines content)))

  -- So many words at a time, one at least: Python refuses a range by steps of 0. The number of words
  -- is fuel enough: each turn takes one at least.
  unfoldable pub cut : ℕ → ℕ → List String → List String
  cut max_words zero ws = []
  cut max_words (suc fuel) [] = []
  cut max_words (suc fuel) (w ∷ ws) =
      join " " (take max_words (w ∷ ws)) ∷ cut max_words fuel (drop max_words (w ∷ ws))

  unfoldable pub pieces_of : ℕ → String → List String
  unfolding words cut
  pieces_of max_words paragraph =
      let ws = words alphabet paragraph in
      if leb (length ws) max_words then paragraph ∷ [] else cut max_words (length ws) ws

  unfoldable pub pieces : ℕ → List String → List String
  unfolding pieces_of
  pieces max_words [] = []
  pieces max_words (p ∷ ps) = pieces_of max_words p ++ pieces max_words ps

  -- Pieces in parts, each filled while the words are no more than the most: `current` with `size`
  -- words is the part being filled.
  unfoldable pub pack : ℕ → List String → List String → ℕ → List (List String)
  unfolding words has_lines
  pack max_words [] current size = if has_lines current then current ∷ [] else []
  pack max_words (p ∷ ps) current size =
      let n = length (words alphabet p) in
      elim (has_lines current && ltb max_words (size + n)) [
        | true ↦ current ∷ pack max_words ps (p ∷ []) n
        | false ↦ pack max_words ps (current ++ p ∷ []) (size + n)
      ]

  unfoldable pub number_parts : String → ℕ → ℕ → List String → List Section
  number_parts heading' n total [] = []
  number_parts heading' n total (part ∷ parts) =
      record {
        heading = heading' +++ " (" +++ decimal n +++ "/" +++ decimal total +++ ")";
        content = part;
      }
      ∷ number_parts heading' (suc n) total parts

  unfoldable pub limit : String → String → ℕ → List Section
  unfolding words pieces paragraphs pack number_parts
  limit heading' content max_words =
      let parts = map (join "\n\n") (pack max_words (pieces max_words (paragraphs content)) [] 0) in
      if leb (length (words alphabet content)) max_words
      then record { heading = heading'; content = content } ∷ []
      else number_parts heading' 1 (length parts) parts

  -- The loop over lines: sections so far, the path of headings, the lines of the section, and whether
  -- they are in a fence.
  pub record Reading : Type 0 where
    pub sections : List Section
    pub path : List (ℕ × String)
    pub lines : List String
    pub in_fence : Bool

  unfoldable pub flush : String → ℕ → Reading → Reading
  unfolding strip limit
  flush title max_words r =
      let content = strip alphabet (join "\n" r.lines) in
      record r {
        sections =
            if is_empty content
            then r.sections
            else r.sections ++ limit (join " > " (title ∷ map (λ h. h.1) r.path)) content max_words;
        lines = [];
      }

  unfoldable pub read_heading : String → ℕ → Reading → String → Option (ℕ × String) → Reading
  unfolding flush strip
  read_heading title max_words r line none = record r { lines = r.lines ++ line ∷ [] }
  read_heading title max_words r line (some (level, text)) =
      if (level == 1) && str_eq (alphabet.casefold (strip alphabet text)) (alphabet.casefold title)
      then r
      else record (flush title max_words r) {
        path = keep (λ h. ltb h.0 level) r.path ++ (level, text) ∷ [];
      }

  unfoldable pub read_line : String → ℕ → Reading → String → Reading
  unfolding read_heading heading is_fence
  read_line title max_words r line =
      let fenced = if is_fence line then not r.in_fence else r.in_fence in
      read_heading title max_words (record r { in_fence = fenced }) line
        (if fenced then none else heading alphabet line)

  unfoldable pub read_lines : String → ℕ → Reading → List String → Reading
  unfolding read_line
  read_lines title max_words r [] = r
  read_lines title max_words r (l ∷ ls) =
      read_lines title max_words (read_line title max_words r l) ls

  unfoldable pub split_sections : String → String → ℕ → List Section
  unfolding read_lines flush split_lines
  split_sections title markdown max_words =
      let start : Reading = record { sections = []; path = []; lines = []; in_fence = false } in
      let read = read_lines title max_words start (split_lines alphabet markdown) in
      let done = flush title max_words read in done.sections
