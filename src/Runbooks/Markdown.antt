-- ===== src/Runbooks/Markdown.antt =====
-- `_HEADING`, `_FENCE` and the methods of texts in apps/api/app/runbooks.py.
use triage_assistant.Prelude.{
  ℕ, zero, suc, ◌==◌, String, Bool, not, ◌&&◌, ◌||◌, Option, none, some, List, [], ◌∷◌, keep, code,
  leb, str_eq, begins, is_empty, if◌then◌else◌, ◌+++◌,
}

-- Python's tables of characters: white space, the ends of lines, and the case folding of texts.
pub record Alphabet : Type 0 where
  pub is_space : ℕ → Bool
  pub is_break : ℕ → Bool
  pub casefold : String → String

-- A character before the first of some texts.
unfoldable pub before_first : String → List String → List String
before_first c [] = c ∷ []
before_first c (t ∷ ts) = (c +++ t) ∷ ts

-- Up to so many spaces.
unfoldable pub skip_spaces : ℕ → String → String
skip_spaces zero s = s
skip_spaces (suc n) String.[] = String.[]
skip_spaces (suc n) (String.◌∷◌ c s) = if code c == b' ' then skip_spaces n s else String.◌∷◌ c s

-- `_FENCE.match(line)`
unfoldable pub is_fence : String → Bool
unfolding skip_spaces
is_fence line = let s = skip_spaces 3 line in begins "```" s || begins "~~~" s

-- How many # a text begins with, and what follows them.
unfoldable pub hashes : String → ℕ × String
hashes String.[] = (0, String.[])
hashes (String.◌∷◌ c s) =
    let (n, rest) = hashes s in if code c == b'#' then (suc n, rest) else (0, String.◌∷◌ c s)

-- `re.split("\n", s)`
unfoldable pub split_newlines : String → List String
unfolding before_first
split_newlines String.[] = "" ∷ []
split_newlines (String.◌∷◌ c s) =
    let rest = split_newlines s in
    if code c == b'\n' then "" ∷ rest else before_first (String.◌∷◌ c "") rest

module _ (alphabet : Alphabet) where
  -- `s.splitlines()`; a carriage return with a newline after it is one end.
  unfoldable pub split_lines : String → List String
  unfolding before_first
  split_lines String.[] = []
  split_lines (String.◌∷◌ c s) =
      let rest = split_lines s in
      if (code c == b'\r') && begins "\n" s
      then rest
      else if alphabet.is_break (code c)
      then "" ∷ rest
      else before_first (String.◌∷◌ c "") rest

  unfoldable pub lstrip : String → String
  lstrip String.[] = String.[]
  lstrip (String.◌∷◌ c s) = if alphabet.is_space (code c) then lstrip s else String.◌∷◌ c s

  unfoldable pub rstrip : String → String
  rstrip String.[] = String.[]
  rstrip (String.◌∷◌ c s) =
      let rest = rstrip s in
      if is_empty rest && alphabet.is_space (code c) then String.[] else String.◌∷◌ c rest

  unfoldable pub strip : String → String
  unfolding lstrip rstrip
  strip s = rstrip (lstrip s)

  -- `\s*#*\s*$`
  unfoldable pub is_tail : String → Bool
  unfolding lstrip hashes
  is_tail s = is_empty (lstrip (hashes (lstrip s)).1)

  -- `(.+?)` before such a tail: the shortest that is not empty.
  unfoldable pub shortest : String → String
  unfolding is_tail
  shortest String.[] = String.[]
  shortest (String.◌∷◌ c s) =
      let rest = shortest s in if is_tail s then String.◌∷◌ c "" else String.◌∷◌ c rest

  -- The last character of a text of two at least.
  unfoldable pub last_of_two : String → Option String
  last_of_two String.[] = none
  last_of_two (String.◌∷◌ c String.[]) = none
  last_of_two (String.◌∷◌ c (String.◌∷◌ d s)) = elim (last_of_two (String.◌∷◌ d s)) [
    | none ↦ some (String.◌∷◌ d "")
    | some l ↦ some l
  ]

  -- The text of a heading, after its #: white space, and the text; of white space alone the last
  -- character is the text, if another stands before it.
  unfoldable pub heading_text : String → Option String
  unfolding lstrip shortest last_of_two
  heading_text s =
      let body = lstrip s in
      if str_eq body s then none else if is_empty body then last_of_two s else some (shortest body)

  -- `_HEADING.match(line)`: the level and the text.
  unfoldable pub heading : String → Option (ℕ × String)
  unfolding heading_text skip_spaces hashes
  heading line =
      let (n, rest) = hashes (skip_spaces 3 line) in
      if leb 1 n && leb n 6
      then elim (heading_text rest) [ none ↦ none | some t ↦ some (n, t) ]
      else none

  -- `s.split()`, and before it what stands between single characters of white space.
  unfoldable pub gaps : String → List String
  unfolding before_first
  gaps String.[] = "" ∷ []
  gaps (String.◌∷◌ c s) =
      let rest = gaps s in
      if alphabet.is_space (code c) then "" ∷ rest else before_first (String.◌∷◌ c "") rest

  unfoldable pub words : String → List String
  unfolding gaps
  words s = keep (λ w. not (is_empty w)) (gaps s)
