-- ===== src/Redact.antt =====
-- apps/api/app/redact.py: credentials out of what a model is given. A pattern is what Python's `re`
-- finds with it; what is done with the matches is written out.
pub mod Steps
pub mod Replaced
mod Tests
use triage_assistant.Prelude.{
  ℕ, zero, suc, ◌+◌, ◌==◌, String, Bool, true, false, not, ◌&&◌, ◌||◌, List, [], ◌∷◌, code, leb,
  is_empty, all_chars, text_length, front, back, if◌then◌else◌, ◌+++◌,
}

abbrev pub redacted : String
redacted = "[redacted]"

-- The matches of a pattern in a text, from left to right, each with the text before it, and the text
-- after the last.
pub record Matches (M : Type 0) : Type 0 where
  pub found : List (String × M)
  pub tail : String

-- A match that names its first group, which stays, and what follows it.
pub record Kept : Type 0 where
  pub prefix : String
  pub secret : String

-- A match with a value: what stands before and after it, and whether it stands without quotes.
pub record Labelled : Type 0 where
  pub before : String
  pub value : String
  pub after : String
  pub is_bare : Bool

pub record Patterns : Type 0 where
  pub contexts : List (String → Matches Kept)
  pub formats : List (String → Matches String)
  pub labelled : String → Matches Labelled
  pub is_alpha : ℕ → Bool

-- `value[0] in "$%{<(["`
unfoldable pub is_reference : String → Bool
is_reference String.[] = false
is_reference (String.◌∷◌ c s) =
    code c == b'$'
    || code c == b'%'
    || code c == b'{'
    || code c == b'<'
    || code c == b'('
    || code c == b'['

unfoldable pub mask_char : ℕ → Bool
mask_char c = c == b'*' || c == b'x' || c == b'X' || c == b'.'

unfoldable pub is_mask : String → Bool
unfolding mask_char
is_mask value = all_chars mask_char value

-- `_looks_secret`
unfoldable pub looks_secret : (ℕ → Bool) → String → Bool
unfolding is_reference is_mask
looks_secret is_alpha value =
    if is_empty value || is_reference value || is_mask value
    then false
    else leb 12 (text_length value) || not (all_chars is_alpha value)

-- `value.rstrip(".")`
unfoldable pub without_stops : String → String
without_stops String.[] = String.[]
without_stops (String.◌∷◌ c s) =
    let rest = without_stops s in
    if is_empty rest && code c == b'.' then String.[] else String.◌∷◌ c rest

-- `pattern.sub(replace, text)`, with the number of replacements that count.
unfoldable pub sub_all : {M : Type 0} → (M → String × ℕ) → List (String × M) → String → String × ℕ
sub_all replace [] tail = (tail, 0)
sub_all replace ((before, m) ∷ found) tail =
    let (rest, n) = sub_all replace found tail in
    let (text, k) = replace m in (before +++ text +++ rest, k + n)

unfoldable pub sub : {M : Type 0} → (String → Matches M) → (M → String × ℕ) → String → String × ℕ
unfolding sub_all
sub pattern replace text = let m = pattern text in sub_all replace m.found m.tail

unfoldable pub keep_prefix : (ℕ → Bool) → Kept → String × ℕ
unfolding looks_secret
keep_prefix is_alpha m =
    if looks_secret is_alpha m.secret
    then (m.prefix +++ redacted, 1)
    else (m.prefix +++ m.secret, 0)

unfoldable pub whole : String → String × ℕ
whole m = (redacted, 1)

unfoldable pub value_of : Labelled → String
unfolding without_stops
value_of m = if m.is_bare then without_stops m.value else m.value

unfoldable pub text_of : Labelled → String
text_of m = m.before +++ m.value +++ m.after

unfoldable pub replace_labelled : (ℕ → Bool) → Labelled → String × ℕ
unfolding looks_secret value_of text_of
replace_labelled is_alpha m =
    let start = text_length m.before in
    if looks_secret is_alpha (value_of m)
    then (
      front start (text_of m) +++ redacted +++ back (start + text_length (value_of m)) (text_of m),
      1,
    )
    else (text_of m, 0)

-- A pattern after the other, on what the one before left.
unfoldable pub sub_each :
    {M : Type 0} → (M → String × ℕ) → List (String → Matches M) → String → String × ℕ
unfolding sub
sub_each replace [] text = (text, 0)
sub_each replace (pattern ∷ patterns) text =
    let (once, n) = sub pattern replace text in
    let (rest, k) = sub_each replace patterns once in (rest, n + k)

unfoldable pub redact : Patterns → String → String × ℕ
unfolding sub_each sub keep_prefix whole replace_labelled
redact patterns text =
    let (in_context, n) = sub_each (keep_prefix patterns.is_alpha) patterns.contexts text in
    let (in_format, k) = sub_each whole patterns.formats in_context in
    let (result, l) = sub patterns.labelled (replace_labelled patterns.is_alpha) in_format in
    (result, n + (k + l))
