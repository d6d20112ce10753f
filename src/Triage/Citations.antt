-- ===== src/Triage/Citations.antt =====
-- `citations` of apps/api/app/triage.py. Word characters and decimal digits are those of a table, as
-- for Python's regular expressions.
pub mod Sound
use triage_assistant.Prelude.{
  ℕ, zero, suc, ◌+◌, ◌*◌, String, Bool, true, false, not, ◌&&◌, Option, none, some, List, [], ◌∷◌,
  code, ◌==◌, any, if◌then◌else◌, get_elem?, ◌+++◌, keep,
}
use triage_assistant.Prelude.Numbers.{decimal}
use triage_assistant.Triage.Hits.{Hit}

pub record Characters : Type 0 where
  pub is_word : ℕ → Bool
  pub digit : ℕ → Option ℕ

pub record Citation : Type 0 where
  pub ref : String
  pub runbook_id : ℕ
  pub title : String
  pub heading : String

unfoldable pub ref_of : ℕ → String
ref_of number = "R" +++ decimal number

unfoldable pub cited_as : ℕ → Hit → Citation
unfolding ref_of
cited_as number hit = record {
  ref = ref_of number;
  runbook_id = hit.runbook_id;
  title = hit.title;
  heading = hit.heading;
}

module _ (characters : Characters) where
  unfoldable pub starts_word : String → Bool
  starts_word String.[] = false
  starts_word (String.◌∷◌ c s) = characters.is_word (code c)

  -- One digit that a word boundary follows.
  one_digit : ℕ → String → Option ℕ
  unfolding starts_word
  one_digit a s = if starts_word s then none else some a

  -- `\d{1,2}\b`: two digits if they can be had.
  two_digits : ℕ → String → Option ℕ
  unfolding one_digit starts_word
  two_digits a String.[] = some a
  two_digits a (String.◌∷◌ d s) = elim (characters.digit (code d)) [
    | none ↦ one_digit a (String.◌∷◌ d s)
    | some b ↦ if starts_word s then one_digit a (String.◌∷◌ d s) else some (10 * a + b)
  ]

  unfoldable pub number_at : String → Option ℕ
  unfolding two_digits
  number_at String.[] = none
  number_at (String.◌∷◌ d s) = elim (characters.digit (code d)) [
    | none ↦ none
    | some a ↦ two_digits a s
  ]

  -- `_CITATION.findall`, in a text after a word character or not. A match ends in digits, and none
  -- begins with one, so looking on from the character after the R finds the same.
  unfoldable pub find_numbers : Bool → String → List ℕ
  unfolding number_at
  find_numbers after_word String.[] = []
  find_numbers after_word (String.◌∷◌ c s) =
      let rest = find_numbers (characters.is_word (code c)) s in
      if not after_word && code c == b'R'
      then elim (number_at s) [ none ↦ rest | some n ↦ n ∷ rest ]
      else rest

  -- `dict.fromkeys`: the first of each.
  unfoldable pub once : List ℕ → List ℕ
  once [] = []
  once (n ∷ ns) = n ∷ keep (λ m. not (m == n)) (once ns)

  -- The section with a number, if the context has one.
  unfoldable pub section_at : List Hit → ℕ → Option Hit
  section_at sections zero = none
  section_at sections (suc n) = get_elem? sections n

  unfoldable pub sort_one :
      ℕ → Option Hit → List Citation × List String → List Citation × List String
  sort_one n (some hit) (cited, invalid) = (cited_as n hit ∷ cited, invalid)
  sort_one n none (cited, invalid) = (cited, ref_of n ∷ invalid)

  unfoldable pub sort_citations : List Hit → List ℕ → List Citation × List String
  unfolding section_at sort_one
  sort_citations sections [] = ([], [])
  sort_citations sections (n ∷ ns) = sort_one n (section_at sections n) (sort_citations sections ns)

  unfoldable pub citations : String → List Hit → List Citation × List String
  unfolding sort_citations once
  citations answer sections = sort_citations sections (once (find_numbers false answer))
