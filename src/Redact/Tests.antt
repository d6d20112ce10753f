-- ===== src/Redact/Tests.antt =====
-- `redact` of apps/api/app/redact.py with a pattern of each kind, at a text where all find something.
use triage_assistant.Prelude.{
  ◌≡◌, refl, sym, ◌∙◌, inl, inr, String, true, false, ◌||◌, ◌&&◌, [], ◌∷◌, map, leb, str_eq, eq_iff,
  Bool-cases, if◌then◌else◌, ◌+++◌,
}
use triage_assistant.Redact.{Matches, Kept, Labelled, Patterns, looks_secret, text_of, redact}
use triage_assistant.Redact.Steps.{Steps, InText, joined_matches}
use triage_assistant.Redact.Replaced.{Secret, redact-Steps}

-- A pattern that finds something in one text only.
abbrev at_text : {M : Type 0} → String → Matches M → String → Matches M
at_text t m s = if str_eq s t then m else record { found = []; tail = s }

at_text-InText :
    {M : Type 0} (text : M → String) (t : String) (m : Matches M)
    → joined_matches text m.found m.tail ≡ t
    → InText text (at_text t m)
at_text-InText text t m e s = elim (Bool-cases (str_eq s t)) [
  | inl h ↦ rw h (e ∙ sym ((eq_iff s t).0 h))
  | inr h ↦ rw h refl
]

abbrev in_context : Matches Kept
in_context = record {
  found = ("", record { prefix = "curl -u bob:"; secret = "hunter2" }) ∷ [];
  tail = " AKIA password=hunter3.";
}

abbrev in_format : Matches String
in_format = record { found = ("curl -u bob:[redacted] ", "AKIA") ∷ []; tail = " password=hunter3." }

abbrev labelled : Matches Labelled
labelled = record {
  found =
      (
        "curl -u bob:[redacted] [redacted] ",
        record { before = "password="; value = "hunter3."; after = ""; is_bare = true },
      )
      ∷ [];
  tail = "";
}

abbrev patterns : Patterns
patterns = record {
  contexts = at_text "curl -u bob:hunter2 AKIA password=hunter3." in_context ∷ [];
  formats = at_text "curl -u bob:[redacted] AKIA password=hunter3." in_format ∷ [];
  labelled = at_text "curl -u bob:[redacted] [redacted] password=hunter3." labelled;
  is_alpha = λ c. (leb 65 c && leb c 90) || (leb 97 c && leb c 122);
}

masks_and_words_stay :
    map (looks_secret patterns.is_alpha) ("****" ∷ "$DB_PASSWORD" ∷ "vault" ∷ "hunter2" ∷ [])
    ≡ false ∷ false ∷ false ∷ true ∷ []
unfolding looks_secret
masks_and_words_stay = refl

redact-Steps_example :
    Steps
      (Secret patterns)
      3
      "curl -u bob:hunter2 AKIA password=hunter3."
      "curl -u bob:[redacted] [redacted] password=[redacted]."
unfolding redact
redact-Steps_example =
    redact-Steps patterns
      (at_text-InText (λ (m : Kept). m.prefix +++ m.secret) _ in_context refl, tt)
      (at_text-InText (λ (m : String). m) _ in_format refl, tt)
      (at_text-InText text_of _ labelled refl) "curl -u bob:hunter2 AKIA password=hunter3."
