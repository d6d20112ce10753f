-- ===== src/Redact/Replaced.antt =====
-- What `redact` of apps/api/app/redact.py does to a text, as steps that each replace one part.
use mathlib.Core.List.{Memᴰ}
use triage_assistant.Prelude.{
  ◌==◌, ◌&&◌, ◌+◌, ◌≡◌, refl, sym, ap, ◌∙◌, ◌⊎◌, inl, inr, String, true, All, All-map, All-Mem,
  All-every, append_assoc, append_empty, Bool-cases, text_length, text_length-append, front, back,
  code, is_empty, ◌+++◌,
}
use triage_assistant.Redact.{
  redacted, Matches, Kept, Labelled, Patterns, looks_secret, without_stops, keep_prefix, whole,
  value_of, text_of, replace_labelled, sub_each, redact,
}
use triage_assistant.Redact.Steps.{
  Steps, unchanged, replaced, InText, Steps-trans, sub-Steps, sub_each-Steps,
}

front-append : (s t : String) → front (text_length s) (s +++ t) ≡ s
front-append String.[] t = refl
front-append (String.◌∷◌ c s) t = ap (λ r. String.◌∷◌ c r) (front-append s t)

back_text : (s t : String) → back (text_length s) (s +++ t) ≡ t
back_text String.[] t = refl
back_text (String.◌∷◌ c s) t = back_text s t

back-append : (s t u : String) → back (text_length s + text_length t) (s +++ t +++ u) ≡ u
back-append s t u =
    ap (λ n. back n (s +++ t +++ u)) (sym (text_length-append s t))
    ∙ ap (back (text_length (s +++ t))) (sym (append_assoc s t u))
    ∙ back_text (s +++ t) u

-- Cutting a text before and after a part of it.
cut_at :
    (w before v rest : String)
    → w ≡ before +++ v +++ rest
    → front (text_length before) w +++ redacted +++ back (text_length before + text_length v) w
      ≡ before +++ redacted +++ rest
cut_at w before v rest e =
    ap (λ t. t +++ redacted +++ back (text_length before + text_length v) w)
      (ap (front (text_length before)) e ∙ front-append before (v +++ rest))
    ∙ ap (λ t. before +++ redacted +++ t)
        (ap (back (text_length before + text_length v)) e ∙ back-append before v rest)

-- A text is what is left of it and the full stops at its end.
without_stops_front : (s : String) → (stops : String) × (s ≡ without_stops s +++ stops)
unfolding without_stops
without_stops_front String.[] = ("", refl)
without_stops_front (String.◌∷◌ c s) =
    let (stops, e) = without_stops_front s in
    elim (Bool-cases (is_empty (without_stops s) && code c == b'.')) [
      | inl h ↦ (String.◌∷◌ c s, rw h refl)
      | inr h ↦ (stops, rw h (ap (λ t. String.◌∷◌ c t) e))
    ]

value_of_front : (m : Labelled) → (stops : String) × (m.value ≡ value_of m +++ stops)
unfolding value_of
value_of_front m = elim (Bool-cases m.is_bare) [
  | inl h ↦ rw h (without_stops_front m.value)
  | inr h ↦ rw h ("", sym (append_empty m.value))
]

module _ (patterns : Patterns) where
  -- What looks like a secret, or is found by one of the formats.
  abbrev pub Secret : String → Type 0
  Secret s =
      (looks_secret patterns.is_alpha s ≡ true)
      ⊎ ((pattern : String → Matches String) × (text before : String) × Memᴰ pattern
            patterns.formats
          × Memᴰ (before, s) (pattern text).found)

  keep_prefix-Steps :
      (m : Kept)
      → Steps Secret
          (keep_prefix patterns.is_alpha m).1
          (m.prefix +++ m.secret)
          (keep_prefix patterns.is_alpha m).0
  unfolding keep_prefix
  keep_prefix-Steps m = elim (Bool-cases (looks_secret patterns.is_alpha m.secret)) [
    | inl e ↦ rw e (
        replaced 0 m.prefix m.secret "" (ap (λ t. m.prefix +++ t) (sym (append_empty m.secret)))
          (inl e) (unchanged refl))
    | inr e ↦ rw e (unchanged refl)
  ]

  whole-Steps : (m : String) → Secret m → Steps Secret (whole m).1 m (whole m).0
  unfolding whole
  whole-Steps m s = replaced 0 "" m "" (sym (append_empty m)) s (unchanged refl)

  replace_labelled-Steps :
      (m : Labelled)
      → Steps Secret
          (replace_labelled patterns.is_alpha m).1
          (text_of m)
          (replace_labelled patterns.is_alpha m).0
  unfolding replace_labelled
  replace_labelled-Steps m = elim (Bool-cases (looks_secret patterns.is_alpha (value_of m))) [
    | inl e ↦
        let (stops, split) = value_of_front m in
        let shape = parts stops split in
        rw e (
          replaced 0 m.before (value_of m) (stops +++ m.after) shape (inl e)
            (unchanged (sym (cut_at (text_of m) m.before (value_of m) (stops +++ m.after) shape))))
    | inr e ↦ rw e (unchanged refl)
  ]
    where
      parts :
          (stops : String)
          → m.value ≡ value_of m +++ stops
          → text_of m ≡ m.before +++ value_of m +++ (stops +++ m.after)
      parts stops e =
          ap (λ t. m.before +++ t +++ m.after) e
          ∙ ap (λ t. m.before +++ t) (append_assoc (value_of m) stops m.after)

  -- Where the matches of the patterns stand in the text, `redact` counts as many as it replaces: its
  -- result comes from the text by that many steps, each of which replaces one part that looks like a
  -- secret, or that one of the formats found, by "[redacted]"; all else stays as it was.
  pub redact-Steps :
      All (InText (λ m. m.prefix +++ m.secret)) patterns.contexts
      → All (InText (λ m. m)) patterns.formats
      → InText text_of patterns.labelled
      → (text : String) → Steps Secret (redact patterns text).1 text (redact patterns text).0
  unfolding redact
  redact-Steps contexts formats labelled text =
      let in_context = sub_each (keep_prefix patterns.is_alpha) patterns.contexts text in
      let in_format = sub_each whole patterns.formats in_context.0 in
      Steps-trans Secret in_context.1 _ text in_context.0 _
        (sub_each-Steps Secret _ (keep_prefix patterns.is_alpha) patterns.contexts text contexts (
          All-every _ patterns.contexts
            (λ pattern s. All-every _ (pattern s).found (λ f. keep_prefix-Steps f.1))))
        (Steps-trans Secret in_format.1 _ in_context.0 in_format.0 _
          (sub_each-Steps Secret _ whole patterns.formats in_context.0 formats (
            All-map (λ pattern. Memᴰ pattern patterns.formats) _ patterns.formats
              (λ pattern m s.
                All-map (λ f. Memᴰ f (pattern s).found) _ (pattern s).found
                  (λ f found. whole-Steps f.1 (inr (pattern, s, f.0, m, found)))
                  (All-Mem (pattern s).found))
              (All-Mem patterns.formats)))
          (sub-Steps Secret text_of (replace_labelled patterns.is_alpha) patterns.labelled
            in_format.0 labelled (All-every _ _ (λ f. replace_labelled-Steps f.1))))
