-- ===== src/Routes/Chat/Told.antt =====
-- What the model reads of alerts and runbook sections: `build_messages` of apps/api/app/triage.py as
-- apps/api/app/routes/chat.py calls it.
use triage_assistant.Prelude.{
  Char, ℕ, suc, ◌+◌, ◌==◌, ◌≡◌, refl, ap, ◌⊎◌, inl, inr, String, true, false, not, List, [], ◌∷◌,
  map, code, all_chars, front, join, is_empty, text_length, if◌then◌else◌, ◌+++◌, Bool-cases, arith,
}
use triage_assistant.Prelude.Numbers.{decimal}
use triage_assistant.Models.{AlertOut}
use triage_assistant.Agent.{Message}
use triage_assistant.Triage.Hits.{Hit}
use triage_assistant.Triage.Prompt.{
  partition, alert_line, section_text, alert_lines, section_texts, or_text, build_messages,
}
use triage_assistant.Routes.Chat.{Service}

-- The first line of a text and what stands after it.
abbrev pub Parted : String → String → String → Type 0
Parted text first rest =
    (all_chars (λ c. not (c == b'\n')) first ≡ true)
    × (((c : Char) × (code c ≡ b'\n') × (text ≡ first +++ String.◌∷◌ c rest))
        ⊎ ((text ≡ first) × (rest ≡ "")))

longer :
    (c : Char) (s first rest : String)
    → (code c == b'\n') ≡ false
    → Parted s first rest
    → Parted (String.◌∷◌ c s) (String.◌∷◌ c first) rest
longer c s first rest e (plain, inl (d, newline, same)) =
    (ground (arith, e, plain), inl (d, newline, ap (λ t. String.◌∷◌ c t) same))
longer c s first rest e (plain, inr (same, nothing_left)) =
    (ground (arith, e, plain), inr (ap (λ t. String.◌∷◌ c t) same, nothing_left))

partition-Parted : (text : String) → Parted text (partition text).0 (partition text).1
unfolding partition
partition-Parted String.[] = (refl, inr (refl, refl))
partition-Parted (String.◌∷◌ c s) = elim (Bool-cases (code c == b'\n')) [
  | inl e ↦ rw e (refl, inl (c, ground (arith, e), refl))
  | inr e ↦ rw e (longer c s (partition s).0 (partition s).1 e (partition-Parted s))
]

module _ {W : Type 0} (service : Service W) where
  -- An alert as the model reads it: redacted, and cut after 300 characters of its message.
  abbrev pub line_of : AlertOut → String
  line_of a =
      "- ["
      +++ a.severity
      +++ "] "
      +++ service.minute a.created_at
      +++ "Z team="
      +++ a.team
      +++ " "
      +++ front (text_length (a.source +++ ": ") + 300)
          (service.searcher.clean ((a.source +++ ": ") +++ a.message)).0

  -- A section as the model reads it under a number, heading and content redacted together.
  abbrev pub BlockOf : ℕ → Hit → String → Type 0
  BlockOf number hit block =
      (heading content : String) × Parted
        (service.searcher.clean (hit.heading +++ "\n" +++ hit.content)).0 heading content
      × (block
          ≡ "[R"
            +++ decimal number
            +++ "] "
            +++ heading
            +++ " (team "
            +++ hit.team
            +++ ", updated "
            +++ service.date hit.updated_at
            +++ ")\n"
            +++ content)

  abbrev pub BlocksOf : ℕ → List Hit → List String → Type 0
  BlocksOf number [] [] = Unit
  BlocksOf number [] (b ∷ bs) = ⊥
  BlocksOf number (h ∷ hs) [] = ⊥
  BlocksOf number (h ∷ hs) (b ∷ bs) = BlockOf number h b × BlocksOf (suc number) hs bs

  abbrev pub or_default : String → String → String
  or_default default s = if is_empty s then default else s

  -- The model is told of these alerts and sections, numbered from 1, and asked the question.
  abbrev pub Told : String → List AlertOut → List Hit → List Message → Type 0
  Told question alerts hits messages =
      (blocks : List String) × BlocksOf 1 hits blocks
      × (messages
          ≡ Message.system (
              service.template (or_default "(none)" (join "\n" (map line_of alerts)))
                (or_default "(no runbook sections)" (join "\n\n" blocks)))
            ∷ Message.user (service.searcher.clean question).0
            ∷ [])

  alert_lines-line_of :
      (alerts : List AlertOut)
      → (alert_lines service.searcher.clean service.minute service.date alerts).0
        ≡ map line_of alerts
  unfolding alert_lines alert_line
  alert_lines-line_of [] = refl
  alert_lines-line_of (a ∷ alerts) = ap (λ l. line_of a ∷ l) (alert_lines-line_of alerts)

  section_texts-BlocksOf :
      (number : ℕ) (hits : List Hit)
      → BlocksOf number hits
          (section_texts service.searcher.clean service.minute service.date number hits).0
  unfolding section_texts section_text
  section_texts-BlocksOf number [] = tt
  section_texts-BlocksOf number (h ∷ hs) = (
    (_, _, partition-Parted (service.searcher.clean (h.heading +++ "\n" +++ h.content)).0, refl),
    section_texts-BlocksOf (suc number) hs,
  )

  pub build_messages-Told :
      (question : String) (alerts : List AlertOut) (hits : List Hit)
      → Told question alerts hits
          (build_messages service.searcher.clean service.minute service.date service.template
            question alerts hits).0
  unfolding build_messages or_text
  build_messages-Told question alerts hits = (
    (section_texts service.searcher.clean service.minute service.date 1 hits).0,
    section_texts-BlocksOf 1 hits,
    ap
        (λ lines.
          Message.system (
            service.template (or_default "(none)" (join "\n" lines)) (
              or_default "(no runbook sections)" (
                join "\n\n"
                  (section_texts service.searcher.clean service.minute service.date 1 hits).0)))
          ∷ Message.user (service.searcher.clean question).0
          ∷ [])
        (alert_lines-line_of alerts),
  )
