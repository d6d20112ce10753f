-- ===== src/Triage/Prompt.antt =====
-- The prompt of apps/api/app/triage.py: alerts and runbook sections as the model reads them.
use triage_assistant.Prelude.{
  ℕ, suc, ◌+◌, ◌==◌, String, List, [], ◌∷◌, code, front, join, is_empty, text_length, if◌then◌else◌,
  ◌+++◌,
}
use triage_assistant.Prelude.Numbers.{decimal}
use triage_assistant.Models.{AlertOut}
use triage_assistant.Triage.Hits.{Hit}
use triage_assistant.Agent.{Message}

abbrev pub max_alert_chars : ℕ
max_alert_chars = 300

-- `text.partition("\n")`: what stands before the first newline and what stands after it.
unfoldable pub partition : String → String × String
partition String.[] = ("", "")
partition (String.◌∷◌ c s) =
    let (before, after) = partition s in
    if code c == b'\n' then ("", s) else (String.◌∷◌ c before, after)

-- A text with its credentials replaced, and how many there were.
abbrev pub Redact : Type 0
Redact = String → String × ℕ

-- `minute` and `date` write a time as %Y-%m-%d %H:%M and as %Y-%m-%d.
module _ (redact : Redact) (minute : ℕ → String) (date : ℕ → String) where
  -- A list of texts cleaned by the same function adds up its redactions.
  unfoldable pub alert_line : AlertOut → String × ℕ
  alert_line alert =
      let source = alert.source +++ ": " in
      let (text, found) = redact (source +++ alert.message) in
      (
        "- ["
            +++ alert.severity
            +++ "] "
            +++ minute alert.created_at
            +++ "Z team="
            +++ alert.team
            +++ " "
            +++ front (text_length source + max_alert_chars) text,
        found,
      )

  unfoldable pub section_text : ℕ → Hit → String × ℕ
  unfolding partition
  section_text number hit =
      let (text, found) = redact (hit.heading +++ "\n" +++ hit.content) in
      let (heading, content) = partition text in
      (
        "[R"
            +++ decimal number
            +++ "] "
            +++ heading
            +++ " (team "
            +++ hit.team
            +++ ", updated "
            +++ date hit.updated_at
            +++ ")\n"
            +++ content,
        found,
      )

  unfoldable pub alert_lines : List AlertOut → List String × ℕ
  unfolding alert_line
  alert_lines [] = ([], 0)
  alert_lines (a ∷ alerts) =
      let (line, found) = alert_line a in
      let (rest, more) = alert_lines alerts in (line ∷ rest, found + more)

  -- Sections are numbered from a number on.
  unfoldable pub section_texts : ℕ → List Hit → List String × ℕ
  unfolding section_text
  section_texts number [] = ([], 0)
  section_texts number (hit ∷ hits) =
      let (block, found) = section_text number hit in
      let (rest, more) = section_texts (suc number) hits in (block ∷ rest, found + more)

  unfoldable pub or_text : String → String → String
  or_text s default = if is_empty s then default else s

  -- `template alerts runbooks` is SYSTEM_PROMPT with its two places filled. The redactions of alerts
  -- and sections are counted; the question is redacted after that.
  unfoldable pub build_messages :
      (String → String → String) → String → List AlertOut → List Hit → List Message × ℕ
  unfolding alert_lines section_texts or_text
  build_messages template question alerts sections =
      let (lines, found) = alert_lines alerts in
      let (runbooks, more) = section_texts 1 sections in
      (
        Message.system (
              template (or_text (join "\n" lines) "(none)")
                (or_text (join "\n\n" runbooks) "(no runbook sections)"))
            ∷ Message.user (redact question).0
            ∷ [],
        found + more,
      )
