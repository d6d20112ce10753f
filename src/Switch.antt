-- ===== src/Switch.antt =====
-- apps/api/app/switch.py: the assistant's off switch, with the handlers of
-- apps/api/app/routes/assistant.py.
use triage_assistant.Prelude.{String, Bool, Option, none, some, [], ◌∷◌, if◌then◌else◌, is_empty}
use triage_assistant.Models.{Db, AssistantSwitch, nothing, text, Detail}
use triage_assistant.Audit.{Actor, Context, record_event}

unfoldable pub current : Db → AssistantSwitch
current db = db.assistant_switch

-- `sha256(reason) if reason else None`
unfoldable pub reason_hash : (String → String) → Option String → Detail
reason_hash sha256 none = nothing
reason_hash sha256 (some reason) = if is_empty reason then nothing else text (sha256 reason)

unfoldable pub turn :
    (String → String) → Context → Actor → Bool → Option String → Db → AssistantSwitch × Db
unfolding reason_hash
turn sha256 context actor enabled reason db =
    let row : AssistantSwitch = record {
      enabled = enabled;
      reason = if enabled then none else reason;
      changed_by = actor.user_id;
      changed_at = context.now;
    } in
    (
      row,
      record_event context actor (if enabled then "assistant.enabled" else "assistant.disabled")
          none none (("reason_sha256", reason_hash sha256 reason) ∷ [])
          (record db { assistant_switch = row }),
    )
