-- ===== src/Routes/Assistant.antt =====
-- apps/api/app/routes/assistant.py: the off switch for people.
use triage_assistant.Prelude.{ℕ, String, Bool, Option, if◌then◌else◌}
use triage_assistant.Http.{Result, ok, err, http_error}
use triage_assistant.Models.{Db, AssistantSwitch}
use triage_assistant.Access.Roles.{Principal}
use triage_assistant.Audit.{Context, actor_of}
use triage_assistant.Switch.{current, turn}

pub record AssistantOut : Type 0 where
  pub enabled : Bool
  pub reason : Option String
  pub changed_at : ℕ

unfoldable pub out : AssistantSwitch → AssistantOut
out row = record { enabled = row.enabled; reason = row.reason; changed_at = row.changed_at }

unfoldable pub status : Db → AssistantOut
unfolding out
status db = out (current db)

unfoldable pub switch :
    (String → String) → Context → Bool → Option String → Principal → Db → Result (AssistantOut × Db)
unfolding out
switch sha256 context enabled reason principal db =
    if principal.org_admin
    then ok (
      out (turn sha256 context (actor_of principal) enabled reason db).0,
      (turn sha256 context (actor_of principal) enabled reason db).1,
    )
    else err (http_error 403 "needs org admin")
