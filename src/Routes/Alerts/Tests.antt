-- ===== src/Routes/Alerts/Tests.antt =====
-- The theorems on apps/api/app/routes/alerts.py at small inputs.
use triage_assistant.Prelude.{lookup, ◌++◌, ◌≡◌, refl, some, none, [], ◌∷◌, arith, map}
use triage_assistant.Prelude.Numbers.{decimal, read_decimal, read_decimal-decimal}
use triage_assistant.Audit.{record_event}
use triage_assistant.Queries.Order.{order_by}
use triage_assistant.Samples.{db, operator, same_text, context}
use triage_assistant.Queries.{to_out, newer, severity_is}
use triage_assistant.Access.Roles.{team_ids}
use triage_assistant.Queries.Cursor.{seen}
use triage_assistant.Routes.Alerts.{text, record_event, Db, Alert, slug_of, wanted_teams}
use triage_assistant.Routes.Alerts.Cursor.{Codec, no_bar-decimal}
use triage_assistant.Routes.Alerts.Paging.{read_all, read_all-seen}
use triage_assistant.Routes.Alerts.Webhook.{
  AlertmanagerAlert, ingest_alerts, ingest_rows, stored, rows_of, route, row_of, team_id_of, get_or,
  or_else, severity_of, routed, insert_rows, insert_row, new_alert, has_external_id, record_created,
}
use triage_assistant.Routes.Alerts.Webhook.Idempotent.{ingest_alerts_twice}

abbrev codec : Codec
codec = record {
  isoformat = decimal;
  fromisoformat = read_decimal;
  b64encode = λ s. s;
  b64decode = some;
  from_isoformat = read_decimal-decimal;
  isoformat_no_bar = no_bar-decimal;
  decode_encode = λ s. refl;
}

read_all-seen_example :
    read_all codec operator none (some "high") 1 db 3 none
    ≡ map (to_out (slug_of db)) (seen none (some "high") db.alerts)
unfolding wanted_teams team_ids seen severity_is order_by newer
read_all-seen_example =
    read_all-seen codec operator none (some "high") db none 1 3 refl
      ((refl, (refl, tt)), ((refl, tt), (tt, tt))) tt (omega arith) (omega arith)

abbrev firing : AlertmanagerAlert
firing = record {
  status = "firing";
  labels = ("alertname", "Disk") ∷ ("team", "payments") ∷ [];
  annotations = [];
  starts_at = "now";
  fingerprint = "f";
}

abbrev stored_alert : Alert
stored_alert = record {
  id = 20;
  team_id = 2;
  source = "alertmanager/Disk";
  severity = "info";
  message = "Disk";
  created_at = 100;
  external_id = some "f:now";
}

abbrev after : Db
after = record db {
  alerts = db.alerts ++ stored_alert ∷ [];
  audit_events =
      record {
        id = 21;
        created_at = 100;
        action = "alert.created";
        actor_user_id = none;
        via = "alertmanager";
        team_id = some 2;
        target_id = some 20;
        request_id = none;
        trace_id = none;
        detail = ("source", text "alertmanager/Disk") ∷ ("message_sha256", text "Disk") ∷ [];
      }
      ∷ [];
  next_id = 22;
}

ingest_alerts_run : ingest_alerts same_text (context 100) (firing ∷ []) db ≡ some ((1, 1), after)
unfolding ingest_alerts ingest_rows stored rows_of route row_of team_id_of get_or or_else
    severity_of routed insert_rows insert_row new_alert has_external_id record_created record_event
    lookup
ingest_alerts_run = refl

ingest_alerts_twice_example :
    ingest_alerts same_text (context 200) (firing ∷ []) after ≡ some ((1, 0), after)
ingest_alerts_twice_example =
    ingest_alerts_twice same_text (context 100) (context 200) (firing ∷ []) db ingest_alerts_run
