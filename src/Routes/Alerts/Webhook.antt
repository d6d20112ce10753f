-- ===== src/Routes/Alerts/Webhook.antt =====
-- `ingest_alertmanager` of apps/api/app/routes/alerts.py: firing alerts become triage alerts.
pub mod Idempotent
use triage_assistant.Prelude.{
  ℕ, suc, ◌+◌, String, ◌≡◌, Bool, true, false, not, ◌&&◌, ◌||◌, Option, none, some, List, [], ◌∷◌,
  ◌++◌, map, ◌==◌, str_eq, if◌then◌else◌, find, keep, any, length, lookup, front, is_empty, ◌+++◌,
}
use triage_assistant.Http.{Result, ok, err, http_error}
use triage_assistant.Models.{Db, Team, Alert, text}
use triage_assistant.Audit.{Context, alertmanager, record_event}

-- An alert of the payload; its time as the text that `isoformat` gives.
pub record AlertmanagerAlert : Type 0 where
  pub status : String
  pub labels : List (String × String)
  pub annotations : List (String × String)
  pub starts_at : String
  pub fingerprint : String

-- `d.get(key, default)`
unfoldable pub get_or : List (String × String) → String → String → String
get_or d key default = elim (lookup key d) [ none ↦ default | some v ↦ v ]

-- `a or b`, of a text that may be missing: an empty text is false.
unfoldable pub or_else : Option String → String → String
or_else none b = b
or_else (some a) b = if is_empty a then b else a

unfoldable pub severity_of : Option String → String
severity_of none = "info"
severity_of (some label) =
    if str_eq label "info"
      || str_eq label "warning"
      || str_eq label "high"
      || str_eq label "critical"
    then label
    else "info"

-- The id of the team with a slug; of several rows the last, as in the dictionary of them.
unfoldable pub team_id_of : List Team → String → Option ℕ
team_id_of [] slug = none
team_id_of (t ∷ ts) slug = elim (team_id_of ts slug) [
  | some id ↦ some id
  | none ↦ if str_eq t.slug slug then some t.id else none
]

unfoldable pub routed : Option ℕ → Option ℕ → Option ℕ
routed (some id) fallback = some id
routed none fallback = fallback

-- The team to file an alert under. None, when no team "default" exists, is the KeyError of
-- `teams[DEFAULT_TEAM]`, which Python looks up whether or not it is needed.
unfoldable pub route : List Team → AlertmanagerAlert → Option ℕ
unfolding routed get_or
route teams alert = elim (team_id_of teams "default") [
  | none ↦ none
  | some id ↦ routed (team_id_of teams (get_or alert.labels "team" "default")) (some id)
]

-- The values of a row before it has an id and a time.
pub record Row : Type 0 where
  pub team_id : ℕ
  pub source : String
  pub severity : String
  pub message : String
  pub external_id : String

unfoldable pub row_of : ℕ → AlertmanagerAlert → Row
unfolding or_else severity_of get_or
row_of team_id alert = record {
  team_id = team_id;
  source = "alertmanager/" +++ get_or alert.labels "alertname" "unknown";
  severity = severity_of (lookup "severity" alert.labels);
  message = front 4000 (
      or_else (lookup "summary" alert.annotations) (
        or_else (lookup "description" alert.annotations)
          (get_or alert.labels "alertname" "alert")));
  external_id = alert.fingerprint +++ ":" +++ alert.starts_at;
}

unfoldable pub rows_of : List Team → List AlertmanagerAlert → Option (List Row)
rows_of teams [] = some []
rows_of teams (alert ∷ alerts) = elim (route teams alert) [
  | none ↦ none
  | some id ↦ elim (rows_of teams alerts) [
    | none ↦ none
    | some rows ↦ some (row_of id alert ∷ rows)
  ]
]

unfoldable pub has_external_id : String → Alert → Bool
has_external_id e a = elim a.external_id [ none ↦ false | some x ↦ str_eq x e ]

unfoldable pub new_alert : ℕ → ℕ → Row → Alert
new_alert now id row = record {
  id = id;
  team_id = row.team_id;
  source = row.source;
  severity = row.severity;
  message = row.message;
  created_at = now;
  external_id = some row.external_id;
}

unfoldable pub insert_row : Row → ℕ → Db → Db × List Alert
unfolding new_alert
insert_row row now db =
    let alert = new_alert now db.next_id row in
    if any (has_external_id row.external_id) db.alerts
    then (db, [])
    else (record db { alerts = db.alerts ++ alert ∷ []; next_id = suc db.next_id }, alert ∷ [])

-- `INSERT … ON CONFLICT (external_id) DO NOTHING RETURNING …`, row by row.
unfoldable pub insert_rows : List Row → ℕ → Db → Db × List Alert
unfolding insert_row
insert_rows [] now db = (db, [])
insert_rows (row ∷ rows) now db =
    let (db', new) = insert_row row now db in
    let (db'', more) = insert_rows rows now db' in (db'', new ++ more)

module _ (sha256 : String → String) (context : Context) where
  unfoldable pub record_created : List Alert → Db → Db
  record_created [] db = db
  record_created (alert ∷ alerts) db = record_created alerts (
      record_event context alertmanager "alert.created" (some alert.team_id) (some alert.id)
        (("source", text alert.source) ∷ ("message_sha256", text (sha256 alert.message)) ∷ []) db)

  unfoldable pub stored : ℕ → Db × List Alert → (ℕ × ℕ) × Db
  stored received (db, new) = ((received, length new), record_created new db)

  unfoldable pub ingest_rows : ℕ → Db → Option (List Row) → Option ((ℕ × ℕ) × Db)
  unfolding stored
  ingest_rows received db none = none
  ingest_rows received db (some rows) = some (stored received (insert_rows rows context.now db))

  -- The numbers received and created, and the database; None is the KeyError.
  unfoldable pub ingest_alerts : List AlertmanagerAlert → Db → Option ((ℕ × ℕ) × Db)
  unfolding ingest_rows
  ingest_alerts alerts db =
      ingest_rows (length alerts) db
        (rows_of db.teams (keep (λ a. str_eq a.status "firing") alerts))

  -- With no webhook token configured, or an empty one, the route is not there; else the request
  -- must carry it.
  unfoldable pub authorized : Option String → Option String → Result (Unit {0})
  authorized none authorization = err (http_error 404 "Not Found")
  authorized (some token) authorization =
      if is_empty token
      then err (http_error 404 "Not Found")
      else if str_eq (elim authorization [ none ↦ "" | some a ↦ a ]) ("Bearer " +++ token)
      then ok tt
      else err (http_error 401 "invalid webhook token")
