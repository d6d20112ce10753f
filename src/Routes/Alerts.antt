-- ===== src/Routes/Alerts.antt =====
-- apps/api/app/routes/alerts.py: the alert handlers. A handler answers a failure, and then nothing
-- it did is committed, or its response and the database that it committed.
pub mod Cursor
pub mod Paging
pub mod Webhook
mod Tests
use triage_assistant.Prelude.{
  ap, ℕ, zero, suc, ◌+◌, String, ◌≡◌, Bool, true, false, not, ◌&&◌, ◌||◌, Option, none, some, List,
  [], ◌∷◌, ◌++◌, map, ltb, ◌==◌, str_eq, if◌then◌else◌, find, keep, take, length, ◌+++◌,
}
use triage_assistant.Http.{ok-injective, err≢ok, Result, ok, err, http_error, ◌>>=◌, ◌>>◌}
use triage_assistant.Models.{Db, Team, Alert, AlertOut, text}
use triage_assistant.Access.Group.{viewer, responder, admin}
use triage_assistant.Access.Roles.{Principal, team_ids, require_role}
use triage_assistant.Audit.{Context, actor_of, record_event}
use triage_assistant.Queries.{to_out, newest_alerts}
use Cursor.{Codec, encode_cursor, decode_cursor}

abbrev pub or_404 {ℓ} : {A : Type ℓ} → Option A → String → Result A
or_404 none detail = err (http_error 404 detail)
or_404 (some a) detail = ok a

pub or_404_ok {ℓ} :
    {A : Type ℓ} (o : Option A) (a : A) (what : String) → or_404 o what ≡ ok a → o ≡ some a
or_404_ok none a what e = absurd (err≢ok _ _ e)
or_404_ok (some a') a what e = ap some (ok-injective _ _ e)

unfoldable pub team_by_slug : Db → String → Option Team
team_by_slug db slug = find (λ t. str_eq t.slug slug) db.teams

slug_of_team : Option Team → String
slug_of_team none = ""
slug_of_team (some t) = t.slug

-- The slug that a join with teams finds.
unfoldable pub slug_of : Db → ℕ → String
unfolding slug_of_team
slug_of db id = slug_of_team (find (λ t. t.id == id) db.teams)

unfoldable pub alert_by_id : Db → ℕ → Option Alert
alert_by_id db id = find (λ a. a.id == id) db.alerts

pub record AlertIn : Type 0 where
  pub team : String
  pub source : String
  pub severity : String
  pub message : String

pub record AlertPage : Type 0 where
  pub items : List AlertOut
  pub next_cursor : Option String

-- `sha256` is the hash of a text, as hexadecimal digits.
module _ (sha256 : String → String) (context : Context) where
  unfoldable pub create_alert : AlertIn → Principal → Db → Result (AlertOut × Db)
  create_alert payload principal db = do
    team ← or_404 (team_by_slug db payload.team) "team not found"
    require_role principal team.id responder "team"
    let alert = new_alert team
    ok (
      to_out (slug_of db) alert,
      record_event context (actor_of principal) "alert.created" (some team.id) (some alert.id)
          (("source", text alert.source) ∷ ("message_sha256", text (sha256 alert.message)) ∷ [])
          (record db { alerts = db.alerts ++ alert ∷ []; next_id = suc db.next_id }),
    )
    where
      new_alert : Team → Alert
      new_alert team = record {
        id = db.next_id;
        team_id = team.id;
        source = payload.source;
        severity = payload.severity;
        message = payload.message;
        created_at = context.now;
        external_id = none;
      }

  unfoldable pub get_alert : ℕ → Principal → Db → Result AlertOut
  get_alert alert_id principal db = do
    alert ← or_404 (alert_by_id db alert_id) "alert not found"
    require_role principal alert.team_id viewer "alert"
    ok (to_out (slug_of db) alert)

  unfoldable pub delete_alert : ℕ → Principal → Db → Result Db
  delete_alert alert_id principal db = do
    alert ← or_404 (alert_by_id db alert_id) "alert not found"
    require_role principal alert.team_id admin "alert"
    ok (
        record_event context (actor_of principal) "alert.deleted" (some alert.team_id)
          (some alert.id)
          (("source", text alert.source) ∷ ("message_sha256", text (sha256 alert.message)) ∷ [])
          (record db { alerts = keep (λ a. not (a.id == alert_id)) db.alerts }))

-- The teams to read: the caller's, or the one asked for.
unfoldable pub wanted_teams : Principal → Option String → Db → Result (Option (List ℕ))
wanted_teams principal none db = ok (team_ids principal viewer)
wanted_teams principal (some slug) db = do
  found ← or_404 (team_by_slug db slug) "team not found"
  require_role principal found.id viewer "team"
  ok (some (found.id ∷ []))

abbrev pub last_of : AlertOut → List AlertOut → AlertOut
last_of a [] = a
last_of a (b ∷ rest) = last_of b rest

next_cursor : (codec : Codec) → List AlertOut → Bool → Option String
next_cursor codec [] more = none
next_cursor codec (a ∷ rest) more =
    if more then some (encode_cursor codec (last_of a rest)) else none

cursor_of : (codec : Codec) → Option String → Result (Option (ℕ × ℕ))
cursor_of codec none = ok none
cursor_of codec (some cursor) = do before ← decode_cursor codec cursor; ok (some before)

unfoldable pub page_of : Codec → ℕ → List AlertOut → AlertPage
unfolding next_cursor
page_of codec limit rows = record {
  items = take limit rows;
  next_cursor = next_cursor codec (take limit rows) (ltb limit (length rows));
}

unfoldable pub list_alerts :
    Codec → Principal → Option String → Option String → ℕ → Option String → Db → Result AlertPage
unfolding cursor_of
list_alerts codec principal team severity limit cursor db = do
  ids ← wanted_teams principal team db
  before ← cursor_of codec cursor
  ok (page_of codec limit (newest_alerts (slug_of db) db.alerts ids (limit + 1) severity before))
