-- ===== src/Routes/Trail.antt =====
-- apps/api/app/routes/audit.py: the audit trail, for org admins.
use triage_assistant.Prelude.{
  ℕ, ◌+◌, String, Bool, Option, none, some, List, [], ◌∷◌, map, take, length, ltb, if◌then◌else◌,
}
use triage_assistant.Http.{Result, ok, err, http_error, ◌>>=◌, ◌>>◌}
use triage_assistant.Models.{Db}
use triage_assistant.Access.Roles.{Principal}
use triage_assistant.Audit.{Filter, EventRow, AuditEventOut, events, joined_row, event_to_out}
use triage_assistant.Routes.Alerts.{or_404, team_by_slug}

-- What the query of a request may ask for.
pub record Query : Type 0 where
  pub action : Option String
  pub actor : Option ℕ
  pub team : Option String
  pub target : Option ℕ
  pub since : Option ℕ
  pub before : Option ℕ
  pub limit : ℕ

pub record AuditPage : Type 0 where
  pub items : List AuditEventOut
  pub next_before : Option ℕ

unfoldable pub org_admins_only : Principal → Result (Unit {0})
org_admins_only principal =
    if principal.org_admin then ok tt else err (http_error 403 "needs org admin")

unfoldable pub team_id_asked : Option String → Db → Result (Option ℕ)
team_id_asked none db = ok none
team_id_asked (some slug) db = do
  found ← or_404 (team_by_slug db slug) "team not found"
  ok (some found.id)

unfoldable pub filter_of : Query → Option ℕ → Filter
filter_of q team_id = record {
  action = q.action;
  actor_user_id = q.actor;
  team_id = team_id;
  target_id = q.target;
  since = q.since;
  before_id = q.before;
}

unfoldable pub last_id : EventRow → List EventRow → ℕ
last_id row [] = row.event.id
last_id row (next ∷ rest) = last_id next rest

-- `page[-1][0].id if more else None`; a limit is at least one, so that a page with more is not empty.
unfoldable pub next_before : List EventRow → Bool → Option ℕ
unfolding last_id
next_before [] more = none
next_before (row ∷ rest) more = if more then some (last_id row rest) else none

unfoldable pub audit_page : ℕ → List EventRow → AuditPage
unfolding event_to_out next_before
audit_page limit rows = record {
  items = map event_to_out (take limit rows);
  next_before = next_before (take limit rows) (ltb limit (length rows));
}

unfoldable pub list_events : Query → Principal → Db → Result AuditPage
unfolding org_admins_only team_id_asked filter_of joined_row audit_page
list_events q principal db = do
  org_admins_only principal
  team_id ← team_id_asked q.team db
  ok (audit_page q.limit (map (joined_row db) (events (filter_of q team_id) (q.limit + 1) db)))
