-- ===== src/Audit.antt =====
-- apps/api/app/audit.py: events in the audit trail, written with the change they record.
use triage_assistant.Prelude.{
  find, ℕ, suc, String, Bool, true, false, ◌&&◌, Option, none, some, List, [], ◌∷◌, ◌++◌, ltb, leb,
  ◌==◌, str_eq, if◌then◌else◌, keep, take,
}
use triage_assistant.Models.{Team, User, Db, AuditEvent, Detail}
use triage_assistant.Access.Roles.{Principal}
use triage_assistant.Queries.Order.{order_by}

pub record Actor : Type 0 where
  pub user_id : Option ℕ
  pub via : String

-- `Actor.of(principal)`
unfoldable pub actor_of : Principal → Actor
actor_of p = record { user_id = some p.user_id; via = "api" }

abbrev pub alertmanager : Actor
alertmanager = record { user_id = none; via = "alertmanager" }

abbrev pub cli : Actor
cli = record { user_id = none; via = "cli" }

-- What a statement sees of the request that it is part of: the time of the transaction, the
-- request's id ("-" outside a request) and the id of its trace.
pub record Context : Type 0 where
  pub now : ℕ
  pub request_id : String
  pub trace_id : Option String

unfoldable pub record_event :
    Context → Actor → String → Option ℕ → Option ℕ → List (String × Detail) → Db → Db
record_event context actor action team_id target_id detail db = record db {
  audit_events =
      db.audit_events
      ++ record {
        id = db.next_id;
        created_at = context.now;
        action = action;
        actor_user_id = actor.user_id;
        via = actor.via;
        team_id = team_id;
        target_id = target_id;
        request_id = if str_eq context.request_id "-" then none else some context.request_id;
        trace_id = context.trace_id;
        detail = detail;
      }
        ∷ [];
  next_id = suc db.next_id;
}

-- The conditions that `events` adds, each only if its argument is given.
pub record Filter : Type 0 where
  pub action : Option String
  pub actor_user_id : Option ℕ
  pub team_id : Option ℕ
  pub target_id : Option ℕ
  pub since : Option ℕ
  pub before_id : Option ℕ

unfoldable pub text_is : Option String → String → Bool
text_is none s = true
text_is (some t) s = str_eq s t

-- A comparison with NULL is not true.
unfoldable pub number_is : Option ℕ → Option ℕ → Bool
number_is none v = true
number_is (some n) none = false
number_is (some n) (some m) = m == n

unfoldable pub at_or_after : Option ℕ → ℕ → Bool
at_or_after none t = true
at_or_after (some since) t = leb since t

unfoldable pub below : Option ℕ → ℕ → Bool
below none i = true
below (some before_id) i = ltb i before_id

unfoldable pub matches : Filter → AuditEvent → Bool
unfolding text_is number_is at_or_after below
matches f e =
    text_is f.action e.action
    && number_is f.actor_user_id e.actor_user_id
    && number_is f.team_id e.team_id
    && number_is f.target_id e.target_id
    && at_or_after f.since e.created_at
    && below f.before_id e.id

-- `ORDER BY id DESC`
unfoldable pub later_event : AuditEvent → AuditEvent → Bool
later_event a b = ltb b.id a.id

unfoldable pub events : Filter → ℕ → Db → List AuditEvent
events f limit db = take limit (order_by later_event (keep (matches f) db.audit_events))

-- A row of the query: the event with its actor's email and its team's slug, where they are there.
pub record EventRow : Type 0 where
  pub event : AuditEvent
  pub email : Option String
  pub team : Option String

unfoldable pub email_of : Option User → Option String
email_of none = none
email_of (some u) = u.email

unfoldable pub slug_if_any : Option Team → Option String
slug_if_any none = none
slug_if_any (some t) = some t.slug

unfoldable pub joined_row : Db → AuditEvent → EventRow
unfolding number_is email_of slug_if_any
joined_row db e = record {
  event = e;
  email = email_of (find (λ u. number_is (some u.id) e.actor_user_id) db.users);
  team = slug_if_any (find (λ t. number_is (some t.id) e.team_id) db.teams);
}

pub record AuditEventOut : Type 0 where
  pub id : ℕ
  pub created_at : ℕ
  pub action : String
  pub actor_user_id : Option ℕ
  pub actor_email : Option String
  pub via : String
  pub team : Option String
  pub target_id : Option ℕ
  pub request_id : Option String
  pub trace_id : Option String
  pub detail : List (String × Detail)

unfoldable pub event_to_out : EventRow → AuditEventOut
event_to_out row = record {
  id = row.event.id;
  created_at = row.event.created_at;
  action = row.event.action;
  actor_user_id = row.event.actor_user_id;
  actor_email = row.email;
  via = row.event.via;
  team = row.team;
  target_id = row.event.target_id;
  request_id = row.event.request_id;
  trace_id = row.event.trace_id;
  detail = row.event.detail;
}
