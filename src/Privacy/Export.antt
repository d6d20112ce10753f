-- ===== src/Privacy/Export.antt =====
-- `export` of apps/api/app/privacy.py: what the database holds about a person. Times are written by
-- whoever reads the document; what it says is held elsewhere is the same for everyone.
use triage_assistant.Prelude.{
  ℕ, ◌==◌, leb, ltb, String, Bool, false, Option, none, some, List, [], ◌∷◌, map, keep,
}
use triage_assistant.Models.{Db, User, UserSession, AuditEvent, AssistantSwitch, Detail}
use triage_assistant.Access.Group.{Role}
use triage_assistant.Access.Roles.{TeamAccess}
use triage_assistant.Audit.{Context, cli, record_event, joined_row}
use triage_assistant.Queries.Order.{order_by}
use triage_assistant.Sessions.Active.{accesses}
use triage_assistant.Privacy.{has_email, acted}

-- A session without its token's hash and its ID token, which are credentials.
pub record SessionTimes : Type 0 where
  pub created_at : ℕ
  pub last_seen_at : ℕ
  pub expires_at : ℕ

pub record ExportedEvent : Type 0 where
  pub id : ℕ
  pub created_at : ℕ
  pub action : String
  pub via : String
  pub team : Option String
  pub target_id : Option ℕ
  pub detail : List (String × Detail)

pub record Account : Type 0 where
  pub user_id : ℕ
  pub issuer : String
  pub subject : String
  pub email : Option String
  pub name : Option String
  pub org_admin : Bool
  pub created_at : ℕ
  pub last_login_at : ℕ
  pub teams : List (String × Role)
  pub sessions : List SessionTimes
  pub audit_events : List ExportedEvent
  pub switched_the_assistant : Bool

pub record Export : Type 0 where
  pub email : String
  pub exported_at : ℕ
  pub accounts : List Account

unfoldable pub session_times : UserSession → SessionTimes
session_times s = record {
  created_at = s.created_at;
  last_seen_at = s.last_seen_at;
  expires_at = s.expires_at;
}

unfoldable pub exported_event : Db → AuditEvent → ExportedEvent
unfolding joined_row
exported_event db e = record {
  id = e.id;
  created_at = e.created_at;
  action = e.action;
  via = e.via;
  team = (joined_row db e).team;
  target_id = e.target_id;
  detail = e.detail;
}

unfoldable pub switched_by : ℕ → AssistantSwitch → Bool
switched_by id s = elim s.changed_by [ none ↦ false | some i ↦ i == id ]

-- `before` is the database's order of slugs. The order of sessions of one time is the table's.
module _ (before : String → String → Bool) where
  unfoldable pub account : Db → User → Account
  unfolding session_times exported_event switched_by acted accesses
  account db user = record {
    user_id = user.id;
    issuer = user.issuer;
    subject = user.subject;
    email = user.email;
    name = user.name;
    org_admin = user.is_org_admin;
    created_at = user.created_at;
    last_login_at = user.last_login_at;
    teams =
        map (λ (t : TeamAccess). (t.slug, t.role))
          (order_by (λ a b. before a.slug b.slug) (accesses user.id db.teams db.memberships));
    sessions = map session_times (
        order_by (λ a b. leb a.created_at b.created_at)
          (keep (λ s. s.user_id == user.id) db.sessions));
    audit_events =
        map (exported_event db)
          (order_by (λ a b. ltb a.id b.id) (keep (acted user.id) db.audit_events));
    switched_the_assistant = switched_by user.id db.assistant_switch;
  }

  -- An account is read, and then its event is written, in the same transaction.
  unfoldable pub export_accounts : Context → List User → Db → List Account × Db
  unfolding account
  export_accounts context [] db = ([], db)
  export_accounts context (user ∷ users) db =
      let (rest, db') =
        export_accounts context users
          (record_event context cli "user.exported" none (some user.id) [] db) in
      (account db user ∷ rest, db')

  unfoldable pub export : Context → String → Db → Export × Db
  unfolding export_accounts has_email
  export context email db =
      let (accounts, db') =
        export_accounts context (order_by (λ a b. ltb a.id b.id) (keep (has_email email) db.users))
          db in
      (record { email = email; exported_at = context.now; accounts = accounts }, db')
