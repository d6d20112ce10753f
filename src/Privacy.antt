-- ===== src/Privacy.antt =====
-- apps/api/app/privacy.py: retention, and a person's export and erasure. A dry run rolls its deletes back.
mod Tests
pub mod Applied
pub mod Erased
pub mod Export
pub mod Exported
use triage_assistant.Prelude.{
  ℕ, ◌+◌, ◌*◌, String, Bool, true, false, not, ◌&&◌, Option, none, some, List, [], ◌∷◌, ltb, ◌==◌,
  str_eq, if◌then◌else◌, keep, any, length,
}
use triage_assistant.Settings.{Settings}
use triage_assistant.Models.{
  Db, User, UserSession, LoginRequest, Alert, AuditEvent, Detail, nothing, number, day,
}
use triage_assistant.Audit.{Context, cli, record_event}

pub record Retained : Type 0 where
  pub expired_sessions : ℕ
  pub expired_sign_ins : ℕ
  pub inactive_users : ℕ
  pub old_alerts : ℕ

abbrev pub session_expired : ℕ → UserSession → Bool
session_expired now s = ltb s.expires_at now

abbrev pub sign_in_expired : ℕ → LoginRequest → Bool
sign_in_expired now r = ltb r.expires_at now

-- `last_login_at < now - timedelta(days=days)`; None keeps for ever.
unfoldable pub is_inactive : Option ℕ → ℕ → User → Bool
is_inactive none now u = false
is_inactive (some days) now u = ltb (u.last_login_at + days * day) now

unfoldable pub is_old : Option ℕ → ℕ → Alert → Bool
is_old none now a = false
is_old (some days) now a = ltb (a.created_at + days * day) now

unfoldable pub gone : (User → Bool) → List User → ℕ → Bool
gone p users id = any (λ u. p u && u.id == id) users

-- `DELETE FROM users`, which deletes a user's memberships and sessions with it.
unfoldable pub delete_users : (User → Bool) → Db → Db
unfolding gone
delete_users p db = record db {
  users = keep (λ u. not (p u)) db.users;
  memberships = keep (λ m. not (gone p db.users m.user_id)) db.memberships;
  sessions = keep (λ s. not (gone p db.users s.user_id)) db.sessions;
}

unfoldable pub days_detail : Option ℕ → Detail
days_detail none = nothing
days_detail (some days) = number days

unfoldable pub delete_expired : ℕ → Db → Db
delete_expired now db = record db {
  sessions = keep (λ s. not (session_expired now s)) db.sessions;
  login_requests = keep (λ r. not (sign_in_expired now r)) db.login_requests;
}

unfoldable pub delete_old_alerts : Option ℕ → ℕ → Db → Db
unfolding is_old
delete_old_alerts days now db = record db { alerts = keep (λ a. not (is_old days now a)) db.alerts }

unfoldable pub retention : Settings → Context → Bool → Db → Retained × Db
unfolding is_inactive is_old delete_expired delete_users delete_old_alerts days_detail
retention settings context apply db =
    let now = context.now in
    let retained : Retained = record {
      expired_sessions = length (keep (session_expired now) db.sessions);
      expired_sign_ins = length (keep (sign_in_expired now) db.login_requests);
      inactive_users = length (keep (is_inactive settings.user_retention_days now) db.users);
      old_alerts = length (keep (is_old settings.alert_retention_days now) db.alerts);
    } in
    let deleted =
      delete_old_alerts settings.alert_retention_days now
        (delete_users (is_inactive settings.user_retention_days now) (delete_expired now db)) in
    (
      retained,
      if apply
          then record_event context cli "retention.applied" none none
              (("expired_sessions", number retained.expired_sessions)
                ∷ ("expired_sign_ins", number retained.expired_sign_ins)
                ∷ ("inactive_users", number retained.inactive_users)
                ∷ ("old_alerts", number retained.old_alerts)
                ∷ ("user_retention_days", days_detail settings.user_retention_days)
                ∷ ("alert_retention_days", days_detail settings.alert_retention_days)
                ∷ [])
              deleted
          else db,
    )

pub record Forgotten : Type 0 where
  pub user_id : ℕ
  pub issuer : String
  pub audit_events_kept : ℕ

unfoldable pub has_email : String → User → Bool
has_email email u = elim u.email [ none ↦ false | some e ↦ str_eq e email ]

unfoldable pub acted : ℕ → AuditEvent → Bool
acted id e = elim e.actor_user_id [ none ↦ false | some i ↦ i == id ]

-- One turn of the loop.
unfoldable pub forget_user : Context → User → Db → Forgotten × Db
unfolding acted delete_users
forget_user context user db =
    let kept = length (keep (acted user.id) db.audit_events) in
    (
      record { user_id = user.id; issuer = user.issuer; audit_events_kept = kept },
      record_event context cli "user.forgotten" none (some user.id)
          (("audit_events_kept", number kept) ∷ []) (delete_users (λ u. u.id == user.id) db),
    )

unfoldable pub forget_users : Context → List User → Db → List Forgotten × Db
unfolding forget_user
forget_users context [] db = ([], db)
forget_users context (user ∷ users) db =
    let (forgotten, db') = forget_user context user db in
    let (rest, db'') = forget_users context users db' in (forgotten ∷ rest, db'')

unfoldable pub forget : Context → String → Bool → Db → List Forgotten × Db
unfolding forget_users has_email
forget context email apply db =
    let (forgotten, db') = forget_users context (keep (has_email email) db.users) db in
    (forgotten, if apply then db' else db)
