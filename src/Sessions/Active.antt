-- ===== src/Sessions/Active.antt =====
-- Sessions that are open: `authenticate`, `sign_out` and `sign_out_everywhere` of
-- apps/api/app/sessions.py.
pub mod Alive
pub mod Ended
use triage_assistant.Prelude.{
  ℕ, ◌+◌, ◌*◌, ◌/◌, min, String, Bool, not, ◌&&◌, Option, none, some, List, [], ◌∷◌, map, ltb, ◌==◌,
  str_eq, if◌then◌else◌, find, keep, length,
}
use triage_assistant.Settings.{Settings}
use triage_assistant.Models.{Db, User, UserSession, Membership, Team, second}
use triage_assistant.Access.Roles.{Principal, TeamAccess}
use triage_assistant.Queries.Order.{order_by}

unfoldable pub touch_interval_s : Settings → ℕ
touch_interval_s settings = min 300 (settings.session_idle_timeout_s / 10)

unfoldable pub live : Settings → ℕ → UserSession → Bool
live settings now s =
    ltb now s.expires_at && ltb now (s.last_seen_at + settings.session_idle_timeout_s * second)

unfoldable pub stale : Settings → ℕ → UserSession → Bool
unfolding touch_interval_s
stale settings now s = ltb (s.last_seen_at + touch_interval_s settings * second) now

abbrev pub seen_at : ℕ → UserSession → UserSession
seen_at now s = record s { last_seen_at = now }

-- The memberships of a user, each joined with its team.
unfoldable pub accesses : ℕ → List Team → List Membership → List TeamAccess
accesses user_id teams [] = []
accesses user_id teams (m ∷ ms) =
    let rest = accesses user_id teams ms in
    if m.user_id == user_id
    then elim (find (λ t. t.id == m.team_id) teams) [
      | none ↦ rest
      | some t ↦ record { id = t.id; slug = t.slug; name = t.name; role = m.role } ∷ rest
    ]
    else rest

-- `before` is the order that the database's collation gives the slugs.
unfoldable pub principal_of : (String → String → Bool) → Db → User → Principal
unfolding accesses
principal_of before db user = record {
  user_id = user.id;
  email = user.email;
  name = user.name;
  org_admin = user.is_org_admin;
  teams = order_by (λ a b. before a.slug b.slug) (accesses user.id db.teams db.memberships);
}

unfoldable pub paired : UserSession → Option User → Option (UserSession × User)
paired s none = none
paired s (some u) = some (s, u)

unfoldable pub with_user : Db → Option UserSession → Option (UserSession × User)
unfolding paired
with_user db none = none
with_user db (some s) = paired s (find (λ u. u.id == s.user_id) db.users)

-- `digest` is the hash of a token.
module _ (digest : String → String) where
  abbrev pub has_token : String → UserSession → Bool
  has_token token s = str_eq s.id_hash (digest token)

  unfoldable pub touch : ℕ → String → List UserSession → List UserSession
  touch now token [] = []
  touch now token (s ∷ ss) = (if has_token token s then seen_at now s else s) ∷ touch now token ss

  id_token_of : Option UserSession → Option String
  id_token_of none = none
  id_token_of (some s) = s.id_token

  unfoldable pub sign_out : String → Db → Option String × Db
  unfolding id_token_of
  sign_out token db = (
    id_token_of (find (has_token token) db.sessions),
    record db { sessions = keep (λ s. not (has_token token s)) db.sessions },
  )

unfoldable pub sign_out_everywhere : ℕ → Db → ℕ × Db
sign_out_everywhere user_id db = (
  length (keep (λ s. s.user_id == user_id) db.sessions),
  record db { sessions = keep (λ s. not (s.user_id == user_id)) db.sessions },
)

module _ (before : String → String → Bool) (digest : String → String) (settings : Settings) where
  unfoldable pub opens : ℕ → String → UserSession → Bool
  unfolding live
  opens now token s = has_token digest token s && live settings now s

  -- The principal behind a token, and the database that is committed.
  unfoldable pub authenticated :
      ℕ → String → Db → Option (UserSession × User) → Option Principal × Db
  unfolding touch
  authenticated now token db none = (none, db)
  authenticated now token db (some (s, user)) = (
    some (principal_of before db user),
    if stale settings now s
        then record db { sessions = touch digest now token db.sessions }
        else db,
  )

  unfoldable pub authenticate : ℕ → String → Db → Option Principal × Db
  unfolding opens
  authenticate now token db =
      authenticated now token db (with_user db (find (opens now token) db.sessions))
