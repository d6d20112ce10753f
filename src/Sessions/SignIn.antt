-- ===== src/Sessions/SignIn.antt =====
-- `sign_in` of apps/api/app/sessions.py: the user, the memberships that the claims grant, a session.
pub mod Account
pub mod Teams
pub mod Replaced
use triage_assistant.Prelude.{
  false, ℕ, suc, ◌+◌, ◌*◌, String, Bool, not, ◌&&◌, ◌||◌, Option, none, some, List, [], ◌∷◌, ◌++◌,
  map, ltb, ◌==◌, str_eq, if◌then◌else◌, find, keep, any, is_some, lookup,
}
use triage_assistant.Settings.{Settings}
use triage_assistant.Models.{Db, User, UserSession, Membership, Team, second}
use triage_assistant.Access.Group.{Role}
use triage_assistant.Access.Claims.{Granted, access_from_claims}

-- The claims of an ID token, `Identity` of apps/api/app/oidc.py.
pub record Identity : Type 0 where
  pub subject : String
  pub email : Option String
  pub name : Option String
  pub groups : List String
  pub id_token : Option String

abbrev pub is_account : String → String → User → Bool
is_account issuer subject u = str_eq u.issuer issuer && str_eq u.subject subject

unfoldable pub updated : ℕ → Identity → Bool → User → User
updated now identity org_admin u = record u {
  email = identity.email;
  name = identity.name;
  is_org_admin = org_admin;
  last_login_at = now;
}

unfoldable pub inserted : ℕ → String → Identity → Bool → ℕ → User
inserted now issuer identity org_admin id = record {
  id = id;
  issuer = issuer;
  subject = identity.subject;
  email = identity.email;
  name = identity.name;
  is_org_admin = org_admin;
  created_at = now;
  last_login_at = now;
}

unfoldable pub upserted : ℕ → String → Identity → Bool → Db → Option User → ℕ × Db
unfolding updated inserted
upserted now issuer identity org_admin db (some found) = (
  found.id,
  record db {
    users =
        map
          (λ u.
            if is_account issuer identity.subject u then updated now identity org_admin u else u)
          db.users;
  },
)
upserted now issuer identity org_admin db none = (
  db.next_id,
  record db {
    users = db.users ++ inserted now issuer identity org_admin db.next_id ∷ [];
    next_id = suc db.next_id;
  },
)

unfoldable pub upsert_user : ℕ → String → Identity → Bool → Db → ℕ × Db
unfolding upserted
upsert_user now issuer identity org_admin db =
    upserted now issuer identity org_admin db (find (is_account issuer identity.subject) db.users)

-- `INSERT … ON CONFLICT (slug) DO NOTHING`: a team for each slug that has none.
unfoldable pub insert_teams : List (String × Role) → Db → Db
insert_teams [] db = db
insert_teams ((slug, role) ∷ roles) db =
    if any (λ t. str_eq t.slug slug) db.teams
    then insert_teams roles db
    else insert_teams roles (record db {
      teams = db.teams ++ record { id = db.next_id; slug = slug; name = slug } ∷ [];
      next_id = suc db.next_id;
    })

-- The id of the team of a slug; by the step before there is one.
unfoldable pub granted_ids : List Team → List (String × Role) → List (ℕ × Role)
granted_ids teams [] = []
granted_ids teams ((slug, role) ∷ roles) =
    let rest = granted_ids teams roles in
    elim (find (λ t. str_eq t.slug slug) teams) [ none ↦ rest | some t ↦ (t.id, role) ∷ rest ]

abbrev pub is_membership : ℕ → ℕ → Membership → Bool
is_membership user_id team_id m = m.user_id == user_id && m.team_id == team_id

unfoldable pub set_role : ℕ → ℕ → Role → List Membership → List Membership
set_role user_id team_id role [] = record { user_id = user_id; team_id = team_id; role = role } ∷ []
set_role user_id team_id role (m ∷ ms) =
    let rest = set_role user_id team_id role ms in
    if is_membership user_id team_id m then record m { role = role } ∷ ms else m ∷ rest

unfoldable pub set_roles : ℕ → List (ℕ × Role) → List Membership → List Membership
unfolding set_role
set_roles user_id [] ms = ms
set_roles user_id ((team_id, role) ∷ granted) ms =
    set_roles user_id granted (set_role user_id team_id role ms)

unfoldable pub in_ids : ℕ → List (ℕ × Role) → Bool
in_ids team_id [] = false
in_ids team_id ((id, role) ∷ granted) = id == team_id || in_ids team_id granted

unfoldable pub retained : ℕ → List (ℕ × Role) → Membership → Bool
unfolding in_ids
retained user_id granted m = not (m.user_id == user_id) || in_ids m.team_id granted

-- The user's memberships in other teams are deleted, then the granted ones written.
unfoldable pub replace_memberships : ℕ → List (ℕ × Role) → List Membership → List Membership
unfolding set_roles retained
replace_memberships user_id granted ms =
    set_roles user_id granted (keep (retained user_id granted) ms)

-- `digest` is the hash of a token, `token` the random one that is made for the session. The id of
-- the user signed in, and the database.
module _ (digest : String → String) (settings : Settings) where
  unfoldable pub open_session : ℕ → String → Option String → ℕ → Db → Db
  open_session now token id_token user_id db = record db {
    sessions =
        keep (λ s. not (ltb s.expires_at now)) db.sessions
        ++ record {
          id_hash = digest token;
          user_id = user_id;
          created_at = now;
          last_seen_at = now;
          expires_at = now + settings.session_max_age_s * second;
          id_token = id_token;
        }
          ∷ [];
  }

  unfoldable pub sign_in : ℕ → String → String → Identity → Db → ℕ × Db
  unfolding open_session replace_memberships
  sign_in now token issuer identity db =
      let access = access_from_claims identity.groups in
      let (user_id, db1) = upsert_user now issuer identity access.org_admin db in
      let db2 = insert_teams access.roles db1 in
      let granted = granted_ids db2.teams access.roles in
      let db3 = record db2 { memberships = replace_memberships user_id granted db2.memberships } in
      (user_id, open_session now token identity.id_token user_id db3)
