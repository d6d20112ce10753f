-- ===== src/Routes/Auth/Me.antt =====
-- `me` and `team_members` of apps/api/app/routes/auth.py.
use triage_assistant.Prelude.{
  ℕ, ◌==◌, String, Bool, Option, none, some, List, [], ◌∷◌, map, find, if◌then◌else◌,
}
use triage_assistant.Http.{Result, ok, ◌>>=◌, ◌>>◌}
use triage_assistant.Models.{Db, User, Membership, Team}
use triage_assistant.Access.Group.{admin, label}
use triage_assistant.Access.Roles.{Principal, TeamAccess, require_role}
use triage_assistant.Queries.Order.{order_by}
use triage_assistant.Routes.Alerts.{or_404, team_by_slug}

pub record TeamOut : Type 0 where
  pub slug : String
  pub name : String
  pub role : String

pub record MeOut : Type 0 where
  pub id : ℕ
  pub email : Option String
  pub name : Option String
  pub org_admin : Bool
  pub teams : List TeamOut

pub record MemberOut : Type 0 where
  pub email : Option String
  pub name : Option String
  pub role : String

-- `before` is the database's order of texts, NULL included.
module _ (before : Option String → Option String → Bool) where
  unfoldable pub every_team : Db → List TeamAccess
  every_team db =
      map (λ (t : Team). record { id = t.id; slug = t.slug; name = t.name; role = admin })
        (order_by (λ a b. before (some a.slug) (some b.slug)) db.teams)

  unfoldable pub me : Principal → Db → MeOut
  unfolding every_team label
  me principal db = record {
    id = principal.user_id;
    email = principal.email;
    name = principal.name;
    org_admin = principal.org_admin;
    teams =
        map (λ (t : TeamAccess). record { slug = t.slug; name = t.name; role = label t.role })
          (if principal.org_admin then every_team db else principal.teams);
  }

  -- The members of a team, each joined with its user.
  unfoldable pub members_of : ℕ → List User → List Membership → List MemberOut
  unfolding label
  members_of team_id users [] = []
  members_of team_id users (m ∷ ms) =
      let rest = members_of team_id users ms in
      if m.team_id == team_id
      then elim (find (λ u. u.id == m.user_id) users) [
        | none ↦ rest
        | some u ↦ record { email = u.email; name = u.name; role = label m.role } ∷ rest
      ]
      else rest

  unfoldable pub team_members : String → Principal → Db → Result (List MemberOut)
  unfolding members_of
  team_members slug principal db = do
    team ← or_404 (team_by_slug db slug) "team not found"
    require_role principal team.id admin "team"
    ok (order_by (λ a b. before a.email b.email) (members_of team.id db.users db.memberships))
