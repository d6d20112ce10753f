-- ===== src/Access/Roles.antt =====
-- `Principal`, `require_role` and `tenant_settings` of apps/api/app/access.py.
pub mod Visibility
use triage_assistant.Prelude.{
  ℕ, ◌≤◌, String, ◌≡◌, refl, Bool, true, false, Option, none, some, List, [], ◌∷◌, map, leb, ltb,
  ◌==◌, if◌then◌else◌, find, keep, arith, ◌+++◌, join,
}
use triage_assistant.Prelude.Numbers.{decimal}
use triage_assistant.Http.{Result, ok, err, Failure, http_error}
use triage_assistant.Access.Group.{Role, viewer, responder, admin, rank, label}

pub record TeamAccess : Type 0 where
  pub id : ℕ
  pub slug : String
  pub name : String
  pub role : Role

pub record Principal : Type 0 where
  pub user_id : ℕ
  pub email : Option String
  pub name : Option String
  pub org_admin : Bool
  pub teams : List TeamAccess

unfoldable pub role_of : Option TeamAccess → Option Role
role_of none = none
role_of (some t) = some t.role

unfoldable pub role_in : Principal → ℕ → Option Role
unfolding role_of
role_in p team_id =
    if p.org_admin then some admin else role_of (find (λ t. t.id == team_id) p.teams)

-- None stands for every team.
unfoldable pub team_ids : Principal → Role → Option (List ℕ)
unfolding rank
team_ids p at_least =
    if p.org_admin
    then none
    else some (map (λ t. t.id) (keep (λ t. leb (rank at_least) (rank t.role)) p.teams))

require : Option Role → Role → String → Result (Unit {0})
unfolding rank label
require none needed what = err (http_error 404 (what +++ " not found"))
require (some role) needed what =
    if ltb (rank role) (rank needed)
    then err (http_error 403 ("needs the " +++ label needed +++ " role in this team"))
    else ok tt

unfoldable pub require_role : Principal → ℕ → Role → String → Result (Unit {0})
unfolding require
require_role p team_id needed what = require (role_in p team_id) needed what

-- An array in Postgres's literal form.
unfoldable pub array : Option (List ℕ) → String
array none = "{" +++ "}"
array (some ids) = "{" +++ join "," (map decimal ids) +++ "}"

unfoldable pub tenant_settings : Principal → List (String × String)
unfolding array
tenant_settings p =
    ("app.user_id", decimal p.user_id)
    ∷ ("app.org_admin", if p.org_admin then "on" else "off")
    ∷ ("app.read_team_ids", array (team_ids p viewer))
    ∷ ("app.write_team_ids", array (team_ids p responder))
    ∷ ("app.admin_team_ids", array (team_ids p admin))
    ∷ []
