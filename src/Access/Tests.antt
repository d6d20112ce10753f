-- ===== src/Access/Tests.antt =====
-- Inputs for apps/api/app/access.py, and its theorems at them.
use triage_assistant.Prelude.{
  ◌+++◌, ◌⊎◌, ◌↔◌, String, ◌≡◌, refl, true, false, none, some, List, [], ◌∷◌, lookup, assign,
}
use triage_assistant.Access.Group.{
  viewer, responder, admin, rank, is_slug, match_group, starts_slug, slug_part, slug_char,
  role_tail, after_slug,
}
use triage_assistant.Access.Group.Pattern.{group, match_group_exact}
use triage_assistant.Access.Claims.{
  access_from_claims, add_group, removeprefix, max_role, highest, access_from_claims-highest,
}
use triage_assistant.Access.Roles.{Principal, team_ids, require_role}
use triage_assistant.Access.Roles.Visibility.{too_low, require_role-team_ids}

abbrev claims : List String
claims = "/team:payments:viewer" ∷ "org:admin" ∷ "team:payments:admin" ∷ "team:Bad:admin" ∷ []

access_from_claims_run : (access_from_claims claims).roles ≡ ("payments", admin) ∷ []
unfolding access_from_claims match_group removeprefix starts_slug slug_part slug_char role_tail
    after_slug max_role lookup assign add_group
access_from_claims_run = refl

abbrev someone : Principal
someone = record {
  user_id = 7;
  email = none;
  name = none;
  org_admin = false;
  teams =
      record { id = 3; slug = "payments"; name = "payments"; role = responder }
      ∷ record { id = 5; slug = "platform"; name = "platform"; role = viewer }
      ∷ [];
}

match_group_exact_example : (match_group "team:payments:admin" ≡ some ("payments", admin)) ↔ (
    (is_slug "payments" ≡ true)
    × (("team:payments:admin" ≡ group "payments" admin)
        ⊎ ("team:payments:admin" ≡ group "payments" admin +++ "\n")))
match_group_exact_example = match_group_exact "team:payments:admin" "payments" admin

access_from_claims-highest_example :
    (lookup "payments" (access_from_claims claims).roles ≡ highest "payments" claims)
    × ((access_from_claims claims).org_admin ≡ true)
unfolding access_from_claims match_group removeprefix
access_from_claims-highest_example = access_from_claims-highest claims "payments"

require_role-team_ids_example : require_role someone 5 responder "alert" ≡ too_low responder
unfolding team_ids rank
require_role-team_ids_example = require_role-team_ids someone 5 responder "alert" (refl, (refl, tt))
