-- ===== src/Access/Roles/Visibility.antt =====
-- The two uses of roles in apps/api/app/access.py agree: the teams that a list is read from and
-- the check of a role in one team.
use triage_assistant.Prelude.{
  ℕ, ◌≤◌, String, ◌≡◌, refl, Bool, true, false, Option, none, some, List, [], ◌∷◌, map, leb, ◌==◌,
  if◌then◌else◌, find, keep, any, arith, ◌+++◌,
}
use triage_assistant.Http.{Result, ok, err, http_error}
use triage_assistant.Access.Group.{Role, viewer, rank, label}
use triage_assistant.Access.Roles.{
  TeamAccess, Principal, role_of, role_in, team_ids, require, require_role,
}

-- A list of teams reaches a team; None reaches every team.
abbrev pub covers : Option (List ℕ) → ℕ → Bool
covers none team_id = true
covers (some ids) team_id = any (λ i. i == team_id) ids

-- No team twice: one membership for a user and a team.
abbrev pub Distinct : List TeamAccess → Type 0
Distinct [] = Unit
Distinct (t ∷ ts) = (any (λ u. u.id == t.id) ts ≡ false) × Distinct ts

abbrev at_least : Role → Option Role → Bool
at_least needed none = false
at_least needed (some role) = leb (rank needed) (rank role)

kept : Role → List TeamAccess → List ℕ
kept needed ts = map (λ t. t.id) (keep (λ t. leb (rank needed) (rank t.role)) ts)

kept_absent :
    (needed : Role) (ts : List TeamAccess) (i j : ℕ)
    → i ≡ j
    → any (λ u. u.id == i) ts ≡ false
    → any (λ k. k == j) (kept needed ts) ≡ false
unfolding kept
kept_absent needed [] i j e h = refl
kept_absent needed (t ∷ ts) i j e h = ground (arith, kept_absent needed ts i j)

kept_found :
    (needed : Role) (ts : List TeamAccess) (j : ℕ)
    → Distinct ts
    → any (λ k. k == j) (kept needed ts) ≡ at_least needed (role_of (find (λ t. t.id == j) ts))
unfolding kept role_of
kept_found needed [] j d = refl
kept_found needed (t ∷ ts) j d =
    ground (arith, kept_found needed ts j d.1, kept_absent needed ts t.id j)

covers-team_ids :
    (p : Principal) (needed : Role) (j : ℕ)
    → Distinct p.teams
    → covers (team_ids p needed) j ≡ at_least needed (role_in p j)
unfolding team_ids role_in kept rank
covers-team_ids p needed j d = ground (arith, kept_found needed p.teams j d)

rank_pos : (role : Role) → rank viewer ≤ rank role
unfolding rank
rank_pos viewer = omega arith
rank_pos _ = omega arith

abbrev pub refusal : String → Result (Unit {0})
refusal what = err (http_error 404 (what +++ " not found"))

abbrev pub too_low : Role → Result (Unit {0})
too_low needed = err (http_error 403 ("needs the " +++ label needed +++ " role in this team"))

-- For a caller with one membership for a team at most, the check of a role passes exactly in the
-- teams that a list for that role is read from. In the other teams it answers 403 if the caller
-- may at least read them and 404 if not, which is also the answer for what does not exist.
pub require_role-team_ids :
    (p : Principal) (team_id : ℕ) (needed : Role) (what : String)
    → Distinct p.teams
    → require_role p team_id needed what ≡ (
        if covers (team_ids p needed) team_id
        then ok tt
        else if covers (team_ids p viewer) team_id
        then too_low needed
        else refusal what)
unfolding require_role require
require_role-team_ids p j needed what d =
    ground (arith, covers-team_ids p needed j d, covers-team_ids p viewer j d, rank_pos needed)
