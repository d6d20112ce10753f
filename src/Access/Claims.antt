-- ===== src/Access/Claims.antt =====
-- `access_from_claims` of apps/api/app/access.py: roles and the org-admin flag from a groups claim.
use mathlib.Core.List.{foldl}
use triage_assistant.Prelude.{
  String, code, ◌≡◌, refl, sym, ap, ◌∙◌, inl, inr, Bool, true, false, ◌||◌, Option, none, some,
  List, [], ◌∷◌, ltb, ◌==◌, str_eq, eq_iff, if◌then◌else◌, Bool-cases, any, lookup, assign,
  lookup-assign, arith,
}
use triage_assistant.Access.Group.{Role, viewer, responder, admin, rank, match_group}

pub record Granted : Type 0 where
  pub roles : List (String × Role)
  pub org_admin : Bool

-- `value.removeprefix("/")`
unfoldable pub removeprefix : String → String
removeprefix String.[] = ""
removeprefix (String.◌∷◌ c s) = if code c == b'/' then s else String.◌∷◌ c s

-- `max` on roles: the first of two equal ones.
unfoldable pub max_role : Role → Role → Role
unfolding rank
max_role a b = if ltb (rank a) (rank b) then b else a

role_or : Option Role → Role → Role
role_or none r = r
role_or (some held) r = held

raise_role : Granted → Option (String × Role) → Granted
unfolding role_or
raise_role a none = a
raise_role a (some (slug, role)) = record a {
  roles = assign slug (max_role role (role_or (lookup slug a.roles) role)) a.roles;
}

-- One turn of the loop.
unfoldable pub add_group : Granted → String → Granted
unfolding raise_role
add_group a value =
    let v = removeprefix value in
    if str_eq v "org:admin" then record a { org_admin = true } else raise_role a (match_group v)

unfoldable pub access_from_claims : List String → Granted
access_from_claims groups = foldl add_group (record { roles = []; org_admin = false }) groups

-- What one group grants in one team, and the highest of what several grant.
abbrev pub higher : Option Role → Option Role → Option Role
higher none r = r
higher (some a) none = some a
higher (some a) (some b) = some (max_role a b)

abbrev named : String → Option (String × Role) → Option Role
named slug none = none
named slug (some (s, role)) = if str_eq s slug then some role else none

abbrev pub granted : String → String → Option Role
granted slug value = named slug (match_group (removeprefix value))

abbrev pub highest : String → List String → Option Role
highest slug [] = none
highest slug (g ∷ gs) = higher (granted slug g) (highest slug gs)

higher_assoc : (a b c : Option Role) → higher (higher a b) c ≡ higher a (higher b c)
unfolding max_role
higher_assoc none b c = refl
higher_assoc (some a) none c = refl
higher_assoc (some a) (some b) none = refl
higher_assoc (some viewer) (some b) (some c) = ground arith
higher_assoc (some responder) (some b) (some c) = ground arith
higher_assoc (some admin) (some b) (some c) = ground arith

max_role_comm : (a b : Role) → max_role a b ≡ max_role b a
unfolding max_role
max_role_comm viewer b = ground arith
max_role_comm responder b = ground arith
max_role_comm admin b = ground arith

max_role_self : (a : Role) → max_role a a ≡ a
unfolding max_role
max_role_self a = ground arith

higher-none : (a : Option Role) → higher a none ≡ a
higher-none none = refl
higher-none (some a) = refl

raised :
    (role : Role) (held : Option Role)
    → some (max_role role (role_or held role)) ≡ higher held (some role)
unfolding role_or
raised role none = ap some (max_role_self role)
raised role (some held) = ap some (max_role_comm role held)

raise_role-named :
    (slug : String) (a : Granted) (m : Option (String × Role))
    → lookup slug (raise_role a m).roles ≡ higher (lookup slug a.roles) (named slug m)
unfolding raise_role
raise_role-named slug a none = sym (higher-none (lookup slug a.roles))
raise_role-named slug a (some (s, role)) = elim (Bool-cases (str_eq s slug)) [
  | inl e ↦ rw (lookup-assign, e, (eq_iff s slug).0 e) (raised role (lookup slug a.roles))
  | inr e ↦ rw (lookup-assign, e) (sym (higher-none (lookup slug a.roles)))
]

no_team : match_group "org:admin" ≡ none
unfolding match_group
no_team = refl

add_group-granted :
    (slug : String) (a : Granted) (g : String)
    → lookup slug (add_group a g).roles ≡ higher (lookup slug a.roles) (granted slug g)
unfolding add_group
add_group-granted slug a g = elim (Bool-cases (str_eq (removeprefix g) "org:admin")) [
  | inl e ↦ rw (e, (eq_iff (removeprefix g) "org:admin").0 e, no_team) (sym (higher-none _))
  | inr e ↦ rw e (raise_role-named slug a (match_group (removeprefix g)))
]

roles-foldl :
    (slug : String) (a : Granted) (groups : List String)
    → lookup slug (foldl add_group a groups).roles
      ≡ higher (lookup slug a.roles) (highest slug groups)
roles-foldl slug a [] = sym (higher-none (lookup slug a.roles))
roles-foldl slug a (g ∷ gs) =
    roles-foldl slug (add_group a g) gs
    ∙ ap (λ r. higher r (highest slug gs)) (add_group-granted slug a g)
    ∙ higher_assoc (lookup slug a.roles) (granted slug g) (highest slug gs)

org_admin-raise_role :
    (a : Granted) (m : Option (String × Role)) → (raise_role a m).org_admin ≡ a.org_admin
unfolding raise_role
org_admin-raise_role a none = refl
org_admin-raise_role a (some (slug, role)) = refl

abbrev pub is_org_admin_group : String → Bool
is_org_admin_group g = str_eq (removeprefix g) "org:admin"

org_admin-foldl :
    (a : Granted) (groups : List String)
    → (foldl add_group a groups).org_admin ≡ (a.org_admin || any is_org_admin_group groups)
unfolding add_group
org_admin-foldl a [] = ground arith
org_admin-foldl a (g ∷ gs) = ground (
  arith,
  org_admin-foldl (add_group a g) gs,
  org_admin-raise_role a (match_group (removeprefix g)),
)

-- In every team, the claims give the highest role that one of the groups grants, and no role if
-- none does, whatever the order; and the org-admin flag exactly if one group is "org:admin", with
-- a leading slash or without.
pub access_from_claims-highest :
    (groups : List String) (slug : String)
    → (lookup slug (access_from_claims groups).roles ≡ highest slug groups)
      × ((access_from_claims groups).org_admin ≡ any is_org_admin_group groups)
unfolding access_from_claims lookup
access_from_claims-highest groups slug = (
  roles-foldl slug (record { roles = []; org_admin = false }) groups,
  org_admin-foldl (record { roles = []; org_admin = false }) groups,
)

-- No slug stands twice in a list of grants.
abbrev pub Once : List (String × Role) → Type 0
Once [] = Unit
Once ((slug, role) ∷ roles) = (lookup slug roles ≡ none) × Once roles

Once-assign :
    (slug : String) (role : Role) (roles : List (String × Role))
    → Once roles
    → Once (assign slug role roles)
unfolding lookup assign
Once-assign slug role [] h = (refl, tt)
Once-assign slug role ((s, r) ∷ roles) (new, rest) = elim (Bool-cases (str_eq s slug)) [
  | inl e ↦ rw e (new, rest)
  | inr e ↦
      let other : str_eq slug s ≡ false = ground (arith, e, eq_iff s slug, eq_iff slug s) in
      rw e ((lookup-assign role roles slug s ∙ rw other new), Once-assign slug role roles rest)
]

Once-add_group : (a : Granted) (g : String) → Once a.roles → Once (add_group a g).roles
unfolding add_group
Once-add_group a g h = elim (Bool-cases (str_eq (removeprefix g) "org:admin")) [
  | inl e ↦ rw e h
  | inr e ↦ rw e (once_raised a (match_group (removeprefix g)) h)
]
  where
    once_raised :
        (a : Granted) (m : Option (String × Role)) → Once a.roles → Once (raise_role a m).roles
    once_raised a none h = h
    once_raised a (some (slug, role)) h = Once-assign slug _ a.roles h

Once-foldl :
    (groups : List String) (a : Granted) → Once a.roles → Once (foldl add_group a groups).roles
Once-foldl [] a h = h
Once-foldl (g ∷ gs) a h = Once-foldl gs (add_group a g) (Once-add_group a g h)

pub access_from_claims-Once : (groups : List String) → Once (access_from_claims groups).roles
unfolding access_from_claims
access_from_claims-Once groups = Once-foldl groups (record { roles = []; org_admin = false }) tt
