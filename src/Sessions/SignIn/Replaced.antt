-- ===== src/Sessions/SignIn/Replaced.antt =====
-- `sign_in` of apps/api/app/sessions.py leaves a user exactly the roles of the claims.
use mathlib.Core.List.{Memᴰ}
use triage_assistant.Models.{Team}
use triage_assistant.Access.Claims.{highest, access_from_claims-highest, access_from_claims-Once}
use triage_assistant.Sessions.SignIn.Account.{HasAccount, users-insert_teams, HasAccount-upserted}
use triage_assistant.Sessions.SignIn.Teams.{
  Teams, has_slug, Teams-suc, Teams-insert_teams, insert_teams-lookup, granted_role, or_held,
  granted_role-lookup, granted_role-outside,
}
use triage_assistant.Prelude.{
  ◌⊎◌, Option-cases, subst, sym, All, All-map, All-Mem, lookup, ◌≢◌, str_eq, ◌==◌, ℕ, ◌≡◌, refl,
  ◌∙◌, ap, inl, inr, Bool, true, false, not, ◌&&◌, Option, none, some, List, [], ◌∷◌, String,
  if◌then◌else◌, find, keep, any, Bool-cases, arith,
}
use triage_assistant.Settings.{Settings}
use triage_assistant.Models.{User, Db, Membership}
use triage_assistant.Access.Group.{Role}
use triage_assistant.Access.Claims.{access_from_claims}
use triage_assistant.Sessions.SignIn.{
  upserted, is_account, retained, in_ids, Identity, is_membership, set_role, set_roles,
  replace_memberships, insert_teams, upsert_user, granted_ids, open_session, sign_in,
}

-- The role that a table of memberships gives a user in a team.
abbrev pub role_at : ℕ → ℕ → List Membership → Option Role
role_at user_id team_id [] = none
role_at user_id team_id (m ∷ ms) =
    let rest = role_at user_id team_id ms in
    if is_membership user_id team_id m then some m.role else rest

role_at-set_role :
    (u v t i : ℕ) (r : Role) (ms : List Membership)
    → role_at v t (set_role u i r ms) ≡ (if (v == u) && (t == i) then some r else role_at v t ms)
unfolding set_role
role_at-set_role u v t i r [] = ground arith
role_at-set_role u v t i r (m ∷ ms) = ground (arith, role_at-set_role u v t i r ms)

role_at-set_roles :
    (u v t : ℕ) (granted : List (ℕ × Role)) (ms : List Membership)
    → role_at v t (set_roles u granted ms)
      ≡ (if v == u then or_held (granted_role t granted) (role_at v t ms) else role_at v t ms)
unfolding set_roles
role_at-set_roles u v t [] ms = ground arith
role_at-set_roles u v t ((i, r) ∷ granted) ms =
    role_at-set_roles u v t granted (set_role u i r ms)
    ∙ ground (arith, role_at-set_role u v t i r ms)

role_at-keep :
    (u v t : ℕ) (granted : List (ℕ × Role)) (ms : List Membership)
    → role_at v t (keep (retained u granted) ms)
      ≡ (if (v == u) && not (in_ids t granted) then none else role_at v t ms)
unfolding retained
role_at-keep u v t granted [] = ground arith
role_at-keep u v t granted (m ∷ ms) = elim (Bool-cases (m.team_id == t)) [
  | inl e ↦
      let same : in_ids m.team_id granted ≡ in_ids t granted =
        ap (λ i. in_ids i granted) (ground (arith, e)) in
      ground (arith, role_at-keep u v t granted ms, e, same)
  | inr e ↦ ground (arith, role_at-keep u v t granted ms, e)
]

granted_role-none :
    (t : ℕ) (granted : List (ℕ × Role)) → in_ids t granted ≡ false → granted_role t granted ≡ none
unfolding in_ids
granted_role-none t [] h = refl
granted_role-none t (g ∷ granted) h = ground (arith, h, granted_role-none t granted)

granted_role-some :
    (t : ℕ) (granted : List (ℕ × Role)) → in_ids t granted ≡ true → granted_role t granted ≢ none
unfolding in_ids
granted_role-some t [] h = ground (arith, h)
granted_role-some t (g ∷ granted) h = ground (arith, h, granted_role-some t granted)

role_at-replace_memberships :
    (u v t : ℕ) (granted : List (ℕ × Role)) (ms : List Membership)
    → role_at v t (replace_memberships u granted ms)
      ≡ (if v == u then granted_role t granted else role_at v t ms)
unfolding replace_memberships
role_at-replace_memberships u v t granted ms =
    role_at-set_roles u v t granted _ ∙ elim (Bool-cases (in_ids t granted)) [
      | inl e ↦ ground (arith, e, granted_role-some t granted e, role_at-keep u v t granted ms)
      | inr e ↦ ground (arith, e, granted_role-none t granted e, role_at-keep u v t granted ms)
    ]

memberships-insert_teams :
    (roles : List (String × Role)) (db : Db) → (insert_teams roles db).memberships ≡ db.memberships
unfolding insert_teams
memberships-insert_teams [] db = refl
memberships-insert_teams ((slug, role) ∷ roles) db =
    elim (Bool-cases (any (λ t. str_eq t.slug slug) db.teams)) [
      | inl e ↦ rw e (memberships-insert_teams roles db)
      | inr e ↦ rw e (memberships-insert_teams roles _)
    ]

memberships-upserted :
    (now : ℕ) (issuer : String) (identity : Identity) (org_admin : Bool) (db : Db) (o : Option User)
    → (upserted now issuer identity org_admin db o).1.memberships ≡ db.memberships
unfolding upserted
memberships-upserted now issuer identity org_admin db none = refl
memberships-upserted now issuer identity org_admin db (some u) = refl

next_id-upserted :
    (now : ℕ) (issuer : String) (identity : Identity) (org_admin : Bool) (db : Db) (o : Option User)
    → Teams db.next_id db.teams
    → Teams
        (upserted now issuer identity org_admin db o).1.next_id
        (upserted now issuer identity org_admin db o).1.teams
unfolding upserted
next_id-upserted now issuer identity org_admin db none h = Teams-suc db.next_id db.teams h
next_id-upserted now issuer identity org_admin db (some u) h = h

-- The roles after a sign-in of a user, who is the one of the issuer and the claims' subject.
pub record Replaced (issuer : String) (identity : Identity) (user : ℕ) (before after : Db)
    : Type 0 where
  pub same_account :
      any
        (λ (u : User).
          u.id == user && (str_eq u.issuer issuer && str_eq u.subject identity.subject))
        after.users
      ≡ true
  pub granted :
      All
        (λ (t : Team). role_at user t.id after.memberships ≡ highest t.slug identity.groups)
        after.teams
  pub nowhere_else :
      (id : ℕ)
      → (any (λ (t : Team). t.id == id) after.teams ≡ true)
        ⊎ (role_at user id after.memberships ≡ none)
  pub made :
      (slug : String)
      → (highest slug identity.groups ≡ none)
        ⊎ (any (λ (t : Team). str_eq t.slug slug) after.teams ≡ true)
  pub others :
      (v id : ℕ) → (v ≡ user) ⊎ (role_at v id after.memberships ≡ role_at v id before.memberships)

-- No team has an id.
outside :
    (id : ℕ) (ts : List Team)
    → any (λ (t : Team). t.id == id) ts ≡ false
    → All (λ (t : Team). t.id ≢ id) ts
outside id [] h = tt
outside id (t ∷ ts) h = ((λ e. ground (arith, h, e)), outside id ts (ground (arith, h)))

module _ (digest : String → String) (settings : Settings) where
  -- Which memberships a sign-in leaves, from the ids that are granted.
  role_at-granted :
      (now : ℕ) (token issuer : String) (identity : Identity) (db : Db) (v t : ℕ)
      → role_at v t (sign_in digest settings now token issuer identity db).1.memberships ≡ (
          if v == (sign_in digest settings now token issuer identity db).0
          then granted_role t (
              granted_ids
                (sign_in digest settings now token issuer identity db).1.teams
                (access_from_claims identity.groups).roles)
          else role_at v t db.memberships)
  unfolding sign_in open_session upsert_user
  role_at-granted now token issuer identity db v t =
      let access = access_from_claims identity.groups in
      let user = find (is_account issuer identity.subject) db.users in
      let db1 = (upsert_user now issuer identity access.org_admin db).1 in
      let db2 = insert_teams access.roles db1 in
      let user_id = (sign_in digest settings now token issuer identity db).0 in
      let granted = granted_ids db2.teams access.roles in
      role_at-replace_memberships user_id v t granted db2.memberships
      ∙ ap (λ ms. if v == user_id then granted_role t granted else role_at v t ms)
          (memberships-insert_teams access.roles db1
            ∙ memberships-upserted now issuer identity access.org_admin db user)

  sign_in-account :
      (now : ℕ) (token issuer : String) (identity : Identity) (db : Db)
      → HasAccount issuer identity.subject
          (sign_in digest settings now token issuer identity db).0
          (sign_in digest settings now token issuer identity db).1.users
  unfolding sign_in open_session upsert_user
  sign_in-account now token issuer identity db =
      let access = access_from_claims identity.groups in
      let user = find (is_account issuer identity.subject) db.users in
      let upsert = upserted now issuer identity access.org_admin db user in
      subst (HasAccount issuer identity.subject upsert.0)
        (sym (users-insert_teams access.roles upsert.1))
        (HasAccount-upserted now issuer identity access.org_admin db user refl)

  sign_in-Teams :
      (now : ℕ) (token issuer : String) (identity : Identity) (db : Db)
      → Teams db.next_id db.teams
      → Teams
          (sign_in digest settings now token issuer identity db).1.next_id
          (sign_in digest settings now token issuer identity db).1.teams
        × ((slug : String)
            → lookup slug (access_from_claims identity.groups).roles ≢ none
            → has_slug slug (sign_in digest settings now token issuer identity db).1.teams ≡ true)
  unfolding sign_in open_session upsert_user
  sign_in-Teams now token issuer identity db h =
      let access = access_from_claims identity.groups in
      let user = find (is_account issuer identity.subject) db.users in
      let db1 = (upsert_user now issuer identity access.org_admin db).1 in
      (
        Teams-insert_teams access.roles db1
            (next_id-upserted now issuer identity access.org_admin db user h),
        λ slug. insert_teams-lookup slug access.roles db1,
      )

  -- Where teams differ in their ids and in their slugs: after a sign-in the user of the issuer and
  -- the claims' subject has in each team the
  -- highest role that one of the groups in the claims grants for its slug, and none if none does,
  -- whatever it had before, and no role elsewhere; each slug that is granted a role has a team; and
  -- every other user has the roles it had.
  pub role_at-sign_in :
      (now : ℕ) (token issuer : String) (identity : Identity) (db : Db)
      → Teams db.next_id db.teams
      → Replaced issuer identity
          (sign_in digest settings now token issuer identity db).0
          db
          (sign_in digest settings now token issuer identity db).1
  role_at-sign_in now token issuer identity db h =
      let signed = sign_in digest settings now token issuer identity db in
      let roles = (access_from_claims identity.groups).roles in
      let (teams, made) = sign_in-Teams now token issuer identity db h in
      record {
        same_account = sign_in-account now token issuer identity db;
        granted =
            All-map (λ t. Memᴰ t signed.1.teams) _ signed.1.teams
              (λ t m.
                own t.id
                ∙ granted_role-lookup signed.1.next_id signed.1.teams t roles teams m
                    (access_from_claims-Once identity.groups)
                ∙ (access_from_claims-highest identity.groups t.slug).0)
              (All-Mem signed.1.teams);
        nowhere_else = λ id. elim (Bool-cases (any (λ (t : Team). t.id == id) signed.1.teams)) [
          | inl e ↦ inl e
          | inr e ↦
              inr (
                own id ∙ granted_role-outside id signed.1.teams roles (outside id signed.1.teams e))
        ];
        made = λ slug. elim (Option-cases (highest slug identity.groups)) [
          | inl e ↦ inl e
          | inr (r, e) ↦
              let given = (access_from_claims-highest identity.groups slug).0 ∙ e in
              inr (made slug (λ n. ground (arith, given, n)))
        ];
        others = λ v id. elim (Bool-cases (v == signed.0)) [
          | inl e ↦ inl (ground (arith, e))
          | inr e ↦ inr (other_user v id e)
        ];
      }
    where
      own :
          (id : ℕ)
          → role_at
              (sign_in digest settings now token issuer identity db).0
              id
              (sign_in digest settings now token issuer identity db).1.memberships
            ≡ granted_role id (
                granted_ids
                  (sign_in digest settings now token issuer identity db).1.teams
                  (access_from_claims identity.groups).roles)
      own id =
          let user = (sign_in digest settings now token issuer identity db).0 in
          let same : (user == user) ≡ true = ground arith in
          role_at-granted now token issuer identity db user id ∙ rw same refl

      other_user :
          (v id : ℕ)
          → (v == (sign_in digest settings now token issuer identity db).0) ≡ false
          → role_at v id (sign_in digest settings now token issuer identity db).1.memberships
            ≡ role_at v id db.memberships
      other_user v id differs = role_at-granted now token issuer identity db v id ∙ rw differs refl
