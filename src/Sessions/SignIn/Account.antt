-- ===== src/Sessions/SignIn/Account.antt =====
-- The user that `sign_in` of apps/api/app/sessions.py finds or makes.
use triage_assistant.Prelude.{
  ℕ, ◌==◌, ◌≡◌, refl, ap, inl, inr, Bool, true, ◌&&◌, Option, none, some, some-injective, List, [],
  ◌∷◌, ◌++◌, String, str_eq, eq_iff, if◌then◌else◌, map, find, any, Bool-cases, arith,
}
use triage_assistant.Models.{User, Db}
use triage_assistant.Access.Group.{Role}
use triage_assistant.Sessions.SignIn.{
  Identity, is_account, updated, inserted, upserted, insert_teams,
}

pub users-insert_teams :
    (roles : List (String × Role)) (db : Db) → (insert_teams roles db).users ≡ db.users
unfolding insert_teams
users-insert_teams [] db = refl
users-insert_teams ((slug, role) ∷ roles) db =
    elim (Bool-cases (any (λ t. str_eq t.slug slug) db.teams)) [
      | inl e ↦ rw e (users-insert_teams roles db)
      | inr e ↦ rw e (users-insert_teams roles _)
    ]

-- A user with an id and the account of an issuer and a subject.
abbrev pub HasAccount : String → String → ℕ → List User → Type 0
HasAccount issuer subject id users =
    any (λ (u : User). u.id == id && (str_eq u.issuer issuer && str_eq u.subject subject)) users
    ≡ true

HasAccount-updated :
    (now : ℕ) (issuer : String) (identity : Identity) (org_admin : Bool) (users : List User)
    (u : User)
    → find (is_account issuer identity.subject) users ≡ some u
    → HasAccount issuer identity.subject u.id (
        map
          (λ u.
            if is_account issuer identity.subject u then updated now identity org_admin u else u)
          users)
unfolding updated
HasAccount-updated now issuer identity org_admin [] u h = ground (arith, h)
HasAccount-updated now issuer identity org_admin (x ∷ xs) u h =
    elim (Bool-cases (is_account issuer identity.subject x)) [
      | inl e ↦
          let ids = ap (λ (u : User). u.id) (some-injective _ _ (rw e at h)) in
          rw e (ground (arith, e, ids))
      | inr e ↦
          let rest = HasAccount-updated now issuer identity org_admin xs u (rw e at h) in
          rw e (ground (arith, rest))
    ]

HasAccount-inserted :
    (issuer subject : String) (id : ℕ) (u : User) (users : List User)
    → u.id ≡ id
    → is_account issuer subject u ≡ true
    → HasAccount issuer subject id (users ++ u ∷ [])
HasAccount-inserted issuer subject id u [] e a = ground (arith, e, a)
HasAccount-inserted issuer subject id u (x ∷ xs) e a =
    ground (arith, HasAccount-inserted issuer subject id u xs e a)

pub HasAccount-upserted :
    (now : ℕ) (issuer : String) (identity : Identity) (org_admin : Bool) (db : Db) (o : Option User)
    → find (is_account issuer identity.subject) db.users ≡ o
    → HasAccount issuer identity.subject
        (upserted now issuer identity org_admin db o).0
        (upserted now issuer identity org_admin db o).1.users
unfolding upserted inserted
HasAccount-upserted now issuer identity org_admin db none e =
    let i = (eq_iff issuer issuer).1 refl in
    let s = (eq_iff identity.subject identity.subject).1 refl in
    HasAccount-inserted issuer identity.subject db.next_id _ db.users refl (ground (arith, i, s))
HasAccount-upserted now issuer identity org_admin db (some u) e =
    HasAccount-updated now issuer identity org_admin db.users u e
