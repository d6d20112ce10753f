-- ===== src/Sessions/SignIn/Teams.antt =====
-- The teams of apps/api/app/sessions.py: those that `sign_in` makes, and the ids
-- of those granted.
use mathlib.Core.List.Memᴰ
use mathlib.Core.List.{Memᴰ}
use triage_assistant.Prelude.{
  ℕ, suc, ◌<◌, ◌≢◌, str_eq, eq_iff, ◌==◌, ◌≡◌, refl, sym, ◌∙◌, ap, subst, inl, inr, Bool, true,
  false, Option, none, some, List, [], ◌∷◌, ◌++◌, String, if◌then◌else◌, find, find_holds, any, All,
  All-Mem, All-find, All_at, Bool-cases, Option-cases, lookup, arith,
}
use triage_assistant.Models.{Db, Team}
use triage_assistant.Access.Group.{Role}
use triage_assistant.Access.Claims.{Once}
use triage_assistant.Sessions.SignIn.{insert_teams, granted_ids}

-- Teams whose ids and slugs differ, with ids below the next one.
abbrev pub Teams : ℕ → List Team → Type 0
Teams next [] = Unit
Teams next (t ∷ ts) =
    (t.id < next) × All (λ (u : Team). (u.id ≢ t.id) × (u.slug ≢ t.slug)) ts × Teams next ts

abbrev pub has_slug : String → List Team → Bool
has_slug slug teams = any (λ (t : Team). str_eq t.slug slug) teams

pub Teams-suc : (next : ℕ) (ts : List Team) → Teams next ts → Teams (suc next) ts
Teams-suc next [] h = tt
Teams-suc next (t ∷ ts) (below, others, rest) =
    (omega (arith, below), others, Teams-suc next ts rest)

All-new :
    (next : ℕ) (slug name : String) (t : Team) (ts : List Team)
    → t.id < next
    → str_eq t.slug slug ≡ false
    → All (λ (u : Team). (u.id ≢ t.id) × (u.slug ≢ t.slug)) ts
    → All
        (λ (u : Team). (u.id ≢ t.id) × (u.slug ≢ t.slug))
        (ts ++ record { id = next; slug = slug; name = name } ∷ [])
All-new next slug name t [] below other h = (
  ((λ e. omega (arith, below, e)), (λ e. ground (arith, other, (eq_iff t.slug slug).1 (sym e)))),
  tt,
)
All-new next slug name t (u ∷ ts) below other (h, hs) =
    (h, All-new next slug name t ts below other hs)

Teams-new :
    (next : ℕ) (slug name : String) (ts : List Team)
    → has_slug slug ts ≡ false
    → Teams next ts
    → Teams (suc next) (ts ++ record { id = next; slug = slug; name = name } ∷ [])
Teams-new next slug name [] new h = (omega arith, tt, tt)
Teams-new next slug name (t ∷ ts) new (below, others, rest) = (
  omega (arith, below),
  All-new next slug name t ts below (ground (arith, new)) others,
  Teams-new next slug name ts (ground (arith, new)) rest,
)

pub Teams-insert_teams :
    (roles : List (String × Role)) (db : Db)
    → Teams db.next_id db.teams
    → Teams (insert_teams roles db).next_id (insert_teams roles db).teams
unfolding insert_teams
Teams-insert_teams [] db h = h
Teams-insert_teams ((slug, role) ∷ roles) db h = elim (Bool-cases (has_slug slug db.teams)) [
  | inl e ↦ rw e (Teams-insert_teams roles db h)
  | inr e ↦ rw e (Teams-insert_teams roles _ (Teams-new db.next_id slug slug db.teams e h))
]

has_slug-append :
    (slug : String) (ts us : List Team) → has_slug slug ts ≡ true → has_slug slug (ts ++ us) ≡ true
has_slug-append slug [] us h = ground (arith, h)
has_slug-append slug (t ∷ ts) us h = ground (arith, h, has_slug-append slug ts us)

has_slug-new :
    (slug name : String) (next : ℕ) (ts : List Team)
    → has_slug slug (ts ++ record { id = next; slug = slug; name = name } ∷ []) ≡ true
has_slug-new slug name next [] = let e = (eq_iff slug slug).1 refl in ground (arith, e)
has_slug-new slug name next (t ∷ ts) = ground (arith, has_slug-new slug name next ts)

has_slug-insert_teams :
    (slug : String) (roles : List (String × Role)) (db : Db)
    → has_slug slug db.teams ≡ true
    → has_slug slug (insert_teams roles db).teams ≡ true
unfolding insert_teams
has_slug-insert_teams slug [] db h = h
has_slug-insert_teams slug ((s, role) ∷ roles) db h = elim (Bool-cases (has_slug s db.teams)) [
  | inl e ↦ rw e (has_slug-insert_teams slug roles db h)
  | inr e ↦ rw e (has_slug-insert_teams slug roles _ (has_slug-append slug db.teams _ h))
]

-- Each slug that is granted a role has a team.
pub insert_teams-lookup :
    (slug : String) (roles : List (String × Role)) (db : Db)
    → lookup slug roles ≢ none
    → has_slug slug (insert_teams roles db).teams ≡ true
unfolding insert_teams lookup
insert_teams-lookup slug [] db h = absurd (h refl)
insert_teams-lookup slug ((s, role) ∷ roles) db h = elim (Bool-cases (str_eq s slug)) [
  | inl e ↦
      let same : s ≡ slug = (eq_iff s slug).0 e in
      elim (Bool-cases (has_slug s db.teams)) [
        | inl k ↦
            rw k
              (has_slug-insert_teams slug roles db (subst (λ x. has_slug x db.teams ≡ true) same k))
        | inr k ↦ rw k (
            has_slug-insert_teams slug roles _ (
              subst
                (λ x.
                  has_slug x (db.teams ++ record { id = db.next_id; slug = s; name = s } ∷ [])
                  ≡ true)
                same (has_slug-new s s db.next_id db.teams)))
      ]
  | inr e ↦
      let others : lookup slug roles ≢ none = (λ z. h (rw e z)) in
      elim (Bool-cases (has_slug s db.teams)) [
        | inl k ↦ rw k (insert_teams-lookup slug roles db others)
        | inr k ↦ rw k (insert_teams-lookup slug roles _ others)
      ]
]

abbrev pub or_held : Option Role → Option Role → Option Role
or_held none held = held
or_held (some r) held = some r

-- The last role that a list of grants gives in a team.
abbrev pub granted_role : ℕ → List (ℕ × Role) → Option Role
granted_role team_id [] = none
granted_role team_id (g ∷ granted) =
    or_held (granted_role team_id granted) (if g.0 == team_id then some g.1 else none)

-- Teams are told apart by their ids as by their slugs.
apart : (u t : Team) → u.id ≢ t.id → u.slug ≢ t.slug → (u.id == t.id) ≡ str_eq u.slug t.slug
apart u t ids slugs = elim (Bool-cases (str_eq u.slug t.slug)) [
  | inl e ↦ absurd (slugs ((eq_iff u.slug t.slug).0 e))
  | inr e ↦ ground (arith, e, ids)
]

id_slug :
    (next : ℕ) (ts : List Team) (t u : Team)
    → Teams next ts
    → Memᴰ t ts
    → Memᴰ u ts
    → (u.id == t.id) ≡ str_eq u.slug t.slug
id_slug next [] t u h m n = absurd (Memᴰ.not-nil m)
id_slug next (x ∷ xs) t u h (Memᴰ.head e) (Memᴰ.head f) =
    let same = f ∙ sym e in
    let ids = ap (λ (t : Team). t.id) same in
    let slugs = (eq_iff u.slug t.slug).1 (ap (λ (t : Team). t.slug) same) in
    ground (arith, ids, slugs)
id_slug next (x ∷ xs) t u (below, others, rest) (Memᴰ.head e) (Memᴰ.tail n) =
    let (ids, slugs) =
      subst (λ (z : Team). (u.id ≢ z.id) × (u.slug ≢ z.slug)) (sym e)
        (All_at (λ (u : Team). (u.id ≢ x.id) × (u.slug ≢ x.slug)) xs u others n) in
    apart u t ids slugs
id_slug next (x ∷ xs) t u (below, others, rest) (Memᴰ.tail m) (Memᴰ.head f) =
    let (ids, slugs) =
      subst (λ (z : Team). (t.id ≢ z.id) × (t.slug ≢ z.slug)) (sym f)
        (All_at (λ (u : Team). (u.id ≢ x.id) × (u.slug ≢ x.slug)) xs t others m) in
    apart u t (λ e. ids (sym e)) (λ e. slugs (sym e))
id_slug next (x ∷ xs) t u (below, others, rest) (Memᴰ.tail m) (Memᴰ.tail n) =
    id_slug next xs t u rest m n

find-none :
    {A : Type 0} (p : A → Bool) (xs : List A) (x : A) → find p xs ≡ none → Memᴰ x xs → p x ≡ false
find-none p [] x h m = absurd (Memᴰ.not-nil m)
find-none p (y ∷ ys) x h (Memᴰ.head e) = subst (λ z. p z ≡ false) (sym e) (ground (arith, h))
find-none p (y ∷ ys) x h (Memᴰ.tail m) = find-none p ys x (ground (arith, h)) m

-- A grant before the others, of which none is for the same slug.
first_of_all :
    (held : Option Role) (role : Role) (b c : Bool)
    → b ≡ c
    → (c ≡ true → held ≡ none)
    → or_held held (if b then some role else none) ≡ (if c then some role else held)
first_of_all none role b c e h = ground (arith, e)
first_of_all (some r) role b true e h = absurd (ground (arith, h refl))
first_of_all (some r) role b false e h = refl

abbrev with_found : Option Team → Role → List (ℕ × Role) → List (ℕ × Role)
with_found none role rest = rest
with_found (some t) role rest = (t.id, role) ∷ rest

granted_ids-cons :
    (ts : List Team) (slug : String) (role : Role) (roles : List (String × Role)) (o : Option Team)
    → find (λ t. str_eq t.slug slug) ts ≡ o
    → granted_ids ts ((slug, role) ∷ roles) ≡ with_found o role (granted_ids ts roles)
unfolding granted_ids
granted_ids-cons ts slug role roles none e = ground (arith, e)
granted_ids-cons ts slug role roles (some t) e = ground (arith, e)

pub granted_role-lookup :
    (next : ℕ) (ts : List Team) (t : Team) (roles : List (String × Role))
    → Teams next ts
    → Memᴰ t ts
    → Once roles
    → granted_role t.id (granted_ids ts roles) ≡ lookup t.slug roles
unfolding granted_ids lookup
granted_role-lookup next ts t [] h m o = refl
granted_role-lookup next ts t ((slug, role) ∷ roles) h m (new, o) =
    let before = granted_role-lookup next ts t roles h m o in
    elim (Option-cases (find (λ t. str_eq t.slug slug) ts)) [
      | inl e ↦
          let other = find-none (λ t. str_eq t.slug slug) ts t e m in
          let swapped : str_eq slug t.slug ≡ false =
            ground (arith, other, eq_iff t.slug slug, eq_iff slug t.slug) in
          ap (granted_role t.id) (granted_ids-cons ts slug role roles _ e)
          ∙ before
          ∙ rw swapped refl
      | inr (u, e) ↦
          let named = (eq_iff u.slug slug).0 (find_holds (λ t. str_eq t.slug slug) ts u e) in
          let there = All-find (λ x. Memᴰ x ts) (λ t. str_eq t.slug slug) ts u (All-Mem ts) e in
          let ids =
            subst (λ x. (u.id == t.id) ≡ str_eq x t.slug) named (id_slug next ts t u h m there) in
          ap (granted_role t.id) (granted_ids-cons ts slug role roles _ e)
          ∙ (ap (λ held. or_held held (if u.id == t.id then some role else none)) before
              ∙ first_of_all (lookup t.slug roles) role (u.id == t.id) (str_eq slug t.slug) ids
                  (λ k. subst (λ x. lookup x roles ≡ none) ((eq_iff slug t.slug).0 k) new))
    ]

pub granted_role-outside :
    (id : ℕ) (ts : List Team) (roles : List (String × Role))
    → All (λ (t : Team). t.id ≢ id) ts
    → granted_role id (granted_ids ts roles) ≡ none
unfolding granted_ids
granted_role-outside id ts [] h = refl
granted_role-outside id ts ((slug, role) ∷ roles) h =
    elim (Option-cases (find (λ t. str_eq t.slug slug) ts)) [
      | inl e ↦
          ap (granted_role id) (granted_ids-cons ts slug role roles _ e)
          ∙ granted_role-outside id ts roles h
      | inr (t, e) ↦
          let k = All-find (λ (t : Team). t.id ≢ id) (λ t. str_eq t.slug slug) ts t h e in
          let n : (t.id == id) ≡ false = ground (arith, k) in
          ap (granted_role id) (granted_ids-cons ts slug role roles _ e)
          ∙ (ap (λ held. or_held held (if t.id == id then some role else none))
                (granted_role-outside id ts roles h)
              ∙ rw n refl)
    ]
