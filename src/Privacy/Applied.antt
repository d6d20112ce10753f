-- ===== src/Privacy/Applied.antt =====
-- `retention` of apps/api/app/privacy.py leaves nothing that is past its retention.
use triage_assistant.Prelude.{
  ◌⊎◌, ◌≢◌, subst, All-keep, none, some, ◌*◌, ◌+◌, ◌↔◌, ◌≤◌, ◌*◌, ◌==◌, ◌+◌, All, arith, some, ltb,
  Option, ◌↔◌, ◌≤◌, ℕ, ◌≡◌, refl, ap, inl, inr, Bool, true, false, not, List, [], ◌∷◌, keep, length,
  Bool-cases,
}
use mathlib.Core.List.Memᴰ
use mathlib.Core.List.{Memᴰ}
use triage_assistant.Prelude.{keep_Mem, All_at}
use triage_assistant.Settings.{Settings}
use triage_assistant.Models.{day, LoginRequest, Alert, Membership, User, UserSession, Db}
use triage_assistant.Audit.{Context, record_event}
use triage_assistant.Privacy.{
  Retained, session_expired, sign_in_expired, is_inactive, is_old, gone, delete_users,
  delete_expired, delete_old_alerts, retention,
}

keep-keep-not {ℓ} :
    {A : Type ℓ} (p q : A → Bool) (xs : List A) → keep p (keep q (keep (λ x. not (p x)) xs)) ≡ []
keep-keep-not p q [] = refl
keep-keep-not p q (x ∷ xs) = elim (Bool-cases (p x)) [
  | inl e ↦ rw e (keep-keep-not p q xs)
  | inr e ↦ rw e (elim (Bool-cases (q x)) [
    | inl k ↦ rw (k, e) (keep-keep-not p q xs)
    | inr k ↦ rw k (keep-keep-not p q xs)
  ])
]

keep-keep-not_all {ℓ} :
    {A : Type ℓ} (p : A → Bool) (xs : List A) → keep p (keep (λ x. not (p x)) xs) ≡ []
keep-keep-not_all p [] = refl
keep-keep-not_all p (x ∷ xs) = elim (Bool-cases (p x)) [
  | inl e ↦ rw e (keep-keep-not_all p xs)
  | inr e ↦ rw (e, e) (keep-keep-not_all p xs)
]

abbrev pub nothing_left : Retained
nothing_left = record {
  expired_sessions = 0;
  expired_sign_ins = 0;
  inactive_users = 0;
  old_alerts = 0;
}

abbrev counts : ℕ → ℕ → ℕ → ℕ → Retained
counts a b c d = record {
  expired_sessions = a;
  expired_sign_ins = b;
  inactive_users = c;
  old_alerts = d;
}

all_zero : {a b c d : ℕ} → a ≡ 0 → b ≡ 0 → c ≡ 0 → d ≡ 0 → counts a b c d ≡ nothing_left
all_zero a b c d = λ i. counts (a i) (b i) (c i) (d i)

-- What a run leaves of a list: of those before, the ones that stay.
abbrev pub Exactly : {A : Type 0} → (A → Type 0) → List A → List A → Type 0
Exactly {A = A} Stays before after = (x : A) → (Memᴰ x after) ↔ ((Memᴰ x before) × Stays x)

-- A time is no longer ago than a number of days, if there is one.
abbrev pub Within : Option ℕ → ℕ → ℕ → Type 0
Within none now at = Unit
Within (some days) now at = now ≤ at + days * day

abbrev pub Active : Settings → ℕ → User → Type 0
Active settings now u = Within settings.user_retention_days now u.last_login_at

-- No user with an id is inactive.
abbrev pub Stays : Settings → ℕ → List User → ℕ → Type 0
Stays settings now users id = All (λ u. (u.id ≢ id) ⊎ Active settings now u) users

-- The database before and after.
pub record Retains (settings : Settings) (now : ℕ) (db after : Db) : Type 0 where
  pub sessions :
      Exactly
        (λ (s : UserSession). (now ≤ s.expires_at) × Stays settings now db.users s.user_id)
        db.sessions
        after.sessions
  pub login_requests :
      Exactly (λ (r : LoginRequest). now ≤ r.expires_at) db.login_requests after.login_requests
  pub users : Exactly (Active settings now) db.users after.users
  pub memberships :
      Exactly
        (λ (m : Membership). Stays settings now db.users m.user_id)
        db.memberships
        after.memberships
  pub alerts :
      Exactly
        (λ (a : Alert). Within settings.alert_retention_days now a.created_at)
        db.alerts
        after.alerts

keep-Exactly :
    {A : Type 0} (p : A → Bool) (P : A → Type 0) (xs : List A)
    → ((x : A) → (p x ≡ false) ↔ P x)
    → Exactly P xs (keep (λ x. not (p x)) xs)
keep-Exactly {A = A} p P xs iff x = (
  λ m. (keep_Mem (λ x. not (p x)) xs x m, (iff x).0 (left xs m)),
  λ (m, h). (kept xs m ((iff x).1 h)),
)
  where
    left : (xs : List A) → Memᴰ x (keep (λ x. not (p x)) xs) → p x ≡ false
    left xs m =
        let k = All_at (λ x. not (p x) ≡ true) _ x (All-keep (λ x. not (p x)) xs) m in
        ground (arith, k)

    kept : (xs : List A) → Memᴰ x xs → p x ≡ false → Memᴰ x (keep (λ x. not (p x)) xs)
    kept [] m h = absurd (Memᴰ.not-nil m)
    kept (y ∷ ys) (Memᴰ.head e) h =
        let k : p y ≡ false = subst (λ z. p z ≡ false) e h in rw k (Memᴰ.head e)
    kept (y ∷ ys) (Memᴰ.tail m) h = elim (Bool-cases (p y)) [
      | inl e ↦ rw e (kept ys m h)
      | inr e ↦ rw e (Memᴰ.tail (kept ys m h))
    ]

-- A list that is filtered twice.
Exactly-Exactly :
    {A : Type 0} (P Q : A → Type 0) (xs ys zs : List A)
    → Exactly P xs ys
    → Exactly Q ys zs
    → Exactly (λ x. P x × Q x) xs zs
Exactly-Exactly P Q xs ys zs f g x = (
  λ m. let (in_ys, q) = (g x).0 m in let (in_xs, p) = (f x).0 in_ys in (in_xs, (p, q)),
  λ (m, (p, q)). (g x).1 ((f x).1 (m, p), q),
)

is_inactive-Active :
    (days : Option ℕ) (now : ℕ) (u : User)
    → (is_inactive days now u ≡ false) ↔ Within days now u.last_login_at
unfolding is_inactive
is_inactive-Active none now u = (λ h. tt, λ h. refl)
is_inactive-Active (some days) now u = (λ h. ground (arith, h), λ h. ground (arith, h))

is_old-Within :
    (days : Option ℕ) (now : ℕ) (a : Alert)
    → (is_old days now a ≡ false) ↔ Within days now a.created_at
unfolding is_old
is_old-Within none now a = (λ h. tt, λ h. refl)
is_old-Within (some days) now a = (λ h. ground (arith, h), λ h. ground (arith, h))

gone-Stays :
    (settings : Settings) (now : ℕ) (users : List User) (id : ℕ)
    → (gone (is_inactive settings.user_retention_days now) users id ≡ false)
      ↔ Stays settings now users id
unfolding gone
gone-Stays settings now [] id = (λ h. tt, λ h. refl)
gone-Stays settings now (u ∷ users) id =
    let active = is_inactive-Active settings.user_retention_days now u in
    let rest = gone-Stays settings now users id in
    (
      λ h. (
        elim (Bool-cases (u.id == id)) [
          | inl e ↦ inr (active.0 (ground (arith, h, e)))
          | inr e ↦ inl (λ k. ground (arith, e, k))
        ],
        rest.0 (ground (arith, h)),
      ),
      λ (this, others).
          let k = rest.1 others in
          elim this [
            | inl other ↦ ground (arith, other, k)
            | inr within ↦ let a = active.1 within in ground (arith, a, k)
          ],
    )

later_than : (now at : ℕ) → (ltb at now ≡ false) ↔ (now ≤ at)
later_than now at = (λ h. ground (arith, h), λ h. ground (arith, h))

retention-Retains :
    (settings : Settings) (context : Context) (db : Db)
    → Retains settings context.now db (retention settings context true db).1
unfolding retention delete_expired delete_users delete_old_alerts record_event
retention-Retains settings context db =
    let now = context.now in
    let inactive = is_inactive settings.user_retention_days now in
    record {
      sessions =
          Exactly-Exactly (λ (s : UserSession). now ≤ s.expires_at)
            (λ (s : UserSession). Stays settings now db.users s.user_id) db.sessions
            (keep (λ s. not (session_expired now s)) db.sessions) _
            (keep-Exactly (session_expired now) _ db.sessions (λ s. later_than now s.expires_at))
            (keep-Exactly (λ (s : UserSession). gone inactive db.users s.user_id) _ _
              (λ s. gone-Stays settings now db.users s.user_id));
      login_requests =
          keep-Exactly (sign_in_expired now) _ db.login_requests (λ r. later_than now r.expires_at);
      users =
          keep-Exactly inactive _ db.users (is_inactive-Active settings.user_retention_days now);
      memberships =
          keep-Exactly (λ (m : Membership). gone inactive db.users m.user_id) _ db.memberships
            (λ m. gone-Stays settings now db.users m.user_id);
      alerts =
          keep-Exactly (is_old settings.alert_retention_days now) _ db.alerts
            (is_old-Within settings.alert_retention_days now);
    }

again_nothing :
    (settings : Settings) (context : Context) (again : Bool) (db : Db)
    → (retention settings context again (retention settings context true db).1).0 ≡ nothing_left
unfolding retention delete_expired delete_users delete_old_alerts record_event
again_nothing settings context again db =
    let now = context.now in
    let users = is_inactive settings.user_retention_days now in
    let old = is_old settings.alert_retention_days now in
    let cascade : UserSession → Bool = (λ s. not (gone users db.users s.user_id)) in
    all_zero (ap length (keep-keep-not (session_expired now) cascade db.sessions))
      (ap length (keep-keep-not_all (sign_in_expired now) db.login_requests))
      (ap length (keep-keep-not_all users db.users)) (ap length (keep-keep-not_all old db.alerts))

-- A run leaves of the alerts and of the users exactly those that are within their retention, if
-- there is one, an alert by when it was created and a user by the last sign-in; of the sign-ins in
-- progress those that have not expired; and of the memberships and sessions those of no user that is
-- deleted, a session only if it has not expired either. A dry run changes nothing and reports what
-- the real run would; and another run at the same time, dry or not, finds nothing to delete.
pub retention-retention :
    (settings : Settings) (context : Context) (again : Bool) (db : Db)
    → Retains settings context.now db (retention settings context true db).1
      × (retention settings context false db ≡ ((retention settings context true db).0, db))
      × ((retention settings context again (retention settings context true db).1).0 ≡ nothing_left)
unfolding retention
retention-retention settings context again db =
    (retention-Retains settings context db, refl, again_nothing settings context again db)
