-- ===== src/Privacy/Erased.antt =====
-- `forget` of apps/api/app/privacy.py erases a person and leaves the audit trail.
use triage_assistant.Prelude.{
  append-append, append_nil, All-keep, All-keep_of_All, All-pair, subst, All-map, All, keep_no,
  keep_yes, keep_every, ℕ, ◌≡◌, refl, ◌∙◌, sym, ap, inl, inr, Bool, true, false, not, ◌&&◌, List,
  [], ◌∷◌, ◌++◌, keep, any, Bool-cases, arith, ◌==◌, String,
}
use triage_assistant.Models.{Db, User}
use triage_assistant.Audit.{Context, record_event}
use triage_assistant.Privacy.{has_email, gone, delete_users, forget_user, forget_users, forget}

-- The ids of some users.
abbrev pub among : List User → ℕ → Bool
among users id = any (λ u. u.id == id) users

keep-keep {ℓ} :
    {A : Type ℓ} (p q r : A → Bool) (xs : List A)
    → ((x : A) → r x ≡ (p x && q x))
    → keep q (keep p xs) ≡ keep r xs
keep-keep p q r [] e = refl
keep-keep p q r (x ∷ xs) e = elim (Bool-cases (p x)) [
  | inl h ↦ elim (Bool-cases (q x)) [
    | inl k ↦
        rw (h, k)
          (sym
            (keep_yes r x xs (e x ∙ rw (h, k) refl) ∙ ap (λ t. x ∷ t) (sym (keep-keep p q r xs e))))
    | inr k ↦ rw (h, k) (keep-keep p q r xs e ∙ sym (keep_no r x xs (e x ∙ rw (h, k) refl)))
  ]
  | inr h ↦ rw h (keep-keep p q r xs e ∙ sym (keep_no r x xs (e x ∙ rw h refl)))
]

users-forget_users :
    (context : Context) (users : List User) (db : Db)
    → (forget_users context users db).1.users ≡ keep (λ u. not (among users u.id)) db.users
unfolding forget_users forget_user delete_users record_event
users-forget_users context [] db = sym (keep_every _ db.users (λ u. refl))
users-forget_users context (v ∷ users) db =
    users-forget_users context users _
    ∙ keep-keep (λ u. not (u.id == v.id)) (λ u. not (among users u.id))
        (λ u. not (among (v ∷ users) u.id)) db.users (λ u. ground arith)

-- Every session and membership names a user that is there, as the foreign keys have it.
abbrev pub Referential : Db → Type 0
Referential db =
    All (λ s. among db.users s.user_id ≡ true) db.sessions
    × All (λ m. among db.users m.user_id ≡ true) db.memberships

still_there :
    (p : User → Bool) (users : List User) (id : ℕ)
    → among users id ≡ true
    → not (gone p users id) ≡ true
    → among (keep (λ u. not (p u)) users) id ≡ true
unfolding gone
still_there p [] id h k = h
still_there p (u ∷ users) id h k = ground (arith, h, k, still_there p users id)

refer {ℓ} :
    {A : Type ℓ} (user_of : A → ℕ) (p : User → Bool) (users : List User) (xs : List A)
    → All (λ x. among users (user_of x) ≡ true) xs
    → All
        (λ x. among (keep (λ u. not (p u)) users) (user_of x) ≡ true)
        (keep (λ x. not (gone p users (user_of x))) xs)
refer {A = A} user_of p users xs h =
    let kept = (λ (x : A). not (gone p users (user_of x))) in
    All-map (λ x. (among users (user_of x) ≡ true) × (kept x ≡ true)) _ (keep kept xs)
      (λ x k. still_there p users (user_of x) k.0 k.1)
      (All-pair (λ x. among users (user_of x) ≡ true) (λ x. kept x ≡ true) (keep kept xs)
        (All-keep_of_All (λ x. among users (user_of x) ≡ true) kept xs h) (All-keep kept xs))

forget_users-Referential :
    (context : Context) (users : List User) (db : Db)
    → Referential db
    → Referential (forget_users context users db).1
unfolding forget_users forget_user delete_users record_event
forget_users-Referential context [] db h = h
forget_users-Referential context (v ∷ users) db h = forget_users-Referential context users _ (
  refer (λ s. s.user_id) (λ u. u.id == v.id) db.users db.sessions h.0,
  refer (λ m. m.user_id) (λ u. u.id == v.id) db.users db.memberships h.1,
)

-- One list begins with another.
abbrev pub Prefix {ℓ} : {A : Type ℓ} → List A → List A → Type ℓ
Prefix {A = A} xs ys = (zs : List A) × (ys ≡ xs ++ zs)

Prefix_trans {ℓ} :
    {A : Type ℓ} (xs : List A) {ys zs : List A} → Prefix xs ys → Prefix ys zs → Prefix xs zs
Prefix_trans xs (a, e) (b, f) = (a ++ b, f ∙ ap (λ t. t ++ b) e ∙ append-append xs a b)

events-forget_users :
    (context : Context) (users : List User) (db : Db)
    → Prefix db.audit_events (forget_users context users db).1.audit_events
unfolding forget_users forget_user delete_users record_event
events-forget_users context [] db = ([], append_nil db.audit_events)
events-forget_users context (v ∷ users) db =
    Prefix_trans db.audit_events (_, refl)
      (events-forget_users context users (forget_user context v db).1)

widen :
    (p : User → Bool) (x : User) (xs : List User) (id : ℕ)
    → among (keep p xs) id ≡ true
    → among (keep p (x ∷ xs)) id ≡ true
widen p x xs id h = elim (Bool-cases (p x)) [ inl e ↦ rw e (ground (arith, h)) | inr e ↦ rw e h ]

caught :
    (p : User → Bool) (xs : List User) → All (λ u. p u ≡ true → among (keep p xs) u.id ≡ true) xs
caught p [] = tt
caught p (x ∷ xs) =
    (λ e. rw e (ground arith), All-map _ _ xs (λ u f e. widen p x xs u.id (f e)) (caught p xs))

spared :
    (p : User → Bool) (u : User) (b : Bool) → (p u ≡ true → b ≡ true) → not b ≡ true → p u ≡ false
spared p u b f h = elim (Bool-cases (p u)) [ inl e ↦ absurd (ground (arith, f e, h)) | inr e ↦ e ]

none_left :
    (p : User → Bool) (users : List User)
    → All (λ u. p u ≡ false) (keep (λ u. not (among (keep p users) u.id)) users)
none_left p users =
    let us = keep p users in
    let q : User → Bool = (λ u. not (among us u.id)) in
    All-map (λ u. (p u ≡ true → among us u.id ≡ true) × (q u ≡ true)) _ (keep q users)
      (λ u k. spared p u (among us u.id) k.0 k.1)
      (All-pair (λ u. p u ≡ true → among us u.id ≡ true) (λ u. q u ≡ true) (keep q users)
        (All-keep_of_All (λ u. p u ≡ true → among us u.id ≡ true) q users (caught p users))
        (All-keep q users))

-- No user has the email any more.
pub forget-Gone :
    (context : Context) (email : String) (db : Db)
    → All (λ u. has_email email u ≡ false) (forget context email true db).1.users
unfolding forget
forget-Gone context email db =
    subst (All (λ u. has_email email u ≡ false))
      (sym (users-forget_users context (keep (has_email email) db.users) db))
      (none_left (has_email email) db.users)

-- Where every session and membership names a user that is there: after an erasure no user has the
-- email, every session and membership still names one that is there, and the audit trail begins
-- with all the events it had. A dry run changes nothing and reports the same.
pub forget-Erased :
    (context : Context) (email : String) (db : Db)
    → Referential db
    → All (λ u. has_email email u ≡ false) (forget context email true db).1.users
      × Referential (forget context email true db).1
      × Prefix db.audit_events (forget context email true db).1.audit_events
      × (forget context email false db ≡ ((forget context email true db).0, db))
unfolding forget
forget-Erased context email db h =
    let us = keep (has_email email) db.users in
    (
      forget-Gone context email db,
      forget_users-Referential context us db h,
      events-forget_users context us db,
      refl,
    )
