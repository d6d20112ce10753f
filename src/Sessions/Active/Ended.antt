-- ===== src/Sessions/Active/Ended.antt =====
-- `sign_out` and `sign_out_everywhere` of apps/api/app/sessions.py end sessions.
use triage_assistant.Prelude.{
  find_holds, some-injective, subst, Option-cases, eq_iff, str_eq, ◌==◌, ℕ, ◌≡◌, refl, ◌∙◌, sym, ap,
  inl, inr, Bool, true, false, not, ◌≢◌, Option, none, some, List, [], ◌∷◌, String, find, keep,
  Bool-cases, arith,
}
use triage_assistant.Settings.{Settings}
use triage_assistant.Models.{Db, User, UserSession}
use triage_assistant.Access.Roles.{Principal}
use triage_assistant.Sessions.Active.{
  has_token, principal_of, with_user, paired, opens, authenticated, authenticate, sign_out,
  sign_out_everywhere,
}

find-keep_other {ℓ} :
    {A : Type ℓ} (p q : A → Bool) (xs : List A)
    → ((x : A) → q x ≡ true → p x ≡ false)
    → find q (keep (λ x. not (p x)) xs) ≡ find q xs
find-keep_other p q [] f = refl
find-keep_other p q (x ∷ xs) f = elim (Bool-cases (p x)) [
  | inl e ↦ rw e (elim (Bool-cases (q x)) [
    | inl k ↦ absurd (ground (arith, e, k, f x k))
    | inr k ↦ rw k (find-keep_other p q xs f)
  ])
  | inr e ↦
      rw e (elim (Bool-cases (q x)) [ inl k ↦ rw k refl | inr k ↦ rw k (find-keep_other p q xs f) ])
]

find-keep_gone {ℓ} :
    {A : Type ℓ} (p q : A → Bool) (xs : List A)
    → ((x : A) → q x ≡ true → p x ≡ true)
    → find q (keep (λ x. not (p x)) xs) ≡ none
find-keep_gone p q [] f = refl
find-keep_gone p q (x ∷ xs) f = elim (Bool-cases (p x)) [
  | inl e ↦ rw e (find-keep_gone p q xs f)
  | inr e ↦ rw e (elim (Bool-cases (q x)) [
    | inl k ↦ absurd (ground (arith, e, k, f x k))
    | inr k ↦ rw k (find-keep_gone p q xs f)
  ])
]

find-keep_holds {ℓ} :
    {A : Type ℓ} (p q : A → Bool) (xs : List A) (x : A) → find q (keep p xs) ≡ some x → p x ≡ true
find-keep_holds p q [] x h = ground arith
find-keep_holds p q (y ∷ xs) x h = elim (Bool-cases (p y)) [
  | inl e ↦ elim (Bool-cases (q y)) [
    | inl k ↦ subst (λ z. p z ≡ true) (some-injective _ _ (rw (e, k) at h)) e
    | inr k ↦ find-keep_holds p q xs x (rw (e, k) at h)
  ]
  | inr e ↦ find-keep_holds p q xs x (rw e at h)
]

-- Whoever is accepted, if anyone is, is another user.
abbrev pub Another : ℕ → Option Principal → Type 0
Another user_id none = Unit
Another user_id (some p) = p.user_id ≢ user_id

module _ (before : String → String → Bool) (digest : String → String) (settings : Settings) where
  abbrev answer : ℕ → String → Db → Option UserSession → Option Principal
  answer now token db o = (authenticated before digest settings now token db (with_user db o)).0

  paired_same :
      (now : ℕ) (token : String) (db : Db) (ss : List UserSession) (s : UserSession)
      (o : Option User)
      → (authenticated before digest settings now token
          (record db { sessions = ss })
          (paired s o)).0
        ≡ (authenticated before digest settings now token db (paired s o)).0
  unfolding authenticated paired principal_of
  paired_same now token db ss s none = refl
  paired_same now token db ss s (some u) = refl

  -- The answer does not depend on the other sessions.
  answer_same :
      (now : ℕ) (token : String) (db : Db) (ss : List UserSession) (o : Option UserSession)
      → answer now token (record db { sessions = ss }) o ≡ answer now token db o
  unfolding authenticated with_user
  answer_same now token db ss none = refl
  answer_same now token db ss (some s) =
      paired_same now token db ss s (find (λ u. u.id == s.user_id) db.users)

  authenticate-sign_out :
      (now : ℕ) (token other : String) (db : Db)
      → str_eq (digest other) (digest token) ≡ false
      → ((authenticate before digest settings now token (sign_out digest token db).1).0 ≡ none)
        × ((authenticate before digest settings now other (sign_out digest token db).1).0
            ≡ (authenticate before digest settings now other db).0)
  unfolding authenticate authenticated with_user sign_out opens
  authenticate-sign_out now token other db d = (
    answer_same now token db _ _
        ∙ ap (answer now token db) (
            find-keep_gone (has_token digest token) (opens before digest settings now token)
              db.sessions (λ s h. ground (arith, h))),
    answer_same now other db _ _
        ∙ ap (answer now other db) (
            find-keep_other (has_token digest token) (opens before digest settings now other)
              db.sessions
              (λ s h. ground (
                arith,
                h,
                d,
                eq_iff s.id_hash (digest token),
                eq_iff s.id_hash (digest other),
                eq_iff (digest other) (digest token),
              ))),
  )

  paired_user :
      (now : ℕ) (token : String) (db : Db) (s : UserSession) (o : Option User) (p : Principal)
      → (authenticated before digest settings now token db (paired s o)).0 ≡ some p
      → (u : User) × (o ≡ some u) × (u.id ≡ p.user_id)
  unfolding authenticated paired principal_of
  paired_user now token db s none p h = absurd (ground (arith, h))
  paired_user now token db s (some u) p h = (u, refl, ap (λ q. q.user_id) (some-injective _ _ h))

  answered :
      (now user_id : ℕ) (token : String) (db : Db) (p : Principal) (s : UserSession)
      → (s.user_id == user_id) ≡ false
      → answer now token db (some s) ≡ some p
      → p.user_id ≢ user_id
  unfolding with_user
  answered now user_id token db p s k h e =
      let (u, f, id) = paired_user now token db s (find (λ u. u.id == s.user_id) db.users) p h in
      let same = find_holds (λ u. u.id == s.user_id) db.users u f in ground (arith, k, id, same, e)

  authenticate-sign_out_everywhere :
      (now user_id : ℕ) (token : String) (db : Db) (o : Option Principal)
      → (authenticate before digest settings now token (sign_out_everywhere user_id db).1).0 ≡ o
      → Another user_id o
  unfolding authenticate sign_out_everywhere authenticated with_user
  authenticate-sign_out_everywhere now user_id token db none h = tt
  authenticate-sign_out_everywhere now user_id token db (some p) h =
      let ss = keep (λ s. not (s.user_id == user_id)) db.sessions in
      let h' =
        sym (answer_same now token db ss (find (opens before digest settings now token) ss)) ∙ h in
      elim (Option-cases (find (opens before digest settings now token) ss)) [
        | inl f ↦ λ e. absurd (nobody (sym (ap (answer now token db) f) ∙ h'))
        | inr (s, f) ↦
            answered now user_id token db p s
              (ground (arith, find-keep_holds (λ s. not (s.user_id == user_id)) _ db.sessions s f))
              (sym (ap (answer now token db) f) ∙ h')
      ]
    where
      nobody : ¬ (answer now token db none ≡ some p)
      nobody k = ground (arith, k)

  -- After signing out, the session's token is accepted at no time, and a token with another hash is
  -- answered as it was before; after every session of a user was ended, whatever token is accepted,
  -- at any time, is accepted for another user.
  pub authenticate_ended :
      (now user_id : ℕ) (token other : String) (db : Db)
      → str_eq (digest other) (digest token) ≡ false
      → ((authenticate before digest settings now token (sign_out digest token db).1).0 ≡ none)
        × ((authenticate before digest settings now other (sign_out digest token db).1).0
            ≡ (authenticate before digest settings now other db).0)
        × Another user_id
            (authenticate before digest settings now token (sign_out_everywhere user_id db).1).0
  authenticate_ended now user_id token other db d =
      let (ended, same) = authenticate-sign_out now token other db d in
      (ended, same, authenticate-sign_out_everywhere now user_id token db _ refl)
