-- ===== src/Sessions/Login/Once.antt =====
-- A sign-in comes back with what it was started with, once: `start_login` and `finish_login` of
-- apps/api/app/sessions.py.
use triage_assistant.Prelude.{
  some-injective, subst, ℕ, ◌+◌, ◌*◌, ◌≤◌, ◌<◌, String, ◌≡◌, refl, inl, inr, Bool, true, false, not,
  none, some, List, [], ◌∷◌, ◌++◌, eq_refl, find, keep, any, Bool-cases, arith,
}
use triage_assistant.Models.{Db, LoginRequest, second}
use triage_assistant.Sessions.Login.{
  login_ttl_s, unexpired, has_state, new_request, start_login, usable, finish_login,
}

find-append_none {ℓ} :
    {A : Type ℓ} (p q : A → Bool) (x : A) (xs : List A)
    → ((y : A) → q y ≡ false → p y ≡ false)
    → any q xs ≡ false
    → p x ≡ true
    → find p (xs ++ x ∷ []) ≡ some x
find-append_none p q x [] f h e = rw e refl
find-append_none p q x (y ∷ ys) f h e = elim (Bool-cases (q y)) [
  | inl k ↦ absurd (ground (arith, k))
  | inr k ↦ rw (f y k) (find-append_none p q x ys f (ground (arith, k)) e)
]

pub find-keep-not {ℓ} :
    {A : Type ℓ} (p q : A → Bool) (xs : List A)
    → ((y : A) → q y ≡ true → p y ≡ true)
    → find q (keep (λ y. not (p y)) xs) ≡ none
find-keep-not p q [] f = refl
find-keep-not p q (y ∷ ys) f = elim (Bool-cases (p y)) [
  | inl e ↦ rw e (find-keep-not p q ys f)
  | inr e ↦ rw e (elim (Bool-cases (q y)) [
    | inl k ↦ absurd (ground (arith, e, k, f y k))
    | inr k ↦ rw k (find-keep-not p q ys f)
  ])
]

module _ (digest : String → String) where
  pub earlier :
      (later again : ℕ) (state : String) (r : LoginRequest)
      → later ≤ again
      → usable digest again state r ≡ true
      → usable digest later state r ≡ true
  earlier later again state r h k = ground (arith, k)

  module _ (now later again : ℕ) (state nonce code_verifier next_path : String) where
    abbrev Once : Db → Type 0
    Once db =
        ((finish_login digest later state db).0
          ≡ some (new_request digest now state nonce code_verifier next_path))
        × ((finish_login digest again state (finish_login digest later state db).1).0 ≡ none)

    -- A sign-in that was started is finished by its state within ten minutes, with the nonce,
    -- verifier and path it was started with; from then on that state finishes no sign-in.
    pub finish_login-start_login :
        (db db' : Db)
        → start_login digest now state nonce code_verifier next_path db ≡ some db'
        → later < now + login_ttl_s * second
        → later ≤ again
        → ((finish_login digest later state db').0
            ≡ some (new_request digest now state nonce code_verifier next_path))
          × ((finish_login digest again state (finish_login digest later state db').1).0 ≡ none)
    unfolding start_login finish_login
    finish_login-start_login db db' h hl hg =
        let kept = keep (unexpired now) db.login_requests in
        elim (Bool-cases (any (has_state digest state) kept)) [
          | inl e ↦ absurd (started e)
          | inr e ↦ subst Once (some-injective _ _ (rw e at h)) (
            find-append_none (usable digest later state) (has_state digest state) _ kept
                (λ y k. ground (arith, k)) e usable_new,
            find-keep-not (usable digest later state) (usable digest again state) _
                (λ y. earlier later again state y hg),
          )
        ]
      where
        started : ¬ (any (has_state digest state) (keep (unexpired now) db.login_requests) ≡ true)
        started e = ground (arith, (rw e at h))

        usable_new :
            usable digest later state (new_request digest now state nonce code_verifier next_path)
            ≡ true
        usable_new = rw eq_refl (ground (arith, hl))
