-- ===== src/Sessions/Active/Alive.antt =====
-- `authenticate` of apps/api/app/sessions.py keeps a session that is used alive.
use triage_assistant.Prelude.{
  Option-cases, ◌==◌, find_holds, eq_iff, All-map, some-injective, All, subst, ℕ, ◌+◌, ◌*◌, ◌/◌,
  ◌≤◌, ◌<◌, String, ◌≡◌, refl, ◌∙◌, sym, ap, inl, inr, Bool, true, false, none, some, List, [], ◌∷◌,
  str_eq, if◌then◌else◌, find, Bool-cases, arith,
}
use triage_assistant.Settings.{Settings}
use triage_assistant.Models.{Db, User, UserSession, second}
use triage_assistant.Access.Roles.{Principal}
use triage_assistant.Sessions.Active.{
  touch_interval_s, has_token, live, stale, principal_of, with_user, paired, seen_at, touch, opens,
  authenticated, authenticate,
}

-- The token's hash is the table's primary key.
abbrev pub Keyed : List UserSession → Type 0
Keyed [] = Unit
Keyed (s ∷ ss) = All (λ r. str_eq r.id_hash s.id_hash ≡ false) ss × Keyed ss

find-none {ℓ} :
    {A : Type ℓ} (p : A → Bool) (xs : List A) → All (λ x. p x ≡ false) xs → find p xs ≡ none
find-none p [] h = refl
find-none p (x ∷ xs) h = rw h.0 (find-none p xs h.1)

module _ (before : String → String → Bool) (digest : String → String) (settings : Settings) where
  -- A session still opens later, if it was seen within the touch interval.
  opens_later :
      (now later : ℕ) (token : String) (s : UserSession)
      → opens before digest settings now token s ≡ true
      → now ≤ later
      → later < s.expires_at
      → later + touch_interval_s settings * second < now + settings.session_idle_timeout_s * second
      → opens before digest settings later token (seen_at now s) ≡ true
  unfolding opens live
  opens_later now later token s h hn he hi = ground (arith, h)

  opens_fresh :
      (now later : ℕ) (token : String) (s : UserSession)
      → opens before digest settings now token s ≡ true
      → now ≤ later
      → later < s.expires_at
      → later + touch_interval_s settings * second < now + settings.session_idle_timeout_s * second
      → stale settings now s ≡ false
      → opens before digest settings later token s ≡ true
  unfolding opens live stale
  opens_fresh now later token s h hn he hi hs = ground (arith, h)

  none-opens :
      (now : ℕ) (token : String) (x : UserSession) (ss : List UserSession)
      → has_token digest token x ≡ true
      → All (λ r. str_eq r.id_hash x.id_hash ≡ false) ss
      → find (opens before digest settings now token) ss ≡ none
  unfolding opens
  none-opens now token x ss h k = find-none (opens before digest settings now token) ss (
      All-map _ _ ss
        (λ r e. ground (
          arith,
          h,
          e,
          eq_iff x.id_hash (digest token),
          eq_iff r.id_hash (digest token),
          eq_iff r.id_hash x.id_hash,
        ))
        k)

  -- The one session with a token's hash is the one that is found, so it is live.
  not_dead :
      (now : ℕ) (token : String) (x : UserSession) (ss : List UserSession) (s : UserSession)
      → has_token digest token x ≡ true
      → live settings now x ≡ false
      → All (λ r. str_eq r.id_hash x.id_hash ≡ false) ss
      → ¬ (find (opens before digest settings now token) (x ∷ ss) ≡ some s)
  unfolding opens
  not_dead now token x ss s e l u h =
      let k = none-opens now token x ss e u in let h' = (rw (e, l, k) at h) in ground (arith, h')

  find-touch :
      (now later : ℕ) (token : String) (ss : List UserSession) (s : UserSession)
      → Keyed ss
      → find (opens before digest settings now token) ss ≡ some s
      → opens before digest settings later token (seen_at now s) ≡ true
      → find (opens before digest settings later token) (touch digest now token ss)
        ≡ some (seen_at now s)
  unfolding touch opens
  find-touch now later token [] s u h hl = ground arith
  find-touch now later token (x ∷ ss) s u h hl = elim (Bool-cases (has_token digest token x)) [
    | inl e ↦ elim (Bool-cases (live settings now x)) [
      | inl l ↦ rw e (
          subst
            (λ y.
              opens before digest settings later token (seen_at now y) ≡ true
              → find (opens before digest settings later token)
                  (seen_at now x ∷ touch digest now token ss)
                ≡ some (seen_at now y))
            (some-injective _ _ (rw (e, l) at h)) (λ k. rw k refl) hl)
      | inr l ↦ absurd (not_dead now token x ss s e l u.0 h)
    ]
    | inr e ↦ rw (e, e) (find-touch now later token ss s u.1 (rw e at h) hl)
  ]

  find-later :
      (now later : ℕ) (token : String) (ss : List UserSession) (s : UserSession)
      → Keyed ss
      → find (opens before digest settings now token) ss ≡ some s
      → opens before digest settings later token s ≡ true
      → find (opens before digest settings later token) ss ≡ some s
  unfolding opens
  find-later now later token [] s u h hl = ground arith
  find-later now later token (x ∷ ss) s u h hl = elim (Bool-cases (has_token digest token x)) [
    | inl e ↦ elim (Bool-cases (live settings now x)) [
      | inl l ↦
          subst
            (λ y.
              opens before digest settings later token y ≡ true
              → find (opens before digest settings later token) (x ∷ ss) ≡ some y)
            (some-injective _ _ (rw (e, l) at h)) (λ k. rw k refl) hl
      | inr l ↦ absurd (not_dead now token x ss s e l u.0 h)
    ]
    | inr e ↦ rw e (find-later now later token ss s u.1 (rw e at h) hl)
  ]

  abbrev after : ℕ → String → UserSession → Db → Db
  after now token s db =
      if stale settings now s
      then record db { sessions = touch digest now token db.sessions }
      else db

  authenticate_found :
      (now : ℕ) (token : String) (db : Db) (s : UserSession) (v : User)
      → find (opens before digest settings now token) db.sessions ≡ some s
      → find (λ u. u.id == s.user_id) db.users ≡ some v
      → authenticate before digest settings now token db
        ≡ (some (principal_of before db v), after now token s db)
  unfolding authenticate authenticated with_user paired
  authenticate_found now token db s v h k =
      ap (λ o. authenticated before digest settings now token db (with_user db o)) h
      ∙ ap (λ o. authenticated before digest settings now token db (paired s o)) k

  unknown_user :
      (now : ℕ) (token : String) (db : Db) (s : UserSession)
      → find (opens before digest settings now token) db.sessions ≡ some s
      → find (λ u. u.id == s.user_id) db.users ≡ none
      → (authenticate before digest settings now token db).0 ≡ none
  unfolding authenticate authenticated with_user paired
  unknown_user now token db s h k =
      ap (λ o. (authenticated before digest settings now token db (with_user db o)).0) h
      ∙ ap (λ o. (authenticated before digest settings now token db (paired s o)).0) k

  reopens :
      (now later : ℕ) (token : String) (db : Db) (s : UserSession) (v : User)
      → Keyed db.sessions
      → find (opens before digest settings now token) db.sessions ≡ some s
      → find (λ u. u.id == s.user_id) db.users ≡ some v
      → (stale settings now s ≡ false → opens before digest settings later token s ≡ true)
      → opens before digest settings later token (seen_at now s) ≡ true
      → (authenticate before digest settings later token (after now token s db)).0
        ≡ some (principal_of before db v)
  unfolding principal_of
  reopens now later token db s v u f k o hl = elim (Bool-cases (stale settings now s)) [
    | inl e ↦ rw e (
        ap (λ r. r.0)
          (authenticate_found later token
            (record db { sessions = touch digest now token db.sessions }) (seen_at now s) v
            (find-touch now later token db.sessions s u f hl) k))
    | inr e ↦ rw e (
        ap (λ r. r.0)
          (authenticate_found later token db s v
            (find-later now later token db.sessions s u f (o e)) k))
  ]

  -- In a table where the token's hash is a key: a token that is accepted is accepted again, for the
  -- same principal, until the session expires or it was not used for nine tenths of the idle timeout.
  pub authenticate-authenticate :
      (now later : ℕ) (token : String) (db : Db) (s : UserSession) (p : Principal)
      → Keyed db.sessions
      → find (opens before digest settings now token) db.sessions ≡ some s
      → (authenticate before digest settings now token db).0 ≡ some p
      → now ≤ later
      → later < s.expires_at
      → later + settings.session_idle_timeout_s / 10 * second
        < now + settings.session_idle_timeout_s * second
      → (authenticate before digest settings later token
          (authenticate before digest settings now token db).1).0
        ≡ some p
  unfolding touch_interval_s
  authenticate-authenticate now later token db s p u f a hn he hi =
      elim (Option-cases (find (λ v. v.id == s.user_id) db.users)) [
        | inl k ↦ absurd (unknown k)
        | inr (v, k) ↦
            let found = authenticate_found now token db s v f k in
            subst (λ r. (authenticate before digest settings later token r.1).0 ≡ some p)
              (sym found)
              (reopens now later token db s v u f k
                  (opens_fresh now later token s opened hn he late)
                  (opens_later now later token s opened hn he late)
                ∙ sym (ap (λ r. r.0) found)
                ∙ a)
      ]
    where
      opened : opens before digest settings now token s ≡ true
      opened = find_holds (opens before digest settings now token) db.sessions s f

      late :
          later + touch_interval_s settings * second
          < now + settings.session_idle_timeout_s * second
      late = omega (arith, hi)

      unknown : ¬ (find (λ v. v.id == s.user_id) db.users ≡ none)
      unknown k = ground (arith, sym (unknown_user now token db s f k) ∙ a)
