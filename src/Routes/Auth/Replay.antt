-- ===== src/Routes/Auth/Replay.antt =====
-- `callback` of apps/api/app/routes/auth.py signs in at most once for a state, and only the browser
-- that the state was given to.
use triage_assistant.Prelude.{
  subst, ℕ, ◌≤◌, String, ◌≡◌, refl, ◌∙◌, sym, ap, inl, inr, Bool, false, not, Option, none, some,
  List, [], ◌∷◌, Bool-cases, arith, lookup, find, keep, str_eq, any,
}
use triage_assistant.Settings.{Settings}
use triage_assistant.Models.{User, Db, LoginRequest}
use triage_assistant.Access.Claims.{access_from_claims}
use triage_assistant.Access.Group.{Role}
use triage_assistant.Sessions.Login.{usable, finish_login}
use triage_assistant.Sessions.Login.Once.{find-keep-not, earlier}
use triage_assistant.Sessions.SignIn.{
  is_account, Identity, insert_teams, upserted, upsert_user, sign_in, open_session,
}
use triage_assistant.Sessions.Active.{sign_out}
use triage_assistant.Sessions.Request.{Request, non_empty}
use triage_assistant.Routes.Auth.{
  session_cookie, Returned, Verified, refused, verified, end_old, complete, resume, bound,
  other_issuer, exchange, answered, callback,
}

requests-insert_teams :
    (roles : List (String × Role)) (db : Db)
    → (insert_teams roles db).login_requests ≡ db.login_requests
unfolding insert_teams
requests-insert_teams [] db = refl
requests-insert_teams ((slug, role) ∷ roles) db =
    elim (Bool-cases (any (λ t. str_eq t.slug slug) db.teams)) [
      | inl e ↦ rw e (requests-insert_teams roles db)
      | inr e ↦ rw e (requests-insert_teams roles _)
    ]

requests-upserted :
    (now : ℕ) (issuer : String) (identity : Identity) (org_admin : Bool) (db : Db) (o : Option User)
    → (upserted now issuer identity org_admin db o).1.login_requests ≡ db.login_requests
unfolding upserted
requests-upserted now issuer identity org_admin db none = refl
requests-upserted now issuer identity org_admin db (some u) = refl

requests-sign_in :
    (digest : String → String) (settings : Settings) (now : ℕ) (token issuer : String)
    (identity : Identity) (db : Db)
    → (sign_in digest settings now token issuer identity db).1.login_requests ≡ db.login_requests
unfolding sign_in open_session upsert_user
requests-sign_in digest settings now token issuer identity db =
    let access = access_from_claims identity.groups in
    let user = find (is_account issuer identity.subject) db.users in
    requests-insert_teams access.roles (upsert_user now issuer identity access.org_admin db).1
    ∙ requests-upserted now issuer identity access.org_admin db user

module _ (quote : String → String) (digest : String → String)
    (identify : String → String → String → Verified) (settings : Settings) where
  requests-end_old :
      (old : Option String) (db : Db)
      → (end_old quote digest identify settings old db).login_requests ≡ db.login_requests
  unfolding end_old sign_out
  requests-end_old none db = refl
  requests-end_old (some t) db = refl

  requests-complete :
      (now : ℕ) (token : String) (old : Option String) (pending : LoginRequest) (v : Verified)
      (db : Db)
      → (complete quote digest identify settings now token old pending v db).1.login_requests
        ≡ db.login_requests
  unfolding complete
  requests-complete now token old pending (refused e) db = refl
  requests-complete now token old pending (verified i) db =
      requests-sign_in digest settings now token settings.oidc_issuer i _ ∙ requests-end_old old db

  requests-resume :
      (now : ℕ) (token code : String) (old : Option String) (o : Option LoginRequest) (db : Db)
      → (resume quote digest identify settings now token code old (o, db)).1.login_requests
        ≡ db.login_requests
  unfolding resume
  requests-resume now token code old none db = refl
  requests-resume now token code old (some pending) db =
      requests-complete now token old pending (identify code pending.code_verifier pending.nonce) db

  -- What signing in may change.
  abbrev pub SameAccounts : Db → Db → Type 0
  SameAccounts a b =
      (a.sessions ≡ b.sessions) × (a.users ≡ b.users) × (a.memberships ≡ b.memberships)

  resume-none :
      (now : ℕ) (token code : String) (old : Option String) (o : Option LoginRequest) (db : Db)
      → o ≡ none
      → SameAccounts (resume quote digest identify settings now token code old (o, db)).1 db
  unfolding resume
  resume-none now token code old none db e = (refl, refl, refl)
  resume-none now token code old (some p) db e = absurd (ground (arith, e))

  exchange_used :
      (now : ℕ) (token : String) (request : Request) (code state : String) (db : Db)
      → find (usable digest now state) db.login_requests ≡ none
      → SameAccounts
          (exchange quote digest identify settings now token request (some (code, state)) db).1
          db
  unfolding exchange finish_login
  exchange_used now token request code state db e =
      resume-none now token code (non_empty (lookup (session_cookie settings) request.cookies))
        (find (usable digest now state) db.login_requests) _ e

  answered_used :
      (now : ℕ) (token : String) (request : Request) (r : Returned) (error : Option String)
      (code state : String) (db : Db)
      → bound quote digest identify settings request r ≡ some (code, state)
      → find (usable digest now state) db.login_requests ≡ none
      → SameAccounts (answered quote digest identify settings now token request r error db).1 db
  unfolding answered
  answered_used now token request r (some error) code state db b e = (refl, refl, refl)
  answered_used now token request r none code state db b e =
      subst
        (λ o. SameAccounts (exchange quote digest identify settings now token request o db).1 db)
        (sym b) (exchange_used now token request code state db e)

  callback_used :
      (now : ℕ) (token : String) (request : Request) (r : Returned) (code state : String) (db : Db)
      → bound quote digest identify settings request r ≡ some (code, state)
      → find (usable digest now state) db.login_requests ≡ none
      → SameAccounts (callback quote digest identify settings now token request r db).1 db
  unfolding callback
  callback_used now token request r code state db b e =
      elim (Bool-cases (other_issuer quote digest identify settings r.iss)) [
        | inl i ↦ rw i (refl, refl, refl)
        | inr i ↦ rw i (answered_used now token request r r.error code state db b e)
      ]

  requests-callback :
      (now : ℕ) (token : String) (request : Request) (r : Returned) (code state : String) (db : Db)
      → other_issuer quote digest identify settings r.iss ≡ false
      → r.error ≡ none
      → bound quote digest identify settings request r ≡ some (code, state)
      → (callback quote digest identify settings now token request r db).1.login_requests
        ≡ keep (λ q. not (usable digest now state q)) db.login_requests
  unfolding callback answered exchange finish_login
  requests-callback now token request r code state db i n b =
      rw (i, n, b)
        (requests-resume now token code
          (non_empty (lookup (session_cookie settings) request.cookies))
          (find (usable digest now state) db.login_requests)
          (record db {
            login_requests = keep (λ q. not (usable digest now state q)) db.login_requests;
          }))

  -- A state that a callback has used signs nobody in again: sent a second time, by any browser and
  -- with any code, it changes no session, user or membership.
  pub callback_twice :
      (now later : ℕ) (token token' : String) (request request' : Request) (r r' : Returned)
      (code code' state : String) (db : Db)
      → other_issuer quote digest identify settings r.iss ≡ false
      → r.error ≡ none
      → bound quote digest identify settings request r ≡ some (code, state)
      → bound quote digest identify settings request' r' ≡ some (code', state)
      → now ≤ later
      → SameAccounts
          (callback quote digest identify settings later token' request' r'
            (callback quote digest identify settings now token request r db).1).1
          (callback quote digest identify settings now token request r db).1
  callback_twice now later token token' request request' r r' code code' state db i n b b' h =
      callback_used later token' request' r' code' state
        (callback quote digest identify settings now token request r db).1 b'
        (ap (find (usable digest later state))
            (requests-callback now token request r code state db i n b)
          ∙ find-keep-not (usable digest now state) (usable digest later state) db.login_requests
              (λ y. earlier digest now later state y h))
