-- ===== src/Sessions/Request.antt =====
-- `current_principal` of apps/api/app/sessions.py: what every authenticated route starts with.
use triage_assistant.Prelude.{
  eq_iff, ◌∙◌, sym, subst, ap, ◌⊎◌, some-injective, ℕ, String, ◌≡◌, inl, inr, Bool, true, false,
  ◌||◌, Option, none, some, List, str_eq, if◌then◌else◌, is_empty, lookup, arith, Bool-cases,
  Option-cases,
}
use triage_assistant.Settings.{Settings}
use triage_assistant.Http.{>>=_ok, >>=_ok, ok-injective, err≢ok, Result, ok, err, http_error, ◌>>◌}
use triage_assistant.Models.{Db}
use triage_assistant.Access.Roles.{Principal}
use triage_assistant.Sessions.Cookies.{session_cookie}
use triage_assistant.Sessions.Origin.{Parts, check_same_origin, OriginOf, check_same_origin-origin}
use triage_assistant.Sessions.Active.{authenticate}

pub record Request : Type 0 where
  pub method : String
  pub cookies : List (String × String)
  pub origin : Option String

unfoldable pub is_safe : String → Bool
is_safe method = str_eq method "GET" || str_eq method "HEAD" || str_eq method "OPTIONS"

-- `a` if it is there and not empty.
unfoldable pub non_empty : Option String → Option String
non_empty none = none
non_empty (some a) = if is_empty a then none else some a

unfoldable pub signed_in : Option Principal × Db → Result (Principal × Db)
signed_in (none, db) = err (http_error 401 "session expired, sign in again")
signed_in (some p, db) = ok (p, db)

module _ (urlsplit : String → Option Parts) (before : String → String → Bool)
    (digest : String → String) (settings : Settings) where
  unfoldable pub guarded : ℕ → Request → Db → Option String → Result (Principal × Db)
  unfolding is_safe signed_in
  guarded now request db none = err (http_error 401 "sign in required")
  guarded now request db (some token) = do
    (if is_safe request.method then ok tt else check_same_origin urlsplit settings request.origin)
    signed_in (authenticate before digest settings now token db)

  unfoldable pub current_principal : ℕ → Request → Db → Result (Principal × Db)
  unfolding guarded non_empty
  current_principal now request db =
      guarded now request db (non_empty (lookup (session_cookie settings) request.cookies))

  -- A method that changes nothing.
  abbrev pub Reads : String → Type 0
  Reads method = (method ≡ "GET") ⊎ (method ≡ "HEAD") ⊎ (method ≡ "OPTIONS")

  -- An Origin header with the one origin that is the public URL's.
  abbrev pub FromOwn : Option String → Type 0
  FromOwn none = ⊥
  FromOwn (some sent) =
      (o : String) × OriginOf urlsplit sent o × OriginOf urlsplit settings.public_url o

  is_safe-Reads : (method : String) → is_safe method ≡ true → Reads method
  unfolding is_safe
  is_safe-Reads method h = elim (Bool-cases (str_eq method "GET")) [
    | inl e ↦ inl ((eq_iff method "GET").0 e)
    | inr e ↦ elim (Bool-cases (str_eq method "HEAD")) [
      | inl k ↦ inr (inl ((eq_iff method "HEAD").0 k))
      | inr k ↦ inr (inr ((eq_iff method "OPTIONS").0 (ground (arith, e, k, h))))
    ]
  ]

  checked-FromOwn :
      (own : String) (sent : Option String)
      → OriginOf urlsplit settings.public_url own
      → check_same_origin urlsplit settings sent ≡ ok tt
      → FromOwn sent
  unfolding check_same_origin
  checked-FromOwn own none has h = absurd (err≢ok _ tt h)
  checked-FromOwn own (some sent) has h =
      elim ((check_same_origin-origin urlsplit settings sent).0 h) [
        | inl same ↦ same
        | inr (neither, neither') ↦ absurd (neither' own has)
      ]

  -- How a request was let in.
  abbrev pub LetIn : ℕ → Request → Db → Principal → Db → Type 0
  LetIn now request db p db' =
      (token : String) × (lookup (session_cookie settings) request.cookies ≡ some token)
      × (is_empty token ≡ false)
      × (authenticate before digest settings now token db ≡ (some p, db'))
      × (Reads request.method ⊎ FromOwn request.origin)

  non_empty-some :
      (o : Option String) (token : String)
      → non_empty o ≡ some token
      → (o ≡ some token) × (is_empty token ≡ false)
  unfolding non_empty
  non_empty-some none token h = absurd (ground (arith, h))
  non_empty-some (some a) token h = elim (Bool-cases (is_empty a)) [
    | inl e ↦ absurd (ground (arith, (rw e at h)))
    | inr e ↦
        let k = some-injective _ _ (rw e at h) in (ap some k, subst (λ t. is_empty t ≡ false) k e)
  ]

  signed_in_ok :
      (r : Option Principal × Db) (p : Principal) (db' : Db)
      → signed_in r ≡ ok (p, db')
      → r ≡ (some p, db')
  unfolding signed_in
  signed_in_ok (none, db) p db' h = absurd (err≢ok _ _ h)
  signed_in_ok (some q, db) p db' h = ap (λ r. (some r.0, r.1)) (ok-injective _ _ h)

  -- Where the public URL is an origin, a request is let in only with a session cookie that is not
  -- empty and that authenticates the principal, and only with the method GET, HEAD or OPTIONS or
  -- with an Origin header that is the public URL's origin.
  pub current_principal_sound :
      (own : String) (now : ℕ) (request : Request) (db : Db) (p : Principal) (db' : Db)
      → OriginOf urlsplit settings.public_url own
      → current_principal now request db ≡ ok (p, db')
      → LetIn now request db p db'
  unfolding current_principal guarded
  current_principal_sound own now request db p db' has h =
      elim (Option-cases (non_empty (lookup (session_cookie settings) request.cookies))) [
        | inl e ↦ absurd (err≢ok _ _ (sym (ap (guarded now request db) e) ∙ h))
        | inr (token, e) ↦
            let (found, filled) = non_empty-some _ token e in
            let passed =
              if is_safe request.method
              then ok tt
              else check_same_origin urlsplit settings request.origin in
            let (_, checked, answered) =
              >>=_ok passed (λ _. signed_in (authenticate before digest settings now token db))
                (p, db') (sym (ap (guarded now request db) e) ∙ h) in
            (token, found, filled, signed_in_ok _ p db' answered, may_change checked)
      ]
    where
      may_change :
          {u : Unit}
          → (if is_safe request.method
              then ok tt
              else check_same_origin urlsplit settings request.origin)
            ≡ ok u
          → Reads request.method ⊎ FromOwn request.origin
      may_change k = elim (Bool-cases (is_safe request.method)) [
        | inl e ↦ inl (is_safe-Reads request.method e)
        | inr e ↦ inr (checked-FromOwn own request.origin has (rw e at k))
      ]
