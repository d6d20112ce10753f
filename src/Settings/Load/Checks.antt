-- ===== src/Settings/Load/Checks.antt =====
-- What production asks of settings, after apps/api/app/config.py, and what the checks there give.
use triage_assistant.Prelude.{
  is_empty, ◌≡◌, refl, ap, subst, ◌⊎◌, inl, inr, String, Bool, true, false, not, ◌||◌, Option, none,
  some, some-injective, List, [], ◌∷◌, keep, any, All, Bool-cases, str_eq, eq_iff, begins,
  if◌then◌else◌, ◌+++◌, arith,
}
use triage_assistant.Settings.{Settings}
use triage_assistant.Settings.Production.{
  Url, Urls, ◌>>=◌, production_checks, is_local, text_or_empty, oidc_metadata_url, add_problem,
  host, secrets, insecure_cookies, mock_model,
}
use triage_assistant.Settings.Load.{Loading, loaded, invalid, unsafe, known_checks, is_waived}

-- A check holds unless it is waived.
abbrev pub Unless : Settings → String → Type 0 → Type 0
Unless s name P = (any (str_eq name) s.prod_checks_waived ≡ true) ⊎ P

-- A public URL as it is given, with nothing but a scheme and a network location, and as it is kept.
pub record PublicUrl (urls : Urls) (given : String) (s : Settings) : Type 0 where
  pub parts : Url
  pub split : urls.urlsplit given ≡ some parts
  pub web : (parts.scheme ≡ "http") ⊎ (parts.scheme ≡ "https")
  pub located : is_empty parts.netloc ≡ false
  pub pathless : (parts.path ≡ "") ⊎ (parts.path ≡ "/")
  pub kept : s.public_url ≡ parts.scheme +++ "://" +++ parts.netloc

-- What production asks of settings, where `public`, `llm_host` and `idp_host` are the hosts of the
-- three addresses and `values` the secrets.
pub record Production (urls : Urls) (given : Option String) (s : Settings) : Type 0 where
  pub given_url : String
  pub is_given : given ≡ some given_url
  pub url : PublicUrl urls given_url s
  pub public : String
  pub llm_host : String
  pub idp_host : String
  pub values : List String
  pub public_host : host urls s.public_url ≡ some public
  pub model_host : host urls s.llm_base_url ≡ some llm_host
  pub provider_host : host urls (oidc_metadata_url s) ≡ some idp_host
  pub secret_values : secrets urls s ≡ some values
  pub reachable : Unless s "localhost_url" (is_local public ≡ false)
  pub encrypted :
      Unless s "insecure_cookies" ((s.session_cookie_secure ≡ true) × (url.parts.scheme ≡ "https"))
  pub real_model : Unless s "mock_model" (
      (str_eq llm_host "mock-llm" ≡ false)
      × (begins "mock" s.llm_model ≡ false)
      × (begins "mock" (text_or_empty s.embedding_model) ≡ false))
  pub real_provider : Unless s "demo_identity_provider" (str_eq idp_host "keycloak" ≡ false)
  pub own_secrets : Unless s "example_secret" (All (λ v. begins "change-me" v ≡ false) values)
  pub untraced : Unless s "trace_content" (s.trace_content ≡ false)
  pub known_waivers : All (λ name. any (str_eq name) production_checks ≡ true) s.prod_checks_waived

-- What a chain of options that gives something went through.
pub >>=_some {ℓ κ} :
    {A : Type ℓ} {B : Type κ} (o : Option A) (f : A → Option B) (b : B)
    → (o >>= f) ≡ some b
    → (a : A) × (o ≡ some a) × (f a ≡ some b)
>>=_some none f b h = ground arith
>>=_some (some a) f b h = (a, refl, h)

settings_in : Settings → Loading → Settings
settings_in s (loaded t) = t
settings_in s invalid = s
settings_in s (unsafe problems) = s

unfoldable pub is_loaded : Loading → Bool
is_loaded (loaded s) = true
is_loaded invalid = false
is_loaded (unsafe problems) = false

pub loaded-injective : (s t : Settings) → loaded s ≡ loaded t → s ≡ t
unfolding settings_in
loaded-injective s t h = ap (settings_in s) h

pub known_checks_known :
    (names known : List String)
    → known_checks names ≡ some known
    → All (λ name. any (str_eq name) production_checks ≡ true) known
unfolding known_checks
known_checks_known [] known h =
    subst (All (λ name. any (str_eq name) production_checks ≡ true)) (some-injective _ _ h) tt
known_checks_known (name ∷ names) known h =
    elim (Bool-cases (any (str_eq name) production_checks)) [
      | inl e ↦
          let (rest, found, added) =
            >>=_some (known_checks names) (λ names. some (name ∷ names)) known
              (subst
                (λ b.
                  (if b then (known_checks names >>= (λ names. some (name ∷ names))) else none)
                  ≡ some known)
                e h) in
          subst (All (λ name. any (str_eq name) production_checks ≡ true))
            (some-injective _ _ added) (e, known_checks_known names rest found)
      | inr e ↦ ground (
        arith,
        subst
            (λ b.
              (if b then (known_checks names >>= (λ names. some (name ∷ names))) else none)
              ≡ some known)
            e h,
      )
    ]

-- A problem that is left over by no waiver is none, or is waived.
pub keep-add_problem :
    (waived : String × String → Bool) (b : Bool) (name what : String)
    (rest : List (String × String))
    → keep waived (add_problem b name what rest) ≡ []
    → ((b ≡ false) ⊎ (waived (name, what) ≡ false)) × (keep waived rest ≡ [])
unfolding add_problem
keep-add_problem waived false name what rest h = (inl refl, h)
keep-add_problem waived true name what rest h = elim (Bool-cases (waived (name, what))) [
  | inl e ↦ absurd (
      not_empty
        (subst (λ b. (if b then (name, what) ∷ keep waived rest else keep waived rest) ≡ []) e h))
  | inr e ↦ (
    inr e,
    subst (λ b. (if b then (name, what) ∷ keep waived rest else keep waived rest) ≡ []) e h,
  )
]
  where
    not_empty : (name, what) ∷ keep waived rest ≡ [] → ⊥
    not_empty h = ground arith

-- A check that left no problem holds or is waived.
pub unless :
    (s : Settings) (b : Bool) (name what : String)
    → (b ≡ false) ⊎ (not (is_waived s (name, what)) ≡ false)
    → Unless s name (b ≡ false)
unfolding is_waived
unless s b name what (inl e) = inr e
unless s b name what (inr e) = inl (ground arith)

pub Unless-map :
    (s : Settings) (name : String) (P Q : Type 0) → (P → Q) → Unless s name P → Unless s name Q
Unless-map s name P Q f (inl w) = inl w
Unless-map s name P Q f (inr p) = inr (f p)

pub any-false :
    (p : String → Bool) (xs : List String) → any p xs ≡ false → All (λ x. p x ≡ false) xs
any-false p [] h = tt
any-false p (x ∷ xs) h = (ground arith, any-false p xs (ground arith))

pub one_of_two : (s a b : String) → (str_eq s a || str_eq s b) ≡ true → (s ≡ a) ⊎ (s ≡ b)
one_of_two s a b h = elim (Bool-cases (str_eq s a)) [
  | inl e ↦ inl ((eq_iff s a).0 e)
  | inr e ↦ inr ((eq_iff s b).0 (ground (arith, e, h)))
]

pub https_only :
    (scheme netloc : String)
    → (scheme ≡ "http") ⊎ (scheme ≡ "https")
    → begins "http://" (scheme +++ "://" +++ netloc) ≡ false
    → scheme ≡ "https"
https_only scheme netloc (inl h) e =
    ground (arith, subst (λ s. begins "http://" (s +++ "://" +++ netloc) ≡ false) h e)
https_only scheme netloc (inr h) e = h

pub insecure_cookies_no :
    (s : Settings)
    → insecure_cookies s ≡ false
    → (s.session_cookie_secure ≡ true) × (begins "http://" s.public_url ≡ false)
unfolding insecure_cookies
insecure_cookies_no s h = (ground arith, ground arith)

pub mock_model_no :
    (s : Settings) (llm_host : String)
    → mock_model s llm_host ≡ false
    → (str_eq llm_host "mock-llm" ≡ false)
      × (begins "mock" s.llm_model ≡ false)
      × (begins "mock" (text_or_empty s.embedding_model) ≡ false)
unfolding mock_model
mock_model_no s llm_host h = (ground arith, ground arith, ground arith)
