-- ===== src/Sessions/Origin.antt =====
-- `check_same_origin` and `_origin` of apps/api/app/sessions.py.
use triage_assistant.Prelude.{
  some-injective, sym, ◌∙◌, ◌≢◌, ◌⊎◌, Option-cases, inr, inl, Bool-cases, ℕ, String, ◌≡◌, refl, ◌↔◌,
  Bool, true, false, not, ◌&&◌, ◌||◌, Option, none, some, str_eq, eq_iff, if◌then◌else◌, is_empty,
  is_some, code, ◌==◌, ◌+++◌, arith, ap,
}
use triage_assistant.Prelude.Numbers.{decimal}
use triage_assistant.Settings.{Settings}
use triage_assistant.Http.{err≢ok, Result, ok, err, api_error}

-- What `urlsplit` finds in a URL, with the port as a number.
pub record Parts : Type 0 where
  pub scheme : String
  pub hostname : Option String
  pub username : Option String
  pub port : Option ℕ
  pub path : String
  pub query : String
  pub fragment : String

unfoldable pub has_colon : String → Bool
has_colon String.[] = false
has_colon (String.◌∷◌ c s) = (code c == b':') || has_colon s

unfoldable pub is_origin : Parts → Bool
is_origin p =
    (str_eq p.scheme "http" || str_eq p.scheme "https")
    && not (is_some p.username)
    && (str_eq p.path "" || str_eq p.path "/")
    && is_empty p.query
    && is_empty p.fragment

-- The port as a browser writes it: not at all if it is the scheme's own.
unfoldable pub port_text : String → Option ℕ → String
port_text scheme none = ""
port_text scheme (some port) =
    if port == (if str_eq scheme "https" then 443 else 80) then "" else ":" +++ decimal port

unfoldable pub written : Parts → Option String → Option String
unfolding has_colon is_origin port_text
written p none = none
written p (some hostname) =
    let host = if has_colon hostname then "[" +++ hostname +++ "]" else hostname in
    if is_origin p && not (is_empty hostname)
    then some (p.scheme +++ "://" +++ host +++ port_text p.scheme p.port)
    else none

unfoldable pub origin_of_parts : Option Parts → Option String
unfolding written
origin_of_parts none = none
origin_of_parts (some p) = written p p.hostname

abbrev pub same : Option String → Option String → Bool
same none none = true
same none (some b) = false
same (some a) none = false
same (some a) (some b) = str_eq a b

-- `urlsplit` answers None where it raises a ValueError, or its port does.
module _ (urlsplit : String → Option Parts) where
  unfoldable pub origin : String → Option String
  origin url = origin_of_parts (urlsplit url)

module _ (urlsplit : String → Option Parts) (settings : Settings) where
  unfoldable pub check_same_origin : Option String → Result (Unit {0})
  check_same_origin none = err (api_error 403 "csrf_failed" "cross-site request refused")
  check_same_origin (some sent) =
      if same (origin urlsplit sent) (origin urlsplit settings.public_url)
      then ok tt
      else err (api_error 403 "csrf_failed" "cross-site request refused")

same_iff : (a b : Option String) → (same a b ≡ true) ↔ (a ≡ b)
same_iff none none = (λ h. refl, λ h. refl)
same_iff none (some b) = (λ h. ground (arith, h), λ h. ground (arith, h))
same_iff (some a) none = (λ h. ground (arith, h), λ h. ground (arith, h))
same_iff (some a) (some b) =
    (λ h. ap some (ground (arith, h, eq_iff a b)), λ h. ground (arith, h, eq_iff a b))

-- The parts of a URL that has nothing but an origin.
abbrev pub Plain : Parts → Type 0
Plain p =
    ((p.scheme ≡ "http") ⊎ (p.scheme ≡ "https"))
    × (p.username ≡ none)
    × ((p.path ≡ "") ⊎ (p.path ≡ "/"))
    × (is_empty p.query ≡ true)
    × (is_empty p.fragment ≡ true)

abbrev pub default_port : String → ℕ
default_port scheme = if str_eq scheme "https" then 443 else 80

-- How an origin ends: with nothing for the scheme's own port, else with a colon and the port.
abbrev pub PortText : String → Option ℕ → String → Type 0
PortText scheme port text =
    (((port ≡ none) ⊎ (port ≡ some (default_port scheme))) × (text ≡ ""))
    ⊎ ((n : ℕ) × (port ≡ some n) × (n ≢ default_port scheme) × (text ≡ ":" +++ decimal n))

abbrev pub host_text : String → String
host_text hostname = if has_colon hostname then "[" +++ hostname +++ "]" else hostname

-- Parts are those of an origin, which a browser writes so.
abbrev pub PlainAs : Parts → Option String → String → Type 0
PlainAs p none o = ⊥
PlainAs p (some hostname) o =
    (text : String) × Plain p
    × (is_empty hostname ≡ false)
    × PortText p.scheme p.port text
    × (o ≡ p.scheme +++ "://" +++ host_text hostname +++ text)

one_of_two : (s a b : String) → ((str_eq s a || str_eq s b) ≡ true) ↔ ((s ≡ a) ⊎ (s ≡ b))
one_of_two s a b = (
  λ h. elim (Bool-cases (str_eq s a)) [
    | inl e ↦ inl ((eq_iff s a).0 e)
    | inr e ↦ inr ((eq_iff s b).0 (ground (arith, e, h)))
  ],
  λ h. either h,
)
  where
    either : (s ≡ a) ⊎ (s ≡ b) → (str_eq s a || str_eq s b) ≡ true
    either (inl e) = let k = (eq_iff s a).1 e in ground (arith, k)
    either (inr e) = let k = (eq_iff s b).1 e in ground (arith, k)

no_username : (o : Option String) → (is_some o ≡ false) ↔ (o ≡ none)
no_username none = (λ h. refl, λ h. refl)
no_username (some a) = (λ h. absurd (ground (arith, h)), λ h. absurd (ground (arith, h)))

is_origin-Plain : (p : Parts) → (is_origin p ≡ true) ↔ Plain p
unfolding is_origin
is_origin-Plain p =
    let scheme = one_of_two p.scheme "http" "https" in
    let path = one_of_two p.path "" "/" in
    (
      λ h. (
        scheme.0 (ground (arith, h)),
        (no_username p.username).0 (ground (arith, h)),
        path.0 (ground (arith, h)),
        ground (arith, h),
        ground (arith, h),
      ),
      λ (s, u, t, q, f).
          let s' = scheme.1 s in
          let u' = (no_username p.username).1 u in
          let t' = path.1 t in ground (arith, s', u', t', q, f),
    )

port_text-PortText :
    (scheme : String) (port : Option ℕ) → PortText scheme port (port_text scheme port)
unfolding port_text
port_text-PortText scheme none = inl (inl refl, refl)
port_text-PortText scheme (some n) = elim (Bool-cases (n == default_port scheme)) [
  | inl e ↦ inl (inr (ap some (ground (arith, e))), rw e refl)
  | inr e ↦ inr (n, refl, (λ h. ground (arith, e, h)), rw e refl)
]

PortText-port_text :
    (scheme : String) (port : Option ℕ) (text : String)
    → PortText scheme port text
    → port_text scheme port ≡ text
unfolding port_text
PortText-port_text scheme none text (inl (d, e)) = sym e
PortText-port_text scheme none text (inr (n, d, o, e)) = absurd (ground (arith, d))
PortText-port_text scheme (some m) text (inl (inl d, e)) = absurd (ground (arith, d))
PortText-port_text scheme (some m) text (inl (inr d, e)) =
    let k : (m == default_port scheme) ≡ true = ground (arith, some-injective _ _ d) in rw k (sym e)
PortText-port_text scheme (some m) text (inr (n, d, o, e)) =
    let s = some-injective _ _ d in
    let k : (m == default_port scheme) ≡ false = ground (arith, s, o) in
    rw k (ap (λ n. ":" +++ decimal n) s ∙ sym e)

written-PlainAs :
    (p : Parts) (host : Option String) (o : String) → (written p host ≡ some o) ↔ PlainAs p host o
unfolding written
written-PlainAs p none o = (λ h. absurd (ground (arith, h)), λ h. absurd h)
written-PlainAs p (some hostname) o = elim (Bool-cases (is_origin p && not (is_empty hostname))) [
  | inl e ↦ (
    λ h. (
      port_text p.scheme p.port,
      (is_origin-Plain p).0 (ground (arith, e)),
      ground (arith, e),
      port_text-PortText p.scheme p.port,
      sym (some-injective _ _ (rw e at h)),
    ),
    λ (text, plain, filled, port, w). rw e (
        ap (λ t. some (p.scheme +++ "://" +++ host_text hostname +++ t))
          (PortText-port_text p.scheme p.port text port)
        ∙ ap some (sym w)),
  )
  | inr e ↦ (
    λ h. absurd (ground (arith, (rw e at h))),
    λ (text, plain, filled, port, w).
        let k = (is_origin-Plain p).1 plain in absurd (ground (arith, e, k, filled)),
  )
]

module _ (urlsplit : String → Option Parts) where
  -- What is read from a URL is an origin, which a browser writes so.
  abbrev pub OriginOf : String → String → Type 0
  OriginOf url o = (p : Parts) × (urlsplit url ≡ some p) × PlainAs p p.hostname o

  abbrev pub NoOrigin : String → Type 0
  NoOrigin url = (o : String) → ¬ (OriginOf url o)

  origin-OriginOf : (url o : String) → (origin urlsplit url ≡ some o) ↔ OriginOf url o
  unfolding origin origin_of_parts
  origin-OriginOf url o = elim (Option-cases (urlsplit url)) [
    | inl e ↦
        (λ h. absurd (ground (arith, (rw e at h))), λ (p, f, h). absurd (ground (arith, e, f)))
    | inr (p, e) ↦ (
      λ h. (p, e, (written-PlainAs p p.hostname o).0 (rw e at h)),
      λ (q, f, h). rw f ((written-PlainAs q q.hostname o).1 h),
    )
  ]

  origin-NoOrigin : (url : String) → (origin urlsplit url ≡ none) ↔ NoOrigin url
  origin-NoOrigin url = elim (Option-cases (origin urlsplit url)) [
    | inl e ↦ (λ h o k. ground (arith, e, (origin-OriginOf url o).1 k), λ h. e)
    | inr (o, e) ↦
        (λ h. absurd (ground (arith, e, h)), λ h. absurd (h o ((origin-OriginOf url o).0 e)))
  ]

module _ (urlsplit : String → Option Parts) (settings : Settings) where
  same_of :
      (sent : String)
      → (check_same_origin urlsplit settings (some sent) ≡ ok tt)
        ↔ (origin urlsplit sent ≡ origin urlsplit settings.public_url)
  unfolding check_same_origin
  same_of sent =
      let iff = same_iff (origin urlsplit sent) (origin urlsplit settings.public_url) in
      elim (Bool-cases (same (origin urlsplit sent) (origin urlsplit settings.public_url))) [
        | inl e ↦ (λ h. iff.0 e, λ h. rw e refl)
        | inr e ↦ (λ h. absurd (err≢ok _ tt (rw e at h)), λ h. absurd (ground (arith, e, iff.1 h)))
      ]

  -- A request with an Origin header passes exactly if the URL in it and the public URL are one origin, in
  -- the way that a browser writes it, or neither is an origin. A URL is one if it is split into parts
  -- with the scheme http or https, a host name, no user name, no path but "/", and neither a query
  -- nor a fragment; it is written with the scheme, the host, in brackets if it has a colon, and the
  -- port unless that is the scheme's own.
  pub check_same_origin-origin :
      (sent : String)
      → (check_same_origin urlsplit settings (some sent) ≡ ok tt) ↔ (
          ((o : String) × OriginOf urlsplit sent o × OriginOf urlsplit settings.public_url o)
          ⊎ (NoOrigin urlsplit sent × NoOrigin urlsplit settings.public_url))
  check_same_origin-origin sent = (
    λ h. elim (Option-cases (origin urlsplit settings.public_url)) [
      | inl e ↦
          let none_sent = (same_of sent).0 h ∙ e in
          inr (
            (origin-NoOrigin urlsplit sent).0 none_sent,
            (origin-NoOrigin urlsplit settings.public_url).0 e,
          )
      | inr (o, e) ↦
          let own_sent = (same_of sent).0 h ∙ e in
          inl (
            o,
            (origin-OriginOf urlsplit sent o).0 own_sent,
            (origin-OriginOf urlsplit settings.public_url o).0 e,
          )
    ],
    λ h. (same_of sent).1 (agree sent h),
  )
    where
      agree :
          (sent : String)
          → ((o : String) × OriginOf urlsplit sent o × OriginOf urlsplit settings.public_url o)
            ⊎ (NoOrigin urlsplit sent × NoOrigin urlsplit settings.public_url)
          → origin urlsplit sent ≡ origin urlsplit settings.public_url
      agree sent (inl (o, a, b)) =
          (origin-OriginOf urlsplit sent o).1 a
          ∙ sym ((origin-OriginOf urlsplit settings.public_url o).1 b)
      agree sent (inr (a, b)) =
          (origin-NoOrigin urlsplit sent).1 a
          ∙ sym ((origin-NoOrigin urlsplit settings.public_url).1 b)
