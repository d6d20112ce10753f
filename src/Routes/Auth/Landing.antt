-- ===== src/Routes/Auth/Landing.antt =====
-- `safe_next` of apps/api/app/routes/auth.py is no open redirect.
use triage_assistant.Prelude.{
  ◌≢◌, front, none, some, Option, ℕ, ◌≤◌, String, ◌≡◌, refl, inl, inr, true, Bool-cases, arith,
  code, text_length, ◌+++◌, all_chars, not, ltb,
}
use triage_assistant.Routes.Auth.{is_landing, safe_next}

-- The first character, as a number; None of the empty text.
abbrev pub first : String → Option ℕ
first String.[] = none
first (String.◌∷◌ c s) = some (code c)

-- A path on this site: one slash, then neither a slash nor a backslash.
abbrev pub OnSite : String → Type 0
OnSite path =
    (rest : String) × (first path ≡ some b'/')
    × (path ≡ front 1 path +++ rest)
    × (first rest ≢ some b'/')
    × (first rest ≢ some b'\\')
    × (text_length path ≤ 2000)
    × (all_chars (λ c. not (ltb c b' ')) path ≡ true)

on_site : (path : String) → is_landing path ≡ true → OnSite path
unfolding is_landing
on_site String.[] h = absurd (ground (arith, h))
on_site (String.◌∷◌ c String.[]) h = (
  String.[],
  ground (arith, h),
  refl,
  ground (arith, h),
  ground (arith, h),
  ground (arith, h),
  ground (arith, h),
)
on_site (String.◌∷◌ c (String.◌∷◌ d s)) h = (
  String.◌∷◌ d s,
  ground (arith, h),
  refl,
  ground (arith, h),
  ground (arith, h),
  ground (arith, h),
  ground (arith, h),
)

-- Whatever path is asked for, the one to land on is on this site: a slash, then neither a slash nor
-- a backslash, at most 2000 characters, none of them before the space in
-- the order of characters.
pub safe_next-OnSite : (path : String) → OnSite (safe_next path)
unfolding safe_next
safe_next-OnSite path = elim (Bool-cases (is_landing path)) [
  | inl e ↦ rw e (on_site path e)
  | inr e ↦ rw e (on_site "/" landing)
]
  where
    landing : is_landing "/" ≡ true
    landing = refl
