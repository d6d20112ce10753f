-- ===== src/Oidc/Keys.antt =====
-- How long a key of the identity provider is trusted, and how often the keys are fetched:
-- `_signing_key` of apps/api/app/oidc.py.
use triage_assistant.Prelude.{ℕ, ◌+◌, ◌*◌, ◌≤◌, ◌≡◌, ◌⊎◌, true, Option, none, some}
use triage_assistant.Settings.{Settings}
use triage_assistant.Models.{second}
use triage_assistant.Oidc.{
  Answer, given, refused, Client, jwks_max_age_s, jwks_min_refresh_s, older_than,
}

-- Keys fetched no longer ago than the most that they are trusted for.
abbrev pub Fresh : ℕ → Option ℕ → Type 0
Fresh now none = ⊥
Fresh now (some at) = now ≤ at + jwks_max_age_s * second

-- The keys were kept, or fetched now and not within a minute of the time before.
abbrev pub Fetched : ℕ → Option ℕ → Option ℕ → Type 0
Fetched now before after =
    (after ≡ before) ⊎ ((after ≡ some now) × (older_than now jwks_min_refresh_s before ≡ true))

module _ {Key : Type 0} (settings : Settings) where
  -- What a lookup promises of the client after it, from the client before it.
  abbrev pub Promise : ℕ → Client Key → Answer Key × Client Key → Type 0
  Promise now before (refused e, after) = Fetched now before.keys_at after.keys_at
  Promise now before (given key, after) =
      Fetched now before.keys_at after.keys_at × Fresh now after.keys_at
