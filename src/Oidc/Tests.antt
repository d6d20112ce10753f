-- ===== src/Oidc/Tests.antt =====
-- The theorems on apps/api/app/oidc.py at a small input: keys and tokens that stand for themselves.
use triage_assistant.Prelude.{String, refl, Option, none, some, List, [], ◌∷◌, lookup, assign}
use triage_assistant.Samples.{settings}
use triage_assistant.Sessions.SignIn.{Identity}
use triage_assistant.Oidc.{
  Client, Jwk, Header, Claims, signing_key, must_fetch, older_than, look_up, found_key, keep_keys,
  signing_keys, add_key, metadata, cached, fetch_metadata, keep_metadata, read_metadata,
  names_issuer, verify, with_header, with_key, check_claims, for_client, str_or_none, string_in,
  first_of, falsy, string, accepted_algorithm,
}
use triage_assistant.Oidc.Accepted.{Accepted, verify-Accepted}

abbrev never : Client String
never = record { metadata = none; metadata_at = 0; keys = []; keys_at = none }

abbrev doc : List (String × String)
doc =
    ("issuer", "https://idp.example.com")
    ∷ ("authorization_endpoint", "a")
    ∷ ("token_endpoint", "t")
    ∷ ("jwks_uri", "j")
    ∷ []

abbrev jwks : List (Jwk String)
jwks =
    record { use_for = some "enc"; kid = some "1"; loaded = some "wrong" }
    ∷ record { use_for = none; kid = some "1"; loaded = some "right" }
    ∷ []

abbrev claims : Claims
claims = record {
  aud = "triage" ∷ [];
  azp = none;
  nonce = "n";
  sub = "a";
  email = none;
  name = falsy;
  preferred_username = string "alice";
  groups = "org:admin" ∷ [];
}

abbrev header : String → Option Header
header t = some (record { alg = some "RS256"; kid = some "1" })

abbrev decode : String → String → Option String → Option Claims
decode t key alg = some claims

abbrev alice : Identity
alice = record {
  subject = "a";
  email = none;
  name = some "alice";
  groups = "org:admin" ∷ [];
  id_token = some "token";
}

verify-Accepted_example :
    Accepted header decode settings "token" "n" 5 (some doc) (some jwks) never alice
unfolding verify with_header with_key check_claims for_client str_or_none string_in first_of
    accepted_algorithm signing_key must_fetch older_than look_up found_key keep_keys signing_keys
    add_key metadata cached fetch_metadata keep_metadata read_metadata names_issuer lookup assign
verify-Accepted_example =
    verify-Accepted header decode settings "token" "n" 5 (some doc) (some jwks) never alice refl
