-- ===== src/Oidc.antt =====
-- apps/api/app/oidc.py: the identity provider's metadata and keys, and the check of an ID token.
pub mod Keys
pub mod Accepted
pub mod Provider
mod Tests
use triage_assistant.Prelude.{
  ap, ◌≡◌, ℕ, ◌+◌, ◌*◌, String, Bool, true, false, not, ◌&&◌, ◌||◌, Option, none, some, List, [],
  ◌∷◌, ltb, str_eq, if◌then◌else◌, is_some, is_empty, lookup, assign, any, length,
}
use triage_assistant.Settings.{Settings}
use triage_assistant.Models.{second}
use triage_assistant.Sessions.SignIn.{Identity}

-- The exceptions: OIDCError by its code, and a value.
pub data Answer {ℓ} (A : Type ℓ) : Type ℓ where
  refused : String → Answer A
  given : A → Answer A

value_or {ℓ} : {A : Type ℓ} → A → Answer A → A
value_or a (refused e) = a
value_or a (given b) = b

pub given-injective {ℓ} : {A : Type ℓ} (a b : A) → given a ≡ given b → a ≡ b
unfolding value_or
given-injective a b h = ap (value_or a) h

abbrev pub unavailable : String
unavailable = "idp_unavailable"

abbrev pub invalid_token : String
invalid_token = "invalid_token"

abbrev pub metadata_ttl_s : ℕ
metadata_ttl_s = 3600

abbrev pub jwks_min_refresh_s : ℕ
jwks_min_refresh_s = 60

abbrev pub jwks_max_age_s : ℕ
jwks_max_age_s = 600

pub record ProviderMetadata : Type 0 where
  pub issuer : String
  pub authorization_endpoint : String
  pub token_endpoint : String
  pub jwks_uri : String
  pub end_session_endpoint : Option String

-- `Key` is the JWT library's. A published key, with what the library loads of it.
pub record Jwk (Key : Type 0) : Type 0 where
  pub use_for : Option String
  pub kid : Option String
  pub loaded : Option Key

-- The client's caches. `keys_at` is None for keys that were never fetched.
pub record Client (Key : Type 0) : Type 0 where
  pub metadata : Option ProviderMetadata
  pub metadata_at : ℕ
  pub keys : List (String × Key)
  pub keys_at : Option ℕ

infixl 5 ◌>>=◌
abbrev ◌>>=◌ {ℓ κ} : {A : Type ℓ} {B : Type κ} → Option A → (A → Option B) → Option B
none >>= next = none
some a >>= next = next a

-- The fields that must be there, in the order in which they are looked up.
unfoldable pub read_metadata : List (String × String) → Option ProviderMetadata
read_metadata doc = do
  issuer ← lookup "issuer" doc
  authorization_endpoint ← lookup "authorization_endpoint" doc
  token_endpoint ← lookup "token_endpoint" doc
  jwks_uri ← lookup "jwks_uri" doc
  some (record {
    issuer = issuer;
    authorization_endpoint = authorization_endpoint;
    token_endpoint = token_endpoint;
    jwks_uri = jwks_uri;
    end_session_endpoint = lookup "end_session_endpoint" doc;
  })

unfoldable pub names_issuer : Settings → List (String × String) → Bool
names_issuer settings doc = elim (lookup "issuer" doc) [
  | none ↦ false
  | some issuer ↦ str_eq issuer settings.oidc_issuer
]

unfoldable pub older_than : ℕ → ℕ → Option ℕ → Bool
older_than now seconds none = true
older_than now seconds (some at) = ltb (at + seconds * second) now

module _ {Key : Type 0} (settings : Settings) where
  unfoldable pub keep_metadata :
      ℕ → Client Key → Option ProviderMetadata → Answer ProviderMetadata × Client Key
  keep_metadata now client none = (refused unavailable, client)
  keep_metadata now client (some m) =
      (given m, record client { metadata = some m; metadata_at = now })

  -- `doc` is what the provider answers if it is asked now; None if it does not.
  unfoldable pub fetch_metadata :
      ℕ → Option (List (String × String)) → Client Key → Answer ProviderMetadata × Client Key
  unfolding keep_metadata read_metadata names_issuer
  fetch_metadata now none client = (refused unavailable, client)
  fetch_metadata now (some doc) client =
      if names_issuer settings doc
      then keep_metadata now client (read_metadata doc)
      else (refused unavailable, client)

  unfoldable pub cached :
      Bool
      → ℕ
      → Option (List (String × String))
      → Client Key
      → Option ProviderMetadata
      → Answer ProviderMetadata × Client Key
  unfolding fetch_metadata
  cached refresh now doc client none = fetch_metadata now doc client
  cached refresh now doc client (some m) =
      if refresh || ltb (client.metadata_at + metadata_ttl_s * second) now
      then fetch_metadata now doc client
      else (given m, client)

  unfoldable pub metadata :
      Bool → ℕ → Option (List (String × String)) → Client Key → Answer ProviderMetadata × Client Key
  unfolding cached
  metadata refresh now doc client = cached refresh now doc client client.metadata

  -- Signature keys by key id.
  unfoldable pub add_key : Jwk Key → List (String × Key) → List (String × Key)
  add_key jwk keys =
      if str_eq (elim jwk.use_for [ none ↦ "sig" | some u ↦ u ]) "sig"
      then elim jwk.kid [
        | none ↦ keys
        | some kid ↦ elim jwk.loaded [ none ↦ keys | some key ↦ assign kid key keys ]
      ]
      else keys

  unfoldable pub signing_keys : List (Jwk Key) → List (String × Key) → List (String × Key)
  unfolding add_key
  signing_keys [] keys = keys
  signing_keys (jwk ∷ jwks) keys = signing_keys jwks (add_key jwk keys)

  unfoldable pub must_fetch : ℕ → String → Client Key → Bool
  unfolding older_than
  must_fetch now kid client =
      older_than now jwks_max_age_s client.keys_at
      || (not (is_some (lookup kid client.keys))
          && older_than now jwks_min_refresh_s client.keys_at)

  unfoldable pub keep_keys :
      ℕ
      → Option (List (Jwk Key))
      → Answer ProviderMetadata × Client Key
      → Answer (Unit {0}) × Client Key
  unfolding signing_keys
  keep_keys now jwks (refused e, client) = (refused e, client)
  keep_keys now none (given m, client) = (refused unavailable, client)
  keep_keys now (some published) (given m, client) =
      (given tt, record client { keys = signing_keys published []; keys_at = some now })

  unfoldable pub found_key : Option Key → Answer Key
  found_key none = refused invalid_token
  found_key (some key) = given key

  unfoldable pub look_up : String → Answer (Unit {0}) × Client Key → Answer Key × Client Key
  unfolding found_key
  look_up kid (refused e, client) = (refused e, client)
  look_up kid (given u, client) = (found_key (lookup kid client.keys), client)

  -- `doc` and `jwks` are what the provider answers if it is asked now.
  unfoldable pub signing_key :
      Option String
      → ℕ
      → Option (List (String × String))
      → Option (List (Jwk Key))
      → Client Key
      → Answer Key × Client Key
  unfolding must_fetch keep_keys look_up metadata
  signing_key none now doc jwks client = (refused invalid_token, client)
  signing_key (some kid) now doc jwks client = look_up kid (
      if must_fetch now kid client
      then keep_keys now jwks (metadata false now doc client)
      else (given tt, client))

-- What the library reads of a token's header, and the claims of a token that it verified.
pub record Header : Type 0 where
  pub alg : Option String
  pub kid : Option String

-- A claim that should be a text: missing, or of no truth; a text; or any other value.
pub data Value : Type 0 where
  falsy : Value
  string : String → Value
  truthy : Value

pub record Claims : Type 0 where
  pub aud : List String
  pub azp : Option String
  pub nonce : String
  pub sub : String
  pub email : Option String
  pub name : Value
  pub preferred_username : Value
  pub groups : List String

unfoldable pub accepted_algorithm : Option String → Bool
accepted_algorithm none = false
accepted_algorithm (some alg) = str_eq alg "RS256" || str_eq alg "PS256" || str_eq alg "ES256"

-- `_str_or_none`
unfoldable pub str_or_none : Option String → Option String
str_or_none none = none
str_or_none (some s) = if is_empty s then none else some s

unfoldable pub string_in : Value → Option String
unfolding str_or_none
string_in (string s) = str_or_none (some s)
string_in _ = none

-- `_str_or_none(a or b)`: a value of some truth hides the other.
unfoldable pub first_of : Value → Value → Option String
unfolding string_in
first_of falsy b = string_in b
first_of truthy b = none
first_of (string s) b = if is_empty s then string_in b else some s

unfoldable pub for_client : Settings → Claims → Bool
for_client settings c = elim c.azp [
  | none ↦ not (ltb 1 (length c.aud))
  | some azp ↦ str_eq azp settings.oidc_client_id
]

-- The claims that the library verified, checked further.
unfoldable pub check_claims : Settings → String → String → Option Claims → Answer Identity
unfolding for_client str_or_none first_of
check_claims settings id_token nonce none = refused invalid_token
check_claims settings id_token nonce (some c) =
    if for_client settings c && str_eq c.nonce nonce
    then given (record {
      subject = c.sub;
      email = str_or_none c.email;
      name = first_of c.name c.preferred_username;
      groups = c.groups;
      id_token = some id_token;
    })
    else refused invalid_token

-- `header` is `jwt.get_unverified_header`; `decode token key alg` is `jwt.decode` with the client id
-- as audience, the issuer, the leeway and the required claims of the code.
module _ {Key : Type 0} (header : String → Option Header)
    (decode : String → Key → Option String → Option Claims) (settings : Settings) where
  unfoldable pub with_key :
      String → String → Option String → Answer Key × Client Key → Answer Identity × Client Key
  unfolding check_claims
  with_key id_token nonce alg (refused e, client) = (refused e, client)
  with_key id_token nonce alg (given key, client) =
      (check_claims settings id_token nonce (decode id_token key alg), client)

  unfoldable pub with_header :
      String
      → String
      → ℕ
      → Option (List (String × String))
      → Option (List (Jwk Key))
      → Client Key
      → Option Header
      → Answer Identity × Client Key
  unfolding accepted_algorithm with_key
  with_header id_token nonce now doc jwks client none = (refused invalid_token, client)
  with_header id_token nonce now doc jwks client (some h) =
      if accepted_algorithm h.alg
      then with_key id_token nonce h.alg (signing_key settings h.kid now doc jwks client)
      else (refused invalid_token, client)

  unfoldable pub verify :
      String
      → String
      → ℕ
      → Option (List (String × String))
      → Option (List (Jwk Key))
      → Client Key
      → Answer Identity × Client Key
  unfolding with_header
  verify id_token nonce now doc jwks client =
      with_header id_token nonce now doc jwks client (header id_token)
