-- ===== src/Oidc/Provider.antt =====
-- What apps/api/app/oidc.py sends the browser and the provider: the sign-in's URL, the exchange of a
-- code, and the sign-out's URL.
use triage_assistant.Prelude.{
  ℕ, ◌==◌, leb, String, Bool, false, ◌&&◌, ◌||◌, Option, none, some, List, [], ◌∷◌, code, is_empty,
  if◌then◌else◌, ◌+++◌,
}
use triage_assistant.Settings.{Settings}
use triage_assistant.Settings.Production.{oidc_redirect_uri}
use triage_assistant.Oidc.{
  Answer, refused, given, unavailable, invalid_token, ProviderMetadata, Client, metadata,
}

-- `base64.urlsafe_b64encode(hashlib.sha256(…).digest())`, the encodings of URLs, and the client's
-- secret in Base64.
pub record Encodings : Type 0 where
  pub digest : String → String
  pub urlencode : List (String × String) → String
  pub quote : String → String
  pub base64 : String → String

unfoldable pub drop_last : (ℕ → Bool) → String → String
drop_last p String.[] = String.[]
drop_last p (String.◌∷◌ c s) =
    let rest = drop_last p s in if is_empty rest && p (code c) then String.[] else String.◌∷◌ c rest

unfoldable pub pkce_challenge : Encodings → String → String
unfolding drop_last
pkce_challenge encodings verifier = drop_last (λ c. c == b'=') (encodings.digest verifier)

unfoldable pub has_query : String → Bool
has_query String.[] = false
has_query (String.◌∷◌ c s) = code c == b'?' || has_query s

-- `_with_query`
unfoldable pub with_query : Encodings → String → List (String × String) → String
unfolding drop_last has_query
with_query encodings endpoint params =
    let base = drop_last (λ c. c == b'?' || c == b'&') endpoint in
    base +++ (if has_query base then "&" else "?") +++ encodings.urlencode params

-- What comes back of the exchange: no answer; or a status and a body, that is JSON's object or not,
-- with an ID token that is a text or not.
pub data Exchanged : Type 0 where
  unanswered : Exchanged
  response : ℕ → Option (Option String) → Exchanged

-- A code, the form that is posted and the headers that go with it.
pub record TokenRequest : Type 0 where
  pub url : String
  pub form : List (String × String)
  pub headers : List (String × String)

abbrev pub login_failed : String
login_failed = "login_failed"

unfoldable pub id_token_in : Option String → Answer String
id_token_in none = refused invalid_token
id_token_in (some id_token) = given id_token

unfoldable pub body_of : ℕ → Option (Option String) → Answer String
unfolding id_token_in
body_of status none = refused unavailable
body_of status (some id_token) =
    if status == 200 then id_token_in id_token else refused login_failed

unfoldable pub read_exchange : Exchanged → Answer String
unfolding body_of
read_exchange unanswered = refused unavailable
read_exchange (response status body) =
    if leb 500 status then refused unavailable else body_of status body

unfoldable pub with_hint : Option String → List (String × String)
with_hint none = []
with_hint (some id_token) = if is_empty id_token then [] else ("id_token_hint", id_token) ∷ []

unfoldable pub then_with : {A B C : Type 0} → Answer A × C → (A → Answer B) → Answer B × C
then_with (refused e, client) f = (refused e, client)
then_with (given a, client) f = (f a, client)

module _ (encodings : Encodings) (settings : Settings) (scopes : String) where
  unfoldable pub authorization_params : String → String → String → List (String × String)
  authorization_params state nonce code_challenge =
      ("response_type", "code")
      ∷ ("client_id", settings.oidc_client_id)
      ∷ ("redirect_uri", oidc_redirect_uri settings)
      ∷ ("scope", scopes)
      ∷ ("state", state)
      ∷ ("nonce", nonce)
      ∷ ("code_challenge", code_challenge)
      ∷ ("code_challenge_method", "S256")
      ∷ []

  unfoldable pub authorization_url :
      {Key : Type 0}
      → String
      → String
      → String
      → ℕ
      → Option (List (String × String))
      → Client Key
      → Answer String × Client Key
  unfolding then_with with_query authorization_params
  authorization_url state nonce code_challenge now doc client =
      then_with (metadata settings false now doc client) (λ meta. given (
        with_query encodings meta.authorization_endpoint
          (authorization_params state nonce code_challenge)))

  unfoldable pub token_request : String → String → String → TokenRequest
  token_request endpoint given_code code_verifier = record {
    url = endpoint;
    form =
        ("grant_type", "authorization_code")
        ∷ ("code", given_code)
        ∷ ("redirect_uri", oidc_redirect_uri settings)
        ∷ ("code_verifier", code_verifier)
        ∷ [];
    headers =
        (
          "Authorization",
          "Basic "
              +++ encodings.base64 (
                  encodings.quote settings.oidc_client_id
                  +++ ":"
                  +++ encodings.quote settings.oidc_client_secret),
        )
        ∷ ("Accept", "application/json")
        ∷ [];
  }

  unfoldable pub exchange_code :
      {Key : Type 0}
      → (TokenRequest → Exchanged)
      → String
      → String
      → ℕ
      → Option (List (String × String))
      → Client Key
      → Answer String × Client Key
  unfolding then_with token_request read_exchange
  exchange_code post given_code code_verifier now doc client =
      then_with (metadata settings false now doc client)
        (λ meta. read_exchange (post (token_request meta.token_endpoint given_code code_verifier)))

  unfoldable pub end_session_at : Option String → Option String → Option String
  unfolding with_query with_hint
  end_session_at id_token none = none
  end_session_at id_token (some endpoint) = some (
      with_query encodings endpoint (
        ("client_id", settings.oidc_client_id)
        ∷ ("post_logout_redirect_uri", settings.public_url +++ "/")
        ∷ with_hint id_token))

  -- None where the provider names no such page, or its metadata cannot be had.
  unfoldable pub end_session : Option String → Answer ProviderMetadata → Option String
  unfolding end_session_at
  end_session id_token (refused e) = none
  end_session id_token (given meta) = end_session_at id_token meta.end_session_endpoint

  unfoldable pub end_session_url :
      {Key : Type 0}
      → Option String
      → ℕ
      → Option (List (String × String))
      → Client Key
      → Option String × Client Key
  unfolding end_session
  end_session_url id_token now doc client =
      let (meta, client') = metadata settings false now doc client in
      (end_session id_token meta, client')
