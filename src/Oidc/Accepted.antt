-- ===== src/Oidc/Accepted.antt =====
-- What an ID token must have passed before `verify` of apps/api/app/oidc.py accepts it.
use triage_assistant.Prelude.{
  ltb, not, length, ◌≤◌, ◌⊎◌, ◌||◌, ◌∙◌, ℕ, String, ◌≡◌, refl, sym, ap, inl, inr, true, ◌&&◌,
  Option, none, some, List, Bool-cases, arith, str_eq, eq_iff,
}
use triage_assistant.Settings.{Settings}
use triage_assistant.Sessions.SignIn.{Identity}
use triage_assistant.Oidc.{
  given-injective, Answer, given, refused, Client, Jwk, Header, Claims, accepted_algorithm,
  for_client, check_claims, signing_key, with_key, with_header, verify,
}

-- One of the three asymmetric algorithms.
abbrev pub Asymmetric : String → Type 0
Asymmetric alg = (alg ≡ "RS256") ⊎ ((alg ≡ "PS256") ⊎ (alg ≡ "ES256"))

-- The party that a token was issued to is this client: `azp` says so, or there is none and one
-- audience at most.
abbrev pub ForClient : Settings → Claims → Type 0
ForClient settings c =
    (c.azp ≡ some settings.oidc_client_id) ⊎ ((c.azp ≡ none) × (length c.aud ≤ 1))

accepted-Asymmetric :
    (o : Option String)
    → accepted_algorithm o ≡ true
    → (alg : String) × (o ≡ some alg) × Asymmetric alg
unfolding accepted_algorithm
accepted-Asymmetric none h = absurd (ground (arith, h))
accepted-Asymmetric (some alg) h = (alg, refl, one h)
  where
    one : (str_eq alg "RS256" || str_eq alg "PS256" || str_eq alg "ES256") ≡ true → Asymmetric alg
    one h = elim (Bool-cases (str_eq alg "RS256")) [
      | inl e ↦ inl ((eq_iff alg "RS256").0 e)
      | inr e ↦ elim (Bool-cases (str_eq alg "PS256")) [
        | inl k ↦ inr (inl ((eq_iff alg "PS256").0 k))
        | inr k ↦ inr (inr ((eq_iff alg "ES256").0 (ground (arith, h, e, k))))
      ]
    ]

for_client-ForClient :
    (settings : Settings) (c : Claims) → for_client settings c ≡ true → ForClient settings c
unfolding for_client
for_client-ForClient settings c h = by_party c.azp refl h
  where
    by_party :
        (o : Option String)
        → c.azp ≡ o
        → (elim o [
          | none ↦ not (ltb 1 (length c.aud))
          | some azp ↦ str_eq azp settings.oidc_client_id
        ])
          ≡ true
        → ForClient settings c
    by_party none e h = inr (e, ground (arith, h))
    by_party (some azp) e h = inl (e ∙ ap some ((eq_iff azp settings.oidc_client_id).0 h))

module _ {Key : Type 0} (header : String → Option Header)
    (decode : String → Key → Option String → Option Claims) (settings : Settings)
    (id_token nonce : String) (now : ℕ) (doc : Option (List (String × String)))
    (jwks : Option (List (Jwk Key))) (client : Client Key) where
  -- The header, the key and the claims by which a token was accepted for an identity.
  abbrev pub Accepted : Identity → Type 0
  Accepted identity =
      (h : Header) × (key : Key) × (claims : Claims) × (alg : String) × (header id_token ≡ some h)
      × (h.alg ≡ some alg)
      × Asymmetric alg
      × ((signing_key settings h.kid now doc jwks client).0 ≡ given key)
      × (decode id_token key (some alg) ≡ some claims)
      × ForClient settings claims
      × (claims.nonce ≡ nonce)
      × (identity.subject ≡ claims.sub)
      × (identity.groups ≡ claims.groups)

  checked :
      (o : Option Claims) (identity : Identity)
      → check_claims settings id_token nonce o ≡ given identity
      → (claims : Claims) × (o ≡ some claims)
        × (for_client settings claims ≡ true)
        × (claims.nonce ≡ nonce)
        × (identity.subject ≡ claims.sub)
        × (identity.groups ≡ claims.groups)
  unfolding check_claims
  checked none identity h = absurd (ground (arith, h))
  checked (some c) identity h = elim (Bool-cases (for_client settings c && str_eq c.nonce nonce)) [
    | inl e ↦ (
      c,
      refl,
      ground (arith, e),
      ground (arith, e, eq_iff c.nonce nonce),
      ap (λ i. i.subject) (sym (given-injective _ _ (rw e at h))),
      ap (λ i. i.groups) (sym (given-injective _ _ (rw e at h))),
    )
    | inr e ↦ absurd (ground (arith, (rw e at h)))
  ]

  keyed :
      (alg : Option String) (identity : Identity) (r : Answer Key × Client Key)
      → (with_key header decode settings id_token nonce alg r).0 ≡ given identity
      → (key : Key) × (r.0 ≡ given key)
        × (check_claims settings id_token nonce (decode id_token key alg) ≡ given identity)
  unfolding with_key
  keyed alg identity (refused e, c) h = absurd (ground (arith, h))
  keyed alg identity (given key, c) h = (key, refl, h)

  headed :
      (o : Option Header) (identity : Identity)
      → header id_token ≡ o
      → (with_header header decode settings id_token nonce now doc jwks client o).0 ≡ given identity
      → Accepted identity
  unfolding with_header
  headed none identity found h = absurd (ground (arith, h))
  headed (some header') identity found h = elim (Bool-cases (accepted_algorithm header'.alg)) [
    | inr e ↦ absurd (ground (arith, (rw e at h)))
    | inl e ↦
        let (key, k, c) =
          keyed header'.alg identity (signing_key settings header'.kid now doc jwks client)
            (rw e at h) in
        let (claims, d, a, n, s, g) = checked (decode id_token key header'.alg) identity c in
        let (alg, named, asymmetric) = accepted-Asymmetric header'.alg e in
        (
          header',
          key,
          claims,
          alg,
          found,
          named,
          asymmetric,
          k,
          ap (decode id_token key) (sym named) ∙ d,
          for_client-ForClient settings claims a,
          n,
          s,
          g,
        )
  ]

  -- A token is accepted only with RS256, PS256 or ES256, a key that the lookup gave for its key id,
  -- claims that the library verified with that key and algorithm, an authorized party that is this
  -- client, or none and one audience at most, and the nonce of this sign-in; the identity has the subject and the groups of those claims.
  pub verify-Accepted :
      (identity : Identity)
      → (verify header decode settings id_token nonce now doc jwks client).0 ≡ given identity
      → Accepted identity
  unfolding verify
  verify-Accepted identity h = headed (header id_token) identity refl h
