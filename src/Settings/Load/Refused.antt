-- ===== src/Settings/Load/Refused.antt =====
-- What settings of apps/api/app/config.py a process in production can have.
use triage_assistant.Prelude.{
  ◌≡◌, refl, sym, ap, ◌∙◌, subst, inl, inr, String, true, false, not, Option, none, some,
  some-injective, List, [], ◌∷◌, keep, any, All, Bool-cases, str_eq, begins, if◌then◌else◌, ◌+++◌,
  arith,
}
use triage_assistant.Runbooks.Markdown.{Alphabet}
use triage_assistant.Settings.{Settings, AppEnv, dev, test, prod}
use triage_assistant.Settings.Production.{
  Url, Urls, ◌>>=◌, production_checks, production_problems, oidc_metadata_url, host, secrets,
  problems_of,
}
use triage_assistant.Settings.Load.{
  loaded, Environment, fields, known_checks, is_bare, bare_url, is_waived, judged, judge,
  origin_only, postgres_url, validated, by_environment, safe_for_production, after_fields, load,
}
use triage_assistant.Settings.Load.Given.{Every_at, fields-given}
use triage_assistant.Settings.Load.Checks.{
  one_of_two, PublicUrl, Production, >>=_some, is_loaded, loaded-injective, known_checks_known,
  keep-add_problem, unless, Unless-map, any-false, https_only, insecure_cookies_no, mock_model_no,
}

module _ (urls : Urls) where
  bare_url-Bare :
      (parts : Url) (s : String)
      → bare_url parts ≡ some s
      → (is_bare parts ≡ true) × (s ≡ parts.scheme +++ "://" +++ parts.netloc)
  unfolding bare_url
  bare_url-Bare parts s h = elim (Bool-cases (is_bare parts)) [
    | inl e ↦ (
      e,
      sym (
          some-injective _ _ (
            subst
              (λ b. (if b then some (parts.scheme +++ "://" +++ parts.netloc) else none) ≡ some s) e
              h)),
    )
    | inr e ↦ ground (
      arith,
      subst (λ b. (if b then some (parts.scheme +++ "://" +++ parts.netloc) else none) ≡ some s) e
          h,
    )
  ]

  validated-Valid :
      (f s : Settings)
      → validated urls f ≡ some s
      → PublicUrl urls f.public_url s
        × All (λ name. any (str_eq name) production_checks ≡ true) s.prod_checks_waived
  unfolding validated origin_only is_bare
  validated-Valid f s h =
      let (database_url, _, h1) = >>=_some (postgres_url urls f.database_url) _ s h in
      let (public_url, found, h2) = >>=_some (origin_only urls f.public_url) _ s h1 in
      let (waived, known, h3) = >>=_some (known_checks f.prod_checks_waived) _ s h2 in
      let (parts, split, b) = >>=_some (urls.urlsplit f.public_url) bare_url public_url found in
      let (is_bare_too, same) = bare_url-Bare parts public_url b in
      let written = some-injective _ _ h3 in
      (
        record {
          parts = parts;
          split = split;
          web = one_of_two parts.scheme "http" "https" (ground (arith, is_bare_too));
          located = ground (arith, is_bare_too);
          pathless = one_of_two parts.path "" "/" (ground (arith, is_bare_too));
          kept = sym (ap (λ (s : Settings). s.public_url) written) ∙ same;
        },
        subst (All (λ name. any (str_eq name) production_checks ≡ true))
            (ap (λ (s : Settings). s.prod_checks_waived) written)
            (known_checks_known f.prod_checks_waived waived known),
      )

  -- Nothing that is not waived is wrong.
  abbrev NoneLeft : Settings → Type 0
  NoneLeft s =
      (problems : List (String × String)) × (production_problems urls s ≡ some problems)
      × (keep (λ p. not (is_waived s p)) problems ≡ [])

  judged-NoneLeft :
      (s t : Settings) (left : List (String × String))
      → judged s left ≡ loaded t
      → (s ≡ t) × (left ≡ [])
  unfolding judged is_loaded
  judged-NoneLeft s t [] h = (loaded-injective s t h, refl)
  judged-NoneLeft s t (p ∷ left) h = ground (arith, ap is_loaded h)

  judge-NoneLeft :
      (s t : Settings) (problems : Option (List (String × String)))
      → production_problems urls s ≡ problems
      → judge s problems ≡ loaded t
      → (s ≡ t) × NoneLeft s
  unfolding judge is_loaded
  judge-NoneLeft s t none e h = ground (arith, ap is_loaded h)
  judge-NoneLeft s t (some problems) e h =
      let (same, left) = judged-NoneLeft s t _ h in (same, (problems, e, left))

  checked :
      (given : String) (s : Settings)
      → PublicUrl urls given s
      → All (λ name. any (str_eq name) production_checks ≡ true) s.prod_checks_waived
      → NoneLeft s
      → Production urls (some given) s
  unfolding production_problems problems_of
  checked given s url known (problems, found, left) =
      let (public, e1, h1) = >>=_some (host urls s.public_url) _ problems found in
      let (llm_host, e2, h2) = >>=_some (host urls s.llm_base_url) _ problems h1 in
      let (idp_host, e3, h3) = >>=_some (host urls (oidc_metadata_url s)) _ problems h2 in
      let (values, e4, h4) = >>=_some (secrets urls s) _ problems h3 in
      let unwaived = (λ (p : String × String). not (is_waived s p)) in
      let all_of_them = ap (keep unwaived) (some-injective _ _ h4) ∙ left in
      let (c1, l1) = keep-add_problem unwaived _ "localhost_url" _ _ all_of_them in
      let (c2, l2) = keep-add_problem unwaived _ "insecure_cookies" _ _ l1 in
      let (c3, l3) = keep-add_problem unwaived _ "mock_model" _ _ l2 in
      let (c4, l4) = keep-add_problem unwaived _ "demo_identity_provider" _ _ l3 in
      let (c5, l5) = keep-add_problem unwaived _ "example_secret" _ _ l4 in
      let (c6, l6) = keep-add_problem unwaived _ "trace_content" _ _ l5 in
      record {
        given_url = given;
        is_given = refl;
        url = url;
        public = public;
        llm_host = llm_host;
        idp_host = idp_host;
        values = values;
        public_host = e1;
        model_host = e2;
        provider_host = e3;
        secret_values = e4;
        reachable = unless s _ "localhost_url" _ c1;
        encrypted =
            Unless-map s "insecure_cookies" _ _
              (λ e.
                let (secure, no_http) = insecure_cookies_no s e in
                (
                  secure,
                  https_only url.parts.scheme url.parts.netloc url.web
                      (subst (λ u. begins "http://" u ≡ false) url.kept no_http),
                ))
              (unless s _ "insecure_cookies" _ c2);
        real_model =
            Unless-map s "mock_model" _ _ (mock_model_no s llm_host) (unless s _ "mock_model" _ c3);
        real_provider = unless s _ "demo_identity_provider" _ c4;
        own_secrets =
            Unless-map s "example_secret" _ _ (any-false (begins "change-me") values)
              (unless s _ "example_secret" _ c5);
        untraced = unless s _ "trace_content" _ c6;
        known_waivers = known;
      }

  by_environment-Production :
      (t s : Settings) (env : AppEnv)
      → t.app_env ≡ env
      → s.app_env ≡ prod
      → by_environment urls env t ≡ loaded s
      → (t ≡ s) × NoneLeft t
  unfolding by_environment
  by_environment-Production t s dev e p h =
      ground (arith, e, p, ap (λ (s : Settings). s.app_env) (loaded-injective t s h))
  by_environment-Production t s test e p h =
      ground (arith, e, p, ap (λ (s : Settings). s.app_env) (loaded-injective t s h))
  by_environment-Production t s prod e p h = judge-NoneLeft t s (production_problems urls t) refl h

  -- The settings that a process in production starts with: each of the six checks holds or is waived
  -- by its name, and only names of checks are waived. The public URL is the scheme and the network
  -- location of the one that is given, which has the scheme http or https, a network location that is
  -- not empty, and no path but "/". Unless plain HTTP is waived, cookies are secure and the scheme is
  -- https.
  pub load-Production :
      (alphabet : Alphabet) (env : Environment) (s : Settings)
      → load urls alphabet env ≡ loaded s
      → s.app_env ≡ prod
      → Production urls (env.value "public_url") s
  unfolding load after_fields safe_for_production is_loaded
  load-Production alphabet env s h p = started (fields alphabet env >>= validated urls) refl h
    where
      started :
          (o : Option Settings)
          → (fields alphabet env >>= validated urls) ≡ o
          → after_fields urls o ≡ loaded s
          → Production urls (env.value "public_url") s
      started none e h = ground (arith, ap is_loaded h)
      started (some t) e h =
          let (f, read, valid) = >>=_some (fields alphabet env) (validated urls) t e in
          let (url, known) = validated-Valid f t valid in
          let (same, left) = by_environment-Production t s t.app_env refl p h in
          subst (λ given. Production urls given s)
            (sym (
              Every_at (λ (s : Settings). env.value "public_url" ≡ some s.public_url)
                (fields alphabet env) f (fields-given alphabet env) read))
            (subst (Production urls (some f.public_url)) same
              (checked f.public_url t url known left))
