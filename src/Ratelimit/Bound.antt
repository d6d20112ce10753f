-- ===== src/Ratelimit/Bound.antt =====
-- How many requests the limiter of apps/api/app/ratelimit.py lets through.
use triage_assistant.Prelude.{
  sym, false, ◌*◌, All, ℕ, suc, ◌+◌, ◌≤◌, max, String, ◌≡◌, refl, ◌∙◌, Bool, true, not, ◌&&◌,
  Option, none, some, List, [], ◌∷◌, str_eq, eq_iff, if◌then◌else◌, arith, subst,
}
use triage_assistant.Ratelimit.{Redis, Decision, Hit, key, hit, decided, reset_of}

-- A decision that the counter made, in favour of the request.
abbrev pub counted : Decision → Bool
counted d = d.allowed && not d.degraded

module _ (redis : Redis) where
  -- How many of a sequence of requests are let through by the counter under a key.
  abbrev pub granted : String → List Hit → redis.State → ℕ
  granted k [] s = 0
  granted k (h ∷ hs) s =
      let (d, s') = hit redis h s in
      (if str_eq (key h) k && counted d then 1 else 0) + granted k hs s'

  abbrev pub Limited : String → ℕ → List Hit → Type 0
  Limited k limit hs = All (λ h. key h ≡ k → h.limit ≤ limit) hs

  counted-decided :
      (limit reset_s : ℕ) (fail_closed : Bool) (o : Option ℕ)
      → counted (decided limit reset_s fail_closed o) ≡ true
      → (n : ℕ) × (o ≡ some n) × (n ≤ limit)
  unfolding decided
  counted-decided limit reset_s fail_closed none h = absurd (ground (arith, h))
  counted-decided limit reset_s fail_closed (some n) h = (n, refl, ground (arith, h))

  -- How often the server loses the counter of a key during a sequence of requests.
  abbrev pub losses : String → List Hit → redis.State → ℕ
  losses k [] s = 0
  losses k (h ∷ hs) s = (if redis.loses (key h) k s then 1 else 0) + losses k hs (hit redis h s).1

  -- A request that is let through leaves the next count, no more than the limit.
  moves :
      (h : Hit) (s : redis.State)
      → counted (hit redis h s).0 ≡ true
      → (redis.count (key h) (hit redis h s).1
          ≡ suc (if redis.loses (key h) (key h) s then 0 else redis.count (key h) s))
        × (redis.count (key h) (hit redis h s).1 ≤ h.limit)
  unfolding hit
  moves h s c =
      let (n, e, le) = counted-decided h.limit (reset_of h.window_s h.now) h.fail_closed _ c in
      let (before, after) = redis.hit_counts (key h) s n e in
      (after ∙ before, omega (arith, after, le))

  -- One request, from the count before it to the count after it. `more` is what losses allow.
  counts_on :
      (limit rest before after more : ℕ) (through lost : Bool)
      → (through ≡ true → (after ≡ suc (if lost then 0 else before)) × (after ≤ limit))
      → (lost ≡ false → before ≤ after)
      → rest + after ≤ max limit after + more
      → (if through then 1 else 0) + rest + before
        ≤ max limit before + ((if lost then limit else 0) + more)
  counts_on limit rest before after more true true m k r = omega (arith, r, (m refl).0, (m refl).1)
  counts_on limit rest before after more true false m k r = omega (arith, r, (m refl).0, (m refl).1)
  counts_on limit rest before after more false true m k r = omega (arith, r)
  counts_on limit rest before after more false false m k r = omega (arith, r, k refl)

  limit_again :
      (limit n : ℕ) (lost : Bool)
      → limit * ((if lost then 1 else 0) + n) ≡ (if lost then limit else 0) + limit * n
  limit_again limit n true = grind arith
  limit_again limit n false = grind arith

  keeps_on :
      (k : String) (h : Hit) (s : redis.State)
      → redis.loses (key h) k s ≡ false
      → redis.count k s ≤ redis.count k (hit redis h s).1
  unfolding hit
  keeps_on k h s e = redis.hit_keeps (key h) k s e

  step :
      (k : String) (limit rest more : ℕ) (h : Hit) (s : redis.State)
      → (key h ≡ k → h.limit ≤ limit)
      → rest + redis.count k (hit redis h s).1 ≤ max limit (redis.count k (hit redis h s).1) + more
      → (if str_eq (key h) k && counted (hit redis h s).0 then 1 else 0) + rest + redis.count k s
        ≤ max limit (redis.count k s) + ((if redis.loses (key h) k s then limit else 0) + more)
  step k limit rest more h s l r =
      counts_on limit rest (redis.count k s) (redis.count k (hit redis h s).1) more
        (str_eq (key h) k && counted (hit redis h s).0) (redis.loses (key h) k s) moved
        (keeps_on k h s) r
    where
      moved :
          (str_eq (key h) k && counted (hit redis h s).0) ≡ true
          → (redis.count k (hit redis h s).1
              ≡ suc (if redis.loses (key h) k s then 0 else redis.count k s))
            × (redis.count k (hit redis h s).1 ≤ limit)
      moved e =
          let same : key h ≡ k = ground (arith, e, eq_iff (key h) k) in
          let (n, le) = moves h s (ground (arith, e)) in
          (
            subst
                (λ j.
                  redis.count j (hit redis h s).1
                  ≡ suc (if redis.loses (key h) j s then 0 else redis.count j s))
                same n,
            omega (arith, l same, subst (λ j. redis.count j (hit redis h s).1 ≤ h.limit) same le),
          )

  -- Where no request under one key has a higher limit: whatever the order of requests, the clients and
  -- the times, and whichever of them the server fails on, from any state, no more than the limit are
  -- let through by the counter under that key, and so for one client within one window, those that
  -- the server already counted counted in; and as many again for each time that the server loses
  -- that counter.
  pub granted-le :
      (k : String) (limit : ℕ) (hs : List Hit) (s : redis.State)
      → Limited k limit hs
      → granted k hs s + redis.count k s ≤ max limit (redis.count k s) + limit * losses k hs s
  granted-le k limit [] s l = omega arith
  granted-le k limit (h ∷ hs) s l =
      subst (λ x. granted k (h ∷ hs) s + redis.count k s ≤ max limit (redis.count k s) + x)
        (sym (limit_again limit (losses k hs (hit redis h s).1) (redis.loses (key h) k s)))
        (step k limit (granted k hs (hit redis h s).1) (limit * losses k hs (hit redis h s).1) h s
          l.0 (granted-le k limit hs (hit redis h s).1 l.1))
