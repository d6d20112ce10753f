-- ===== src/Ratelimit/Tests.antt =====
-- The theorems on apps/api/app/ratelimit.py at small inputs, with a server that is a list of keys
-- with their counts.
use triage_assistant.Prelude.{
  inr, inl, subst, Bool-cases, Bool, false, ◌*◌, ap, ℕ, suc, ◌+◌, ◌≤◌, max, ◌≡◌, refl, ◌∙◌, sym,
  String, some, some-injective, List, [], ◌∷◌, arith, str_eq, eq_refl, true, if◌then◌else◌,
}
use triage_assistant.Ratelimit.{Redis, Hit}
use triage_assistant.Ratelimit.Bound.{granted, losses, granted-le}

abbrev times : String → List String → ℕ
times k [] = 0
times k (j ∷ ks) = if str_eq j k then suc (times k ks) else times k ks

times-cons : (k : String) (ks : List String) → times k (k ∷ ks) ≡ suc (times k ks)
times-cons k ks = rw eq_refl refl

-- The commands that are still counted, newest first: a hit of user 8 makes the server drop all.
abbrev crowds : String → Bool
crowds k = str_eq k "rl:chat:user:8:1"

abbrev left : String → List String → List String
left k ks = if crowds k then [] else ks

left-times :
    (k j : String) (ks : List String) → times j (left k ks) ≡ (if crowds k then 0 else times j ks)
left-times k j ks = elim (Bool-cases (crowds k)) [ inl e ↦ rw e refl | inr e ↦ rw e refl ]

times-left :
    (k j : String) (ks : List String) → crowds k ≡ false → times j ks ≤ times j (k ∷ left k ks)
times-left k j ks h =
    let e : left k ks ≡ ks = rw h refl in
    subst (λ l. times j ks ≤ times j (k ∷ l)) (sym e) (ground arith)

abbrev server : Redis
server = record {
  State = List String;
  count = times;
  hit = λ k ks. (some (suc (times k (left k ks))), k ∷ left k ks);
  loses = λ k j ks. crowds k;
  hit_counts = λ k ks n h. (
    sym (some-injective _ _ h) ∙ ap (λ n. suc n) (left-times k k ks),
    times-cons k (left k ks) ∙ some-injective _ _ h,
  );
  hit_keeps = times-left;
}

abbrev ask : String → ℕ → Hit
ask client now = record {
  scope = "chat";
  client = client;
  limit = 2;
  window_s = 60;
  fail_closed = true;
  now = now;
}

abbrev requests : List Hit
requests = ask "user:7" 61 ∷ ask "user:7" 62 ∷ ask "user:8" 63 ∷ ask "user:7" 64 ∷ []

granted-le_example :
    granted server "rl:chat:user:7:1" requests [] + 0
    ≤ max 2 0 + 2 * losses server "rl:chat:user:7:1" requests []
granted-le_example =
    granted-le server "rl:chat:user:7:1" 2 requests []
      ((λ e. omega arith), ((λ e. omega arith), ((λ e. omega arith), ((λ e. omega arith), tt))))
