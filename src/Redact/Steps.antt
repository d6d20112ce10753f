-- ===== src/Redact/Steps.antt =====
-- Replacing parts of a text, one after the other, as the substitutions of apps/api/app/redact.py do.
use triage_assistant.Prelude.{
  ℕ, suc, ◌+◌, ◌≡◌, refl, sym, ap, ◌∙◌, subst, String, List, [], ◌∷◌, All, append_assoc, ◌+++◌,
  arith,
}
use triage_assistant.Redact.{redacted, Matches, sub_all, sub, sub_each}

-- `n` parts, each one that `P` holds of, replaced one after the other.
pub data Steps (P : String → Type 0) : ℕ → String → String → Type 0 where
  unchanged : {a b : String} → a ≡ b → Steps P 0 a b
  replaced :
      {a b : String} (n : ℕ) (before secret after : String)
      → a ≡ before +++ secret +++ after
      → P secret
      → Steps P n (before +++ redacted +++ after) b
      → Steps P (suc n) a b

module _ {M : Type 0} (text : M → String) where
  -- The text that matches stand in.
  abbrev pub joined_matches : List (String × M) → String → String
  joined_matches [] tail = tail
  joined_matches ((before, m) ∷ found) tail = before +++ text m +++ joined_matches found tail

  -- Matches are parts of the text that they were found in, apart and from left to right.
  abbrev pub InText : (String → Matches M) → Type 0
  InText pattern = (s : String) → joined_matches (pattern s).found (pattern s).tail ≡ s

module _ (P : String → Type 0) where
  Steps-from : (n : ℕ) (a b c : String) → a ≡ b → Steps P n b c → Steps P n a c
  Steps-from n a b c e s = subst (λ t. Steps P n t c) (sym e) s

  Steps-after : (l : String) (n : ℕ) (a b : String) → Steps P n a b → Steps P n (l +++ a) (l +++ b)
  Steps-after l _ a b (unchanged e) = unchanged (ap (λ t. l +++ t) e)
  Steps-after l _ a b (replaced n before secret after e p rest) =
      replaced n (l +++ before) secret after
        (ap (λ t. l +++ t) e ∙ sym (append_assoc l before (secret +++ after))) p
        (Steps-from n _ _ _ (append_assoc l before (redacted +++ after))
          (Steps-after l n (before +++ redacted +++ after) b rest))

  Steps-before : (r : String) (n : ℕ) (a b : String) → Steps P n a b → Steps P n (a +++ r) (b +++ r)
  Steps-before r _ a b (unchanged e) = unchanged (ap (λ t. t +++ r) e)
  Steps-before r _ a b (replaced n before secret after e p rest) =
      replaced n before secret (after +++ r)
        (ap (λ t. t +++ r) e
          ∙ append_assoc before (secret +++ after) r
          ∙ ap (λ t. before +++ t) (append_assoc secret after r))
        p
        (Steps-from n _ _ _ (sym (append_assoc before (redacted +++ after) r))
          (Steps-before r n (before +++ redacted +++ after) b rest))

  pub Steps-trans : (n k : ℕ) (a b c : String) → Steps P n a b → Steps P k b c → Steps P (n + k) a c
  Steps-trans _ k a b c (unchanged e) s =
      let same : k ≡ 0 + k = omega arith in subst (λ i. Steps P i a c) same (Steps-from k a b c e s)
  Steps-trans _ k a b c (replaced n before secret after e p rest) s =
      let same : suc (n + k) ≡ suc n + k = omega arith in
      subst (λ i. Steps P i a c) same
        (replaced (n + k) before secret after e p
          (Steps-trans n k (before +++ redacted +++ after) b c rest s))

  module _ {M : Type 0} (text : M → String) where
    module _ (replace : M → String × ℕ) where
      abbrev pub Replaces : M → Type 0
      Replaces m = Steps P (replace m).1 (text m) (replace m).0

      sub_all-Steps :
          (found : List (String × M)) (tail : String)
          → All (λ f. Replaces f.1) found
          → Steps P
              (sub_all replace found tail).1
              (joined_matches text found tail)
              (sub_all replace found tail).0
      unfolding sub_all
      sub_all-Steps [] tail h = unchanged refl
      sub_all-Steps ((before, m) ∷ found) tail h =
          let rest = sub_all replace found tail in
          Steps-after before ((replace m).1 + rest.1) _ _ (
            Steps-trans (replace m).1 rest.1 _ ((replace m).0 +++ joined_matches text found tail) _
              (Steps-before (joined_matches text found tail) (replace m).1 (text m) (replace m).0
                h.0)
              (Steps-after (replace m).0 rest.1 (joined_matches text found tail) rest.0
                (sub_all-Steps found tail h.1)))

      pub sub-Steps :
          (pattern : String → Matches M) (s : String)
          → InText text pattern
          → All (λ f. Replaces f.1) (pattern s).found
          → Steps P (sub pattern replace s).1 s (sub pattern replace s).0
      unfolding sub
      sub-Steps pattern s law h =
          Steps-from _ s _ _ (sym (law s)) (sub_all-Steps (pattern s).found (pattern s).tail h)

      pub sub_each-Steps :
          (patterns : List (String → Matches M)) (s : String)
          → All (InText text) patterns
          → All (λ pattern. (s : String) → All (λ f. Replaces f.1) (pattern s).found) patterns
          → Steps P (sub_each replace patterns s).1 s (sub_each replace patterns s).0
      unfolding sub_each
      sub_each-Steps [] s law h = unchanged refl
      sub_each-Steps (pattern ∷ patterns) s law h =
          let once = sub pattern replace s in
          Steps-trans once.1 _ s once.0 _ (sub-Steps pattern s law.0 (h.0 s))
            (sub_each-Steps patterns once.0 law.1 h.1)
