-- ===== src/Prelude/Texts.antt =====
-- Texts as the program walks them: by characters.
use Prim.Native.Nat.{ℕ, zero, suc, ◌+◌}
use Prim.Native.Char.{code}
use Prim.Native.String.{String}
use mathlib.Core.Path.{◌≡◌, refl, ap}
use mathlib.Core.Bool.{Bool, true, false, ◌&&◌}
use mathlib.Core.List.{List, [], ◌∷◌}
use triage_assistant.Prelude.Tests.{◌==◌}
use native.Mathlib.Omega.{arith}

-- `s + t`
infixr 65 ◌+++◌
abbrev pub ◌+++◌ : String → String → String
String.[] +++ t = t
(String.◌∷◌ c s) +++ t = String.◌∷◌ c (s +++ t)

-- `len(s)`
abbrev pub text_length : String → ℕ
text_length String.[] = 0
text_length (String.◌∷◌ c s) = suc (text_length s)

-- `s[:n]` and `s[n:]`
abbrev pub front : ℕ → String → String
front zero s = String.[]
front (suc n) String.[] = String.[]
front (suc n) (String.◌∷◌ c s) = String.◌∷◌ c (front n s)

abbrev pub back : ℕ → String → String
back zero s = s
back (suc n) String.[] = String.[]
back (suc n) (String.◌∷◌ c s) = back n s

abbrev pub all_chars : (ℕ → Bool) → String → Bool
all_chars p String.[] = true
all_chars p (String.◌∷◌ c s) = p (code c) && all_chars p s

-- `sep.join(texts)`
abbrev pub join : String → List String → String
join sep [] = ""
join sep (s ∷ []) = s
join sep (s ∷ t ∷ rest) = s +++ sep +++ join sep (t ∷ rest)

-- `not s`
abbrev pub is_empty : String → Bool
is_empty String.[] = true
is_empty (String.◌∷◌ c s) = false

-- `s.startswith(p)`
abbrev pub begins : String → String → Bool
begins String.[] s = true
begins (String.◌∷◌ c p) String.[] = false
begins (String.◌∷◌ c p) (String.◌∷◌ d s) = (code c == code d) && begins p s

pub front-back : (n : ℕ) (s : String) → front n s +++ back n s ≡ s
front-back zero s = refl
front-back (suc n) String.[] = refl
front-back (suc n) (String.◌∷◌ c s) = ap (λ t. String.◌∷◌ c t) (front-back n s)

pub text_length-append : (s t : String) → text_length (s +++ t) ≡ text_length s + text_length t
text_length-append String.[] t = omega arith
text_length-append (String.◌∷◌ c s) t = omega (arith, text_length-append s t)

pub append_empty : (s : String) → s +++ "" ≡ s
append_empty String.[] = refl
append_empty (String.◌∷◌ c s) = ap (λ r. String.◌∷◌ c r) (append_empty s)

pub append_assoc : (s t u : String) → (s +++ t) +++ u ≡ s +++ t +++ u
append_assoc String.[] t u = refl
append_assoc (String.◌∷◌ c s) t u = ap (λ r. String.◌∷◌ c r) (append_assoc s t u)

pub all_chars_weaken :
    (p q : ℕ → Bool) (s : String)
    → ((c : ℕ) → p c ≡ true → q c ≡ true)
    → all_chars p s ≡ true
    → all_chars q s ≡ true
all_chars_weaken p q String.[] f h = refl
all_chars_weaken p q (String.◌∷◌ c s) f h = ground (arith, f (code c), all_chars_weaken p q s f)
