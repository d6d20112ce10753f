-- ===== src/Prelude/Numbers.antt =====
-- `str(n)` for a natural number, and reading it back.
use triage_assistant.Prelude.{
  Bool, true, ℕ, zero, suc, ◌+◌, ◌-◌, ◌*◌, ◌/◌, ◌%◌, ◌<◌, Char, code, String, ◌≡◌, refl, ap, ◌∙◌,
  false, ◌&&◌, Option, none, some, ltb, leb, ◌==◌, if◌then◌else◌, is_empty, all_chars, Bool-cases,
  inl, inr, arith,
}

digit : ℕ → Char
digit d =
    if d == 0
    then "0"
    else if d == 1
    then "1"
    else if d == 2
    then "2"
    else if d == 3
    then "3"
    else if d == 4
    then "4"
    else if d == 5
    then "5"
    else if d == 6
    then "6"
    else if d == 7
    then "7"
    else if d == 8
    then "8"
    else "9"

-- The digits of `n` in front of `out`; each round divides by ten, so that `n` rounds are enough.
digits : ℕ → ℕ → String → String
unfolding digit
digits zero n out = out
digits (suc fuel) n out =
    let more = digits fuel (n / 10) (String.◌∷◌ (digit (n % 10)) out) in
    if ltb n 10 then String.◌∷◌ (digit n) out else more

unfoldable pub decimal : ℕ → String
unfolding digits
decimal n = digits (suc n) n ""

-- The number that a text of digits names, after the digits that stand for `n`.
abbrev value : ℕ → String → Option ℕ
value n String.[] = some n
value n (String.◌∷◌ c s) =
    if leb b'0' (code c) && leb (code c) b'9' then value (n * 10 + (code c - b'0')) s else none

-- `int(s)` of a text that is not empty and holds digits only.
unfoldable pub read_decimal : String → Option ℕ
read_decimal String.[] = none
read_decimal (String.◌∷◌ c s) = value 0 (String.◌∷◌ c s)

code-digit : (d : ℕ) → d < 10 → code (digit d) ≡ b'0' + d
unfolding digit
code-digit zero h = refl
code-digit (suc zero) h = refl
code-digit (suc (suc zero)) h = refl
code-digit (suc (suc (suc zero))) h = refl
code-digit (suc (suc (suc (suc zero)))) h = refl
code-digit (suc (suc (suc (suc (suc zero))))) h = refl
code-digit (suc (suc (suc (suc (suc (suc zero)))))) h = refl
code-digit (suc (suc (suc (suc (suc (suc (suc zero))))))) h = refl
code-digit (suc (suc (suc (suc (suc (suc (suc (suc zero)))))))) h = refl
code-digit (suc (suc (suc (suc (suc (suc (suc (suc (suc zero))))))))) h = refl
code-digit (suc (suc (suc (suc (suc (suc (suc (suc (suc (suc n)))))))))) h = absurd (omega arith)

value-digit :
    (m d : ℕ) (s : String) → d < 10 → value m (String.◌∷◌ (digit d) s) ≡ value (m * 10 + d) s
value-digit m d s h = rw (code-digit d h) (ground arith)

value_rest :
    (fuel n : ℕ) (out : String)
    → value 0 (digits fuel (n / 10) (String.◌∷◌ (digit (n % 10)) out))
      ≡ value (n / 10) (String.◌∷◌ (digit (n % 10)) out)
    → value 0 (digits fuel (n / 10) (String.◌∷◌ (digit (n % 10)) out)) ≡ value n out
value_rest fuel n out rest =
    rest ∙ value-digit (n / 10) (n % 10) out (omega arith) ∙ ap (λ m. value m out) (omega arith)

value-digits : (fuel n : ℕ) (out : String) → n < fuel → value 0 (digits fuel n out) ≡ value n out
unfolding digits
value-digits zero n out h = absurd (omega arith)
value-digits (suc fuel) n out h = elim (Bool-cases (ltb n 10)) [
  | inl e ↦ rw e (value-digit 0 n out (ground arith) ∙ ap (λ m. value m out) (omega arith))
  | inr e ↦ rw e (value_rest fuel n out (value-digits fuel (n / 10) _ (ground arith)))
]

digits_not_empty :
    (fuel n : ℕ) (out : String) → is_empty out ≡ false → is_empty (digits fuel n out) ≡ false
unfolding digits
digits_not_empty zero n out h = h
digits_not_empty (suc fuel) n out h =
    ground (arith, digits_not_empty fuel (n / 10) (String.◌∷◌ (digit (n % 10)) out) refl)

pub decimal_not_empty : (n : ℕ) → is_empty (decimal n) ≡ false
unfolding decimal
decimal_not_empty n = elim (Bool-cases (ltb n 10)) [
  | inl e ↦ rw e
  | inr e ↦ rw e (digits_not_empty n (n / 10) _ refl)
]

read_decimal-value : (s : String) → is_empty s ≡ false → read_decimal s ≡ value 0 s
unfolding read_decimal
read_decimal-value String.[] h = cc
read_decimal-value (String.◌∷◌ c s) h = refl

-- A printed number reads back.
pub read_decimal-decimal : (n : ℕ) → read_decimal (decimal n) ≡ some n
unfolding decimal
read_decimal-decimal n =
    read_decimal-value (decimal n) (decimal_not_empty n) ∙ value-digits (suc n) n "" (omega arith)

abbrev pub is_digit : ℕ → Bool
is_digit c = leb b'0' c && leb c b'9'

all_chars-digits :
    (fuel n : ℕ) (out : String)
    → all_chars is_digit out ≡ true
    → all_chars is_digit (digits fuel n out) ≡ true
unfolding digits
all_chars-digits zero n out h = h
all_chars-digits (suc fuel) n out h = elim (Bool-cases (ltb n 10)) [
  | inl e ↦ rw (e, code-digit n (ground arith)) (ground arith)
  | inr e ↦ rw e (
      all_chars-digits fuel (n / 10) (String.◌∷◌ (digit (n % 10)) out)
        (rw (code-digit (n % 10) (omega arith)) (ground arith)))
]

pub all_chars-decimal : (n : ℕ) → all_chars is_digit (decimal n) ≡ true
unfolding decimal
all_chars-decimal n = all_chars-digits (suc n) n "" refl

decimal_42 : decimal 42 ≡ "42"
unfolding decimal
decimal_42 = refl

decimal_big : decimal 18446744073709551615 ≡ "18446744073709551615"
unfolding decimal
decimal_big = refl
