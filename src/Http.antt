-- ===== src/Http.antt =====
-- What a handler answers instead of a result: `HTTPException`, and `ApiError` of
-- apps/api/app/errors.py. A handler that may raise one returns a `Result`.
use triage_assistant.Prelude.{
  Bool, true, false, ◌≡◌, refl, ap, arith, ℕ, String, Option, none, some, List, [],
}

pub record Failure : Type 0 where
  pub status : ℕ
  -- The code of an `ApiError`; None for a plain `HTTPException`.
  pub code : Option String
  pub detail : String
  pub headers : List (String × String)

abbrev pub http_error : ℕ → String → Failure
http_error status detail = record { status = status; code = none; detail = detail; headers = [] }

abbrev pub api_error : ℕ → String → String → Failure
api_error status code detail = record {
  status = status;
  code = some code;
  detail = detail;
  headers = [];
}

pub data Result {ℓ} (A : Type ℓ) : Type ℓ where
  ok : A → Result A
  err : Failure → Result A

-- A chain stops at its first failure.
infixl 5 ◌>>=◌
abbrev pub ◌>>=◌ {ℓ κ} : {A : Type ℓ} {C : Type κ} → Result A → (A → Result C) → Result C
err failure >>= next = err failure
ok value >>= next = next value

infixl 5 ◌>>◌
abbrev pub ◌>>◌ {ℓ} : {C : Type ℓ} → Result (Unit {0}) → Result C → Result C
first >> second = first >>= (λ done. second)

value_or {ℓ} : {A : Type ℓ} → A → Result A → A
value_or a (ok b) = b
value_or a (err e) = a

pub ok-injective {ℓ} : {A : Type ℓ} (a b : A) → ok a ≡ ok b → a ≡ b
unfolding value_or
ok-injective a b h = ap (value_or a) h

is_ok {ℓ} : {A : Type ℓ} → Result A → Bool
is_ok (ok a) = true
is_ok (err e) = false

pub err≢ok {ℓ} : {A : Type ℓ} (e : Failure) (a : A) → ¬ (err e ≡ ok a)
unfolding is_ok
err≢ok e a h = ground (arith, ap is_ok h)

-- What a chain that succeeds went through.
pub >>=_ok {ℓ κ} :
    {A : Type ℓ} {B : Type κ} (r : Result A) (f : A → Result B) (b : B)
    → (r >>= f) ≡ ok b
    → (a : A) × (r ≡ ok a) × (f a ≡ ok b)
>>=_ok (ok a) f b h = (a, refl, h)
>>=_ok (err e) f b h = absurd (err≢ok e b h)
