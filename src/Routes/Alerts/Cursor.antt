-- ===== src/Routes/Alerts/Cursor.antt =====
-- `encode_cursor` and `decode_cursor` of apps/api/app/routes/alerts.py.
use triage_assistant.Prelude.{
  ℕ, String, code, ◌≡◌, refl, Bool, true, not, Option, none, some, List, [], ◌∷◌, ◌==◌,
  if◌then◌else◌, ◌+++◌, all_chars, all_chars_weaken, arith,
}
use triage_assistant.Prelude.Numbers.{
  decimal, read_decimal, read_decimal-decimal, all_chars-decimal, is_digit,
}
use triage_assistant.Http.{Result, ok, err, http_error}
use triage_assistant.Models.{AlertOut}

abbrev pub no_bar : String → Bool
no_bar s = all_chars (λ c. not (c == b'|')) s

-- What the cursor uses of Python's `datetime` and `base64`: a point in time as text and back, which
-- holds no bar, and URL-safe base64 and back.
pub record Codec : Type 0 where
  pub isoformat : ℕ → String
  pub fromisoformat : String → Option ℕ
  pub b64encode : String → String
  pub b64decode : String → Option String
  pub from_isoformat : (t : ℕ) → fromisoformat (isoformat t) ≡ some t
  pub isoformat_no_bar : (t : ℕ) → no_bar (isoformat t) ≡ true
  pub decode_encode : (s : String) → b64decode (b64encode s) ≡ some s

-- `s.split("|")`
cons_part : String → List String → List String
cons_part c [] = c ∷ []
cons_part c (part ∷ rest) = (c +++ part) ∷ rest

unfoldable pub split_bar : String → List String
unfolding cons_part
split_bar String.[] = "" ∷ []
split_bar (String.◌∷◌ c s) =
    let rest = split_bar s in if code c == b'|' then "" ∷ rest else cons_part (String.◌∷◌ c "") rest

module _ (codec : Codec) where
  unfoldable pub encode_cursor : AlertOut → String
  encode_cursor alert =
      codec.b64encode (codec.isoformat alert.created_at +++ "|" +++ decimal alert.id)

  both : Option ℕ → Option ℕ → Option (ℕ × ℕ)
  both (some created_at) (some id) = some (created_at, id)
  both _ _ = none

  -- The unpacking into two names fails on any other number of parts.
  parts : List String → Option (ℕ × ℕ)
  unfolding both
  parts (created_at ∷ id ∷ []) = both (codec.fromisoformat created_at) (read_decimal id)
  parts _ = none

  decoded : Option String → Option (ℕ × ℕ)
  unfolding parts
  decoded none = none
  decoded (some raw) = parts (split_bar raw)

  or_400 : Option (ℕ × ℕ) → Result (ℕ × ℕ)
  or_400 none = err (http_error 400 "invalid cursor")
  or_400 (some before) = ok before

  unfoldable pub decode_cursor : String → Result (ℕ × ℕ)
  unfolding decoded or_400
  decode_cursor cursor = or_400 (decoded (codec.b64decode cursor))

split_bar_whole : (s : String) → no_bar s ≡ true → split_bar s ≡ s ∷ []
unfolding split_bar
split_bar_whole String.[] h = refl
split_bar_whole (String.◌∷◌ c s) h = ground (arith, split_bar_whole s)

split_bar_two :
    (s t : String) → no_bar s ≡ true → no_bar t ≡ true → split_bar (s +++ "|" +++ t) ≡ s ∷ t ∷ []
unfolding split_bar
split_bar_two String.[] t h k = ground (arith, split_bar_whole t)
split_bar_two (String.◌∷◌ c s) t h k = ground (arith, split_bar_two s t)

digit_no_bar : (c : ℕ) → is_digit c ≡ true → not (c == b'|') ≡ true
digit_no_bar c h = ground arith

pub no_bar-decimal : (n : ℕ) → no_bar (decimal n) ≡ true
no_bar-decimal n = all_chars_weaken is_digit _ (decimal n) digit_no_bar (all_chars-decimal n)

-- A cursor decodes to the row that it was made from: its time and its id.
pub decode_cursor-encode_cursor :
    (codec : Codec) (alert : AlertOut)
    → decode_cursor codec (encode_cursor codec alert) ≡ ok (alert.created_at, alert.id)
unfolding decode_cursor encode_cursor
decode_cursor-encode_cursor codec alert = rw (
  codec.decode_encode _,
  split_bar_two (codec.isoformat alert.created_at) (decimal alert.id)
      (codec.isoformat_no_bar alert.created_at) (no_bar-decimal alert.id),
  codec.from_isoformat alert.created_at,
  read_decimal-decimal alert.id,
)
