-- ===== src/Json/Clean.antt =====
-- What `json.dumps` writes has no control characters.
use triage_assistant.Prelude.{
  Char, ℕ, zero, suc, ◌/◌, ◌%◌, front, ltb, ◌==◌, ◌≡◌, refl, Bool, true, false, not, String, code,
  back, all_chars, if◌then◌else◌, ◌+++◌, arith,
}
use triage_assistant.Json.{
  Json, Items, Fields, null, boolean, numeral, string, array, object, nil, cons, end, field, dumps,
  dumps_items, dumps_more, dumps_fields, dumps_others, quoted, escaped, escape, hex,
}

-- A text without control characters.
abbrev pub Clean : String → Type 0
Clean s = all_chars (λ c. not (ltb c 32)) s ≡ true

-- Numbers are written without any.
unfoldable mutual
  pub Plain : Json → Type 0
  Plain (numeral n) = Clean n
  Plain (array items) = PlainItems items
  Plain (object fields) = PlainFields fields
  Plain v = Unit {0}

  pub PlainItems : Items → Type 0
  PlainItems nil = Unit {0}
  PlainItems (cons v rest) = Plain v × PlainItems rest

  pub PlainFields : Fields → Type 0
  PlainFields end = Unit {0}
  PlainFields (field k v rest) = Plain v × PlainFields rest

pub Clean-append : (s t : String) → Clean s → Clean t → Clean (s +++ t)
Clean-append String.[] t h k = k
Clean-append (String.◌∷◌ c s) t h k = ground (arith, Clean-append s t)

front-Clean : (n : ℕ) (s : String) → Clean s → Clean (front n s)
front-Clean zero s h = refl
front-Clean (suc n) String.[] h = refl
front-Clean (suc n) (String.◌∷◌ c s) h = ground (arith, front-Clean n s)

back-Clean : (n : ℕ) (s : String) → Clean s → Clean (back n s)
back-Clean zero s h = h
back-Clean (suc n) String.[] h = refl
back-Clean (suc n) (String.◌∷◌ c s) h = ground (arith, back-Clean n s)

hex-Clean : (n : ℕ) → Clean (hex n)
unfolding hex
hex-Clean n = front-Clean 1 (back n "0123456789abcdef") (back-Clean n "0123456789abcdef" refl)

if_Clean : (b : Bool) (s t : String) → Clean s → (b ≡ false → Clean t) → Clean (if b then s else t)
if_Clean true s t h k = h
if_Clean false s t h k = k refl

escape-Clean : (c : Char) → Clean (escape (code c) (String.◌∷◌ c ""))
unfolding escape
escape-Clean c = if_Clean (code c == b'"') "\\\"" _ refl (λ h1.
    if_Clean (code c == b'\\') "\\\\" _ refl (λ h2. if_Clean (code c == b'\n') "\\n" _ refl (λ h3.
      if_Clean (code c == b'\r') "\\r" _ refl (λ h4. if_Clean (code c == b'\t') "\\t" _ refl (λ h5.
        if_Clean (code c == 8) "\\b" _ refl (λ h6. if_Clean (code c == 12) "\\f" _ refl (λ h7.
          if_Clean (ltb (code c) 32) ("\\u00" +++ hex (code c / 16) +++ hex (code c % 16))
            (String.◌∷◌ c "")
            (Clean-append "\\u00" (hex (code c / 16) +++ hex (code c % 16)) refl (
              Clean-append (hex (code c / 16)) (hex (code c % 16)) (hex-Clean (code c / 16))
                (hex-Clean (code c % 16))))
            (λ h8. ground (arith, h8)))))))))

escaped-Clean : (s : String) → Clean (escaped s)
unfolding escaped
escaped-Clean String.[] = refl
escaped-Clean (String.◌∷◌ c s) =
    Clean-append (escape (code c) (String.◌∷◌ c "")) (escaped s) (escape-Clean c) (escaped-Clean s)

quoted-Clean : (s : String) → Clean (quoted s)
unfolding quoted
quoted-Clean s =
    Clean-append "\"" (escaped s +++ "\"") refl
      (Clean-append (escaped s) "\"" (escaped-Clean s) refl)

-- A key and its value, before what follows.
member-Clean :
    (k : String) (v : Json) (more : String)
    → Clean (dumps v)
    → Clean more
    → Clean (quoted k +++ ":" +++ dumps v +++ more)
member-Clean k v more h m =
    Clean-append (quoted k) (":" +++ dumps v +++ more) (quoted-Clean k)
      (Clean-append ":" (dumps v +++ more) refl (Clean-append (dumps v) more h m))

mutual
  unfolding dumps Plain

  dumps-Clean' : (v : Json) → Plain v → Clean (dumps v)
  dumps-Clean' null h = refl
  dumps-Clean' (boolean true) h = refl
  dumps-Clean' (boolean false) h = refl
  dumps-Clean' (numeral n) h = h
  dumps-Clean' (string s) h = quoted-Clean s
  dumps-Clean' (array items) h =
      Clean-append "[" (dumps_items items +++ "]") refl
        (Clean-append (dumps_items items) "]" (dumps_items-Clean items h) refl)
  dumps-Clean' (object fields) h =
      Clean-append "{" (dumps_fields fields +++ "}") refl
        (Clean-append (dumps_fields fields) "}" (dumps_fields-Clean fields h) refl)

  dumps_items-Clean : (items : Items) → PlainItems items → Clean (dumps_items items)
  dumps_items-Clean nil h = refl
  dumps_items-Clean (cons v rest) (h, hs) =
      Clean-append (dumps v) (dumps_more rest) (dumps-Clean' v h) (dumps_more-Clean rest hs)

  dumps_more-Clean : (items : Items) → PlainItems items → Clean (dumps_more items)
  dumps_more-Clean nil h = refl
  dumps_more-Clean (cons v rest) (h, hs) =
      Clean-append "," (dumps v +++ dumps_more rest) refl
        (Clean-append (dumps v) (dumps_more rest) (dumps-Clean' v h) (dumps_more-Clean rest hs))

  dumps_fields-Clean : (fields : Fields) → PlainFields fields → Clean (dumps_fields fields)
  dumps_fields-Clean end h = refl
  dumps_fields-Clean (field k v rest) (h, hs) =
      member-Clean k v (dumps_others rest) (dumps-Clean' v h) (dumps_others-Clean rest hs)

  dumps_others-Clean : (fields : Fields) → PlainFields fields → Clean (dumps_others fields)
  dumps_others-Clean end h = refl
  dumps_others-Clean (field k v rest) (h, hs) =
      Clean-append "," (quoted k +++ ":" +++ dumps v +++ dumps_others rest) refl
        (member-Clean k v (dumps_others rest) (dumps-Clean' v h) (dumps_others-Clean rest hs))

pub dumps-Clean : (v : Json) → Plain v → Clean (dumps v)
dumps-Clean v h = dumps-Clean' v h
