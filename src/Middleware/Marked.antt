-- ===== src/Middleware/Marked.antt =====
-- apps/api/app/middleware.py: the id of a request, on every response to it.
use triage_assistant.Prelude.{
  ◌≤◌, ap, ◌||◌, ◌==◌, ◌&&◌, arith, ◌+++◌, Char, ◌≡◌, refl, ◌∙◌, inl, inr, ◌⊎◌, true, Bool, String,
  Option, some, List, [], ◌∷◌, map, All, Bool-cases,
}
use triage_assistant.Middleware.{
  text_length, leb, is_empty, all_chars, code, id_char, is_id, chomp, Headers, Message, start, body,
  Scope, valid_request_id, request_id_of, header_or, set_all, wrap,
}

-- Headers are read as they were set, and names that differ do not meet.
pub record Laws {H : Type 0} (headers : Headers H) : Type 0 where
  pub get_header : String → H → Option String
  pub differs : String → String → Bool
  pub get_set :
      (name value : String) (h : H) → get_header name (headers.set_header name value h) ≡ some value
  pub get_other :
      (name other value : String) (h : H)
      → differs name other ≡ true
      → get_header name (headers.set_header other value h) ≡ get_header name h

module _ {H : Type 0} (headers : Headers H) (laws : Laws headers) where
  -- A response begins with the id of its request.
  abbrev pub HasId : String → Message H → Type 0
  HasId id (start status h) = laws.get_header "X-Request-ID" h ≡ some id
  HasId id (body text more) = Unit {0}

  abbrev pub KeepsId : List (String × String) → Type 0
  KeepsId extra = All (λ e. laws.differs "X-Request-ID" e.0 ≡ true) extra

  get-set_all :
      (extra : List (String × String)) (h : H)
      → KeepsId extra
      → laws.get_header "X-Request-ID" (set_all headers extra h) ≡ laws.get_header "X-Request-ID" h
  unfolding set_all
  get-set_all [] h k = refl
  get-set_all ((name, value) ∷ rest) h (k, ks) =
      get-set_all rest (headers.set_header name value h) ks
      ∙ laws.get_other "X-Request-ID" name value h k

  pub wrap-HasId :
      (id : String) (extra : List (String × String)) (ms : List (Message H))
      → KeepsId extra
      → All (HasId id) (map (wrap headers id extra) ms)
  unfolding wrap
  wrap-HasId id extra [] k = tt
  wrap-HasId id extra (start status h ∷ ms) k = (
    get-set_all extra (headers.set_header "X-Request-ID" id h) k ∙ laws.get_set "X-Request-ID" id h,
    wrap-HasId id extra ms k,
  )
  wrap-HasId id extra (body text more ∷ ms) k = (tt, wrap-HasId id extra ms k)

-- A text less a newline at its end, if it has one.
chomp-newline :
    (s : String)
    → (s ≡ chomp s) ⊎ ((c : Char) × (code c ≡ b'\n') × (s ≡ chomp s +++ String.◌∷◌ c String.[]))
unfolding chomp
chomp-newline String.[] = inl refl
chomp-newline (String.◌∷◌ c s) = elim (Bool-cases (is_empty s && code c == b'\n')) [
  | inl e ↦
      inr (c, ground (arith, e), rw e (ap (λ t. String.◌∷◌ c t) (nothing s (ground (arith, e)))))
  | inr e ↦ elim (chomp-newline s) [
    | inl same ↦ inl (rw e (ap (λ t. String.◌∷◌ c t) same))
    | inr (d, newline, same) ↦ inr (d, newline, rw e (ap (λ t. String.◌∷◌ c t) same))
  ]
]
  where
    nothing : (s : String) → is_empty s ≡ true → s ≡ String.[]
    nothing String.[] h = refl
    nothing (String.◌∷◌ c s) h = absurd (ground (arith, h))

-- 8 to 128 letters, digits, dots, low lines and hyphens, and one newline at most after them.
abbrev pub IsId : String → Type 0
IsId s =
    (plain : String) × ((s ≡ plain)
      ⊎ ((c : Char) × (code c ≡ b'\n') × (s ≡ plain +++ String.◌∷◌ c String.[])))
    × (all_chars
          (λ c.
            (leb b'A' c && leb c b'Z')
            || (leb b'a' c && leb c b'z')
            || (leb b'0' c && leb c b'9')
            || c == b'.'
            || c == b'_'
            || c == b'-')
          plain
        ≡ true)
    × (8 ≤ text_length plain)
    × (text_length plain ≤ 128)

valid-IsId : (s : String) → valid_request_id s ≡ true → IsId s
unfolding valid_request_id is_id id_char
valid-IsId s h = (chomp s, chomp-newline s, ground (arith, h), ground (arith, h), ground (arith, h))

pub request_id_of-IsId :
    (fresh : String) (scope : Scope)
    → IsId (request_id_of fresh scope) ⊎ (request_id_of fresh scope ≡ fresh)
unfolding request_id_of
request_id_of-IsId fresh scope =
    elim (Bool-cases (valid_request_id (header_or "" "x-request-id" scope.headers))) [
      | inl e ↦ inl (rw e (valid-IsId (header_or "" "x-request-id" scope.headers) e))
      | inr e ↦ inr (rw e refl)
    ]
