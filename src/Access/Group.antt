-- ===== src/Access/Group.antt =====
-- Roles and the group names that grant them: `Role`, `_LABELS` and `_GROUP` of
-- apps/api/app/access.py, with the slug pattern of apps/api/app/models.py.
pub mod Pattern
use triage_assistant.Prelude.{
  ℕ, suc, ◌+◌, ◌≤◌, String, code, ◌≡◌, refl, sym, ◌∙◌, ap, ◌⊎◌, inl, inr, Bool, true, false, ◌&&◌,
  ◌||◌, Option, none, some, ltb, leb, ◌==◌, str_eq, eq_iff, if◌then◌else◌, Bool-cases, ◌+++◌,
  text_length, front, back, front-back, all_chars, is_empty, arith,
}

pub data Role : Type 0 where
  viewer responder admin : Role

-- The members' integer values, by which roles are compared.
unfoldable pub rank : Role → ℕ
rank viewer = 1
rank responder = 2
rank admin = 3

unfoldable pub label : Role → String
label viewer = "viewer"
label responder = "responder"
label admin = "admin"

unfoldable pub slug_start : ℕ → Bool
slug_start c = leb b'a' c && leb c b'z' || leb b'0' c && leb c b'9'

unfoldable pub slug_char : ℕ → Bool
unfolding slug_start
slug_char c = slug_start c || c == b'-'

-- The longest run of slug characters, and what follows it.
unfoldable pub slug_part : String → String
slug_part String.[] = ""
slug_part (String.◌∷◌ c s) =
    let rest = String.◌∷◌ c (slug_part s) in if slug_char (code c) then rest else ""

unfoldable pub after_slug : String → String
after_slug String.[] = ""
after_slug (String.◌∷◌ c s) =
    let rest = after_slug s in if slug_char (code c) then rest else String.◌∷◌ c s

unfoldable pub starts_slug : String → Bool
starts_slug String.[] = false
starts_slug (String.◌∷◌ c s) = slug_start (code c)

-- `TEAM_SLUG` without its anchors.
unfoldable pub is_slug : String → Bool
unfolding starts_slug
is_slug s = starts_slug s && leb (text_length s) 63 && all_chars slug_char s

-- The end of the pattern: a colon, a role and the end of the text. `$` also matches before a
-- newline that ends the text.
unfoldable pub role_tail : String → Option Role
role_tail s =
    if str_eq s ":viewer" || str_eq s ":viewer\n"
    then some viewer
    else if str_eq s ":responder" || str_eq s ":responder\n"
    then some responder
    else if str_eq s ":admin" || str_eq s ":admin\n"
    then some admin
    else none

with_slug : String → Option Role → Option (String × Role)
with_slug slug none = none
with_slug slug (some role) = some (slug, role)

after_team : String → Option (String × Role)
unfolding with_slug
after_team s =
    if starts_slug (slug_part s) && leb (text_length (slug_part s)) 63
    then with_slug (slug_part s) (role_tail (after_slug s))
    else none

-- `_GROUP.match(value)`. A colon is no slug character, so the run of slug characters is the only
-- way to match the slug.
unfoldable pub match_group : String → Option (String × Role)
unfolding after_team
match_group value = if str_eq (front 5 value) "team:" then after_team (back 5 value) else none
