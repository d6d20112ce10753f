-- ===== src/Access/Group/Pattern.antt =====
-- What the group pattern of apps/api/app/access.py accepts.
use triage_assistant.Prelude.{
  subst, ◌↔◌, String, code, ◌≡◌, refl, sym, ap, ◌∙◌, ◌⊎◌, inl, inr, true, some, eq_iff, Bool-cases,
  ◌+++◌, append_assoc, front, back, front-back, all_chars, arith,
}
use triage_assistant.Access.Group.{
  Role, viewer, responder, admin, label, slug_char, slug_part, after_slug, is_slug, role_tail,
  with_slug, after_team, match_group,
}

slug_part-after_slug : (s : String) → slug_part s +++ after_slug s ≡ s
unfolding slug_part after_slug
slug_part-after_slug String.[] = refl
slug_part-after_slug (String.◌∷◌ c s) = elim (Bool-cases (slug_char (code c))) [
  | inl e ↦ rw e (ap (λ t. String.◌∷◌ c t) (slug_part-after_slug s))
  | inr e ↦ rw e
]

all_chars-slug_part : (s : String) → all_chars slug_char (slug_part s) ≡ true
unfolding slug_part
all_chars-slug_part String.[] = refl
all_chars-slug_part (String.◌∷◌ c s) = elim (Bool-cases (slug_char (code c))) [
  | inl e ↦ rw (e, e) (all_chars-slug_part s)
  | inr e ↦ rw e
]

module _ (t : String) (stop : slug_part t ≡ "") (rest : after_slug t ≡ t) where
  slug_part-append : (s : String) → all_chars slug_char s ≡ true → slug_part (s +++ t) ≡ s
  unfolding slug_part
  slug_part-append String.[] h = stop
  slug_part-append (String.◌∷◌ c s) h = ground (arith, slug_part-append s)

  after_slug-append : (s : String) → all_chars slug_char s ≡ true → after_slug (s +++ t) ≡ t
  unfolding after_slug
  after_slug-append String.[] h = rest
  after_slug-append (String.◌∷◌ c s) h = ground (arith, after_slug-append s)

-- The group that grants `role` in the team `slug`.
abbrev pub group : String → Role → String
group slug role = "team:" +++ slug +++ ":" +++ label role

abbrev Tail : Role → String → Type 0
Tail role t = (t ≡ ":" +++ label role) ⊎ (t ≡ ":" +++ label role +++ "\n")

-- A tail begins with no slug character, and names its role.
abbrev Ends : Role → String → Type 0
Ends role t = (slug_part t ≡ "") × (after_slug t ≡ t) × (role_tail t ≡ some role)

label-Ends : (role : Role) → Ends role (":" +++ label role)
unfolding slug_part after_slug slug_char label role_tail
label-Ends viewer = (refl, refl, refl)
label-Ends _ = (refl, refl, refl)

line-Ends : (role : Role) → Ends role (":" +++ label role +++ "\n")
unfolding slug_part after_slug slug_char label role_tail
line-Ends viewer = (refl, refl, refl)
line-Ends _ = (refl, refl, refl)

Tail-Ends : (role : Role) (t : String) → Tail role t → Ends role t
Tail-Ends role t (inl e) = subst (Ends role) (sym e) (label-Ends role)
Tail-Ends role t (inr e) = subst (Ends role) (sym e) (line-Ends role)

match_group_complete :
    (slug t : String) (role : Role)
    → is_slug slug ≡ true
    → Tail role t
    → match_group ("team:" +++ slug +++ t) ≡ some (slug, role)
unfolding match_group after_team is_slug with_slug
match_group_complete slug t role h tail =
    let (stop, rest, named) = Tail-Ends role t tail in
    let all : all_chars slug_char slug ≡ true = ground arith in
    rw (slug_part-append t stop rest slug all, after_slug-append t stop rest slug all, named)
      (ground arith)

role_tail-Tail : (t : String) (role : Role) → role_tail t ≡ some role → Tail role t
unfolding role_tail label
role_tail-Tail t viewer h = ground (arith, eq_iff t ":viewer", eq_iff t ":viewer\n")
role_tail-Tail t responder h = ground (arith, eq_iff t ":responder", eq_iff t ":responder\n")
role_tail-Tail t admin h = ground (arith, eq_iff t ":admin", eq_iff t ":admin\n")

after_team_sound :
    (s slug : String) (role : Role)
    → after_team s ≡ some (slug, role)
    → (is_slug slug ≡ true) × (slug ≡ slug_part s) × (role_tail (after_slug s) ≡ some role)
unfolding after_team with_slug is_slug
after_team_sound s slug role h = ground (arith, all_chars-slug_part s)

value_shape :
    (value slug : String) (role : Role)
    → front 5 value ≡ "team:"
    → slug ≡ slug_part (back 5 value)
    → Tail role (after_slug (back 5 value))
    → (value ≡ group slug role) ⊎ (value ≡ group slug role +++ "\n")
value_shape value slug role start named tail = elim tail [
  | inl e ↦ inl (whole _ e)
  | inr e ↦
      inr (whole _ e ∙ ap (λ t. "team:" +++ t) (sym (append_assoc slug (":" +++ label role) "\n")))
]
  where
    whole : (t : String) → after_slug (back 5 value) ≡ t → value ≡ "team:" +++ slug +++ t
    whole t e =
        sym (front-back 5 value)
        ∙ ap (λ f. f +++ back 5 value) start
        ∙ ap (λ b. "team:" +++ b) (sym (slug_part-after_slug (back 5 value)))
        ∙ ap (λ b. "team:" +++ slug_part (back 5 value) +++ b) e
        ∙ ap (λ b. "team:" +++ b +++ t) (sym named)

match_group_sound :
    (value slug : String) (role : Role)
    → match_group value ≡ some (slug, role)
    → (is_slug slug ≡ true) × ((value ≡ group slug role) ⊎ (value ≡ group slug role +++ "\n"))
unfolding match_group
match_group_sound value slug role h =
    let body : after_team (back 5 value) ≡ some (slug, role) = ground arith in
    let start : front 5 value ≡ "team:" = ground (arith, eq_iff (front 5 value) "team:") in
    let (ok, named, tail) = after_team_sound (back 5 value) slug role body in
    (ok, value_shape value slug role start named (role_tail-Tail _ role tail))

-- A value of the claims names a slug and a role exactly if the slug has the form of one, and the value
-- is the group of that slug and that role, or that group and a newline.
pub match_group_exact :
    (value slug : String) (role : Role)
    → (match_group value ≡ some (slug, role))
      ↔ ((is_slug slug ≡ true) × ((value ≡ group slug role) ⊎ (value ≡ group slug role +++ "\n")))
match_group_exact value slug role = (match_group_sound value slug role, complete)
  where
    complete :
        (is_slug slug ≡ true) × ((value ≡ group slug role) ⊎ (value ≡ group slug role +++ "\n"))
        → match_group value ≡ some (slug, role)
    complete (h, inl e) = ap match_group e ∙ match_group_complete slug _ role h (inl refl)
    complete (h, inr e) =
        ap match_group (e ∙ ap (λ t. "team:" +++ t) (append_assoc slug (":" +++ label role) "\n"))
        ∙ match_group_complete slug _ role h (inr refl)
