-- ===== src/Routes/Alerts/Paging.antt =====
-- Reading the alert list page by page: `list_alerts` of apps/api/app/routes/alerts.py, with the
-- cursor of each answer sent back for the next.
use mathlib.Core.List.{map-append, append_assoc, append-nil}
use triage_assistant.Prelude.{
  ℕ, zero, suc, ◌+◌, ◌≤◌, ◌<◌, String, ◌≡◌, refl, sym, ap, ◌∙◌, subst, inl, inr, Bool, false,
  Option, none, some, List, [], ◌∷◌, ◌++◌, map, ltb, Bool-cases, take, drop, length, keep,
  keep_cong, keep_every, length-map, length-take, length-drop-le, take_all, take-append-drop, arith,
}
use triage_assistant.Http.{Result, ok, err}
use triage_assistant.Models.{Db, Alert, AlertOut}
use triage_assistant.Access.Roles.{Principal}
use triage_assistant.Queries.{newer, to_out, is_before, newest_alerts}
use triage_assistant.Queries.Order.{Sorted}
use triage_assistant.Queries.Merge.{newer_trans, Keyed, DistinctTeams}
use triage_assistant.Queries.Cursor.{
  seen, seen-Sorted, newest_rows-seen, keep_after, newer_asym, newer_irr, older_than-newer,
}
use triage_assistant.Routes.Alerts.Cursor.{Codec, encode_cursor, decode_cursor-encode_cursor}
use triage_assistant.Routes.Alerts.{
  AlertPage, slug_of, wanted_teams, last_of, next_cursor, cursor_of, page_of, list_alerts,
}

unfoldable pub follow : Option String → (Option String → List AlertOut) → List AlertOut
follow none more = []
follow (some cursor) more = more (some cursor)

unfoldable pub collect : Result AlertPage → (Option String → List AlertOut) → List AlertOut
unfolding follow
collect (ok page) more = page.items ++ follow page.next_cursor more
collect (err failure) more = []

module _ (codec : Codec) (principal : Principal) (team severity : Option String) (limit : ℕ)
    (db : Db) where
  -- The alerts of the page that `cursor` asks for, and of the pages after it, `fuel` pages at most.
  unfoldable pub read_all : ℕ → Option String → List AlertOut
  read_all zero cursor = []
  read_all (suc fuel) cursor =
      collect (list_alerts codec principal team severity limit cursor db) (read_all fuel)

take-map {ℓ κ} :
    {A : Type ℓ} {B : Type κ} (f : A → B) (n : ℕ) (xs : List A)
    → take n (map f xs) ≡ map f (take n xs)
take-map f zero xs = refl
take-map f (suc n) [] = refl
take-map f (suc n) (x ∷ xs) = ap (λ r. f x ∷ r) (take-map f n xs)

take_less {ℓ} : {A : Type ℓ} (n : ℕ) (xs : List A) → take n (take (suc n) xs) ≡ take n xs
take_less zero xs = refl
take_less (suc n) [] = refl
take_less (suc n) (x ∷ xs) = ap (λ r. x ∷ r) (take_less n xs)

last_alert : Alert → List Alert → Alert
last_alert a [] = a
last_alert a (b ∷ rest) = last_alert b rest

but_last : Alert → List Alert → List Alert
but_last a [] = []
but_last a (b ∷ rest) = a ∷ but_last b rest

but_last-last_alert :
    (a : Alert) (rest : List Alert) → but_last a rest ++ last_alert a rest ∷ [] ≡ a ∷ rest
unfolding but_last last_alert
but_last-last_alert a [] = refl
but_last-last_alert a (b ∷ rest) = ap (λ r. a ∷ r) (but_last-last_alert b rest)

last_of-map :
    (f : Alert → AlertOut) (a : Alert) (rest : List Alert)
    → last_of (f a) (map f rest) ≡ f (last_alert a rest)
unfolding last_alert
last_of-map f a [] = refl
last_of-map f a (b ∷ rest) = last_of-map f b rest

-- What is read after the last row of a page.
rest_after :
    (rows pre : List Alert) (a : Alert) (rest post : List Alert)
    → Sorted newer rows
    → rows ≡ pre ++ ((a ∷ rest) ++ post)
    → keep (newer (last_alert a rest)) rows ≡ post
rest_after rows pre a rest post s e =
    let x = last_alert a rest in
    let shape : rows ≡ (pre ++ but_last a rest) ++ x ∷ post =
      e
      ∙ ap (λ r. pre ++ (r ++ post)) (sym (but_last-last_alert a rest))
      ∙ ap (λ r. pre ++ r) (append_assoc (but_last a rest) (x ∷ []) post)
      ∙ sym (append_assoc pre (but_last a rest) (x ∷ post)) in
    subst (λ r. keep (newer x) r ≡ post) (sym shape)
      (keep_after newer newer_trans newer_asym newer_irr (pre ++ but_last a rest) x post
        (subst (Sorted newer) shape s))

take_one_more {ℓ} : {A : Type ℓ} (n : ℕ) (xs : List A) → take n (take (n + 1) xs) ≡ take n xs
take_one_more n xs =
    let e : n + 1 ≡ suc n = omega arith in ap (λ k. take n (take k xs)) e ∙ take_less n xs

more_lem {ℓ κ} :
    {A : Type ℓ} {B : Type κ} (f : A → B) (limit : ℕ) (xs : List A)
    → ltb limit (length (map f (take (limit + 1) xs))) ≡ ltb limit (length xs)
more_lem f limit xs = ground (arith, length-map f (take (limit + 1) xs), length-take (limit + 1) xs)

fits : (l n : ℕ) → ltb (suc l) (suc n) ≡ false → n ≤ l
fits l n h = ground arith

page_cong :
    (codec : Codec) {items items' : List AlertOut} {more more' : Bool}
    → items ≡ items'
    → more ≡ more'
    → ◌≡◌ {A = AlertPage}
        (record { items = items; next_cursor = next_cursor codec items more })
        (record { items = items'; next_cursor = next_cursor codec items' more' })
page_cong codec p q i = record { items = p i; next_cursor = next_cursor codec (p i) (q i) }

module _ (codec : Codec) (principal : Principal) (team severity : Option String) (db : Db)
    (ids : Option (List ℕ)) (wanted : wanted_teams principal team db ≡ ok ids)
    (keyed : Keyed db.alerts) (distinct : DistinctTeams ids) where
  out : Alert → AlertOut
  out a = to_out (slug_of db) a

  rows : List Alert
  rows = seen ids severity db.alerts

  page_lem :
      (limit : ℕ) (before : Option (ℕ × ℕ)) (rest : List Alert)
      → keep (is_before before) rows ≡ rest
      → page_of codec limit (newest_alerts (slug_of db) db.alerts ids (limit + 1) severity before)
        ≡ record {
          items = map out (take limit rest);
          next_cursor = next_cursor codec (map out (take limit rest)) (ltb limit (length rest));
        }
  unfolding newest_alerts page_of out rows
  page_lem limit before rest e =
      rw (newest_rows-seen ids severity db.alerts keyed distinct (limit + 1) before, e)
        (page_cong codec
          (take-map (to_out (slug_of db)) limit (take (limit + 1) rest)
            ∙ ap (map (to_out (slug_of db))) (take_one_more limit rest))
          (more_lem (to_out (slug_of db)) limit rest))

  after_last :
      (pre : List Alert) (a : Alert) (rest post : List Alert)
      → rows ≡ pre ++ ((a ∷ rest) ++ post)
      → let x = last_alert a rest in keep (is_before (some (x.created_at, x.id))) rows ≡ post
  unfolding is_before rows
  after_last pre a rest post e =
      let x = last_alert a rest in
      keep_cong _ (newer x) rows (older_than-newer x)
      ∙ rest_after rows pre a rest post (seen-Sorted ids severity db.alerts keyed) e

  next_cursor_lem :
      (a : Alert) (rest : List Alert)
      → let x = last_alert a rest in
        cursor_of codec (some (encode_cursor codec (last_of (out a) (map out rest))))
        ≡ ok (some (x.created_at, x.id))
  unfolding cursor_of out to_out
  next_cursor_lem a rest =
      rw (last_of-map out a rest, decode_cursor-encode_cursor codec (out (last_alert a rest)))

  loop_lem :
      (l fuel : ℕ) (cursor : Option String) (before : Option (ℕ × ℕ)) (pre rest : List Alert)
      → rows ≡ pre ++ rest
      → keep (is_before before) rows ≡ rest
      → cursor_of codec cursor ≡ ok before
      → length rest < fuel
      → read_all codec principal team severity (suc l) db fuel cursor ≡ map out rest
  unfolding read_all list_alerts collect next_cursor
  loop_lem l zero cursor before pre rest split e c h = absurd (omega arith)
  loop_lem l (suc fuel) cursor before pre [] split e c h =
      rw (wanted, c, page_lem (suc l) before [] e)
  loop_lem l (suc fuel) cursor before pre (a ∷ rest) split e c h =
      rw (wanted, c, page_lem (suc l) before (a ∷ rest) e)
        (elim (Bool-cases (ltb (suc l) (suc (length rest)))) [
          | inl more ↦
              let x = last_alert a (take l rest) in
              let whole = split ∙ ap (λ r. pre ++ a ∷ r) (sym (take-append-drop l rest)) in
              rw more (
                ap (λ r. (out a ∷ map out (take l rest)) ++ r)
                  (loop_lem l fuel _ (some (x.created_at, x.id)) (pre ++ a ∷ take l rest)
                    (drop l rest) (whole ∙ sym (append_assoc pre (a ∷ take l rest) (drop l rest)))
                    (after_last pre a (take l rest) (drop l rest) whole)
                    (next_cursor_lem a (take l rest)) (omega (arith, length-drop-le l rest)))
                ∙ sym (map-append out (a ∷ take l rest) (drop l rest))
                ∙ ap (λ r. map out (a ∷ r)) (take-append-drop l rest))
          | inr done ↦ rw done (
              append-nil _
              ∙ ap (λ r. out a ∷ map out r) (take_all l rest (fits l (length rest) done)))
        ])

-- Following the cursors from the first page on, with a limit of at least one, reads every alert that
-- the caller may see of the teams and the severity asked for, each once, newest first, while the
-- database stays as it is; as many pages as there are alerts to read are enough.
pub read_all-seen :
    (codec : Codec) (principal : Principal) (team severity : Option String) (db : Db)
    (ids : Option (List ℕ)) (limit fuel : ℕ)
    → wanted_teams principal team db ≡ ok ids
    → Keyed db.alerts
    → DistinctTeams ids
    → 0 < limit
    → length (seen ids severity db.alerts) < fuel
    → read_all codec principal team severity limit db fuel none
      ≡ map (to_out (slug_of db)) (seen ids severity db.alerts)
unfolding rows out is_before cursor_of
read_all-seen codec principal team severity db ids zero fuel w k d p h = absurd (omega arith)
read_all-seen codec principal team severity db ids (suc l) fuel w k d p h =
    loop_lem codec principal team severity db ids w k d l fuel none none [] _ refl
      (keep_every (is_before none) _ (λ a. refl)) refl h
