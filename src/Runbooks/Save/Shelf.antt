-- ===== src/Runbooks/Save/Shelf.antt =====
-- What apps/api/app/runbooks.py keeps, seen from outside: a shelf that has at most one text for a team
-- and a title. `save_runbook` puts a text on it, or leaves it as it is.
use triage_assistant.Prelude.{
  ℕ, ◌==◌, ==_iff, ◌≡◌, refl, ap, ◌∙◌, subst, inl, inr, String, Bool, true, false, ◌&&◌, Option,
  none, some, List, [], ◌∷◌, ◌++◌, map, find, find_holds, Bool-cases, str_eq, eq_iff, if◌then◌else◌,
  arith,
}
use triage_assistant.Models.{Db, Runbook}
use triage_assistant.Runbooks.Save.Stored.{
  update_row_hit, update_row_miss, find-append_last, find-map-update_row, is_runbook_refl,
}
use triage_assistant.Runbooks.Save.{Upload, is_runbook, update_row, new_row, upsert}

-- The abstract state, by team and title.
abbrev pub Shelf : Type 0
Shelf = ℕ → String → Option String

abbrev pub put : ℕ → String → String → Shelf → Shelf
put team_id title body shelf t n = if team_id == t && str_eq title n then some body else shelf t n

abbrev pub body_in : Option Runbook → Option String
body_in none = none
body_in (some r) = some r.body

-- The shelf that a database stands for.
abbrev pub shelf_of : Db → Shelf
shelf_of db t n = body_in (find (is_runbook t n) db.runbooks)

find_in_last :
    (p : Runbook → Bool) (xs : List Runbook) (x : Runbook)
    → p x ≡ false
    → find p (xs ++ x ∷ []) ≡ find p xs
find_in_last p [] x h = rw h refl
find_in_last p (y ∷ xs) x h = ap (λ rest. if p y then some y else rest) (find_in_last p xs x h)

body_of_either :
    (b : Bool) (r : Runbook) (x y : Option Runbook)
    → body_in x ≡ body_in y
    → body_in (if b then some r else x) ≡ body_in (if b then some r else y)
body_of_either true r x y h = refl
body_of_either false r x y h = h

-- Two keys that a row has are the same.
other_key :
    (u : Upload) (r : Runbook) (t : ℕ) (n : String)
    → is_runbook u.team_id u.title r ≡ true
    → (u.team_id == t && str_eq u.title n) ≡ false
    → is_runbook t n r ≡ false
unfolding is_runbook
other_key u r t n its differs =
    ap (λ i. i == t && str_eq r.title n) ((==_iff r.team_id u.team_id).0 (ground arith))
    ∙ ap (λ s. u.team_id == t && str_eq s n) ((eq_iff r.title u.title).0 (ground arith))
    ∙ differs

module _ (now : ℕ) (u : Upload) where
  bodies_elsewhere :
      (t : ℕ) (n : String) (rows : List Runbook)
      → (u.team_id == t && str_eq u.title n) ≡ false
      → body_in (find (is_runbook t n) (map (update_row now u) rows))
        ≡ body_in (find (is_runbook t n) rows)
  bodies_elsewhere t n [] differs = refl
  bodies_elsewhere t n (r ∷ rows) differs = elim (Bool-cases (is_runbook u.team_id u.title r)) [
    | inl its ↦
        rw
          (
            other_key u (update_row now u r) t n (update_row_hit now u r its).1 differs,
            other_key u r t n its differs,
          )
          (bodies_elsewhere t n rows differs)
    | inr e ↦
        rw (update_row_miss now u r e)
          (body_of_either (is_runbook t n r) r _ _ (bodies_elsewhere t n rows differs))
  ]

  updated_body :
      (r : Runbook) → is_runbook u.team_id u.title r ≡ true → (update_row now u r).body ≡ u.body
  unfolding update_row
  updated_body r e = rw e refl

  upsert_elsewhere :
      (found : Option Runbook) (db : Db) (t : ℕ) (n : String)
      → (u.team_id == t && str_eq u.title n) ≡ false
      → shelf_of (upsert now u found db).1 t n ≡ shelf_of db t n
  unfolding upsert new_row is_runbook
  upsert_elsewhere none db t n differs =
      ap body_in (find_in_last (is_runbook t n) db.runbooks _ differs)
  upsert_elsewhere (some r) db t n differs = bodies_elsewhere t n db.runbooks differs

  upsert_there :
      (found : Option Runbook) (db : Db)
      → find (is_runbook u.team_id u.title) db.runbooks ≡ found
      → shelf_of (upsert now u found db).1 u.team_id u.title ≡ some u.body
  unfolding upsert new_row
  upsert_there none db e = ap body_in (
      find-append_last (is_runbook u.team_id u.title) db.runbooks (new_row now u db.next_id) e
        (is_runbook_refl u (new_row now u db.next_id) refl refl))
  upsert_there (some r) db e =
      ap body_in (find-map-update_row now u db.runbooks r e)
      ∙ ap some (updated_body r (find_holds (is_runbook u.team_id u.title) db.runbooks r e))

  pub upsert-put :
      (db : Db) (t : ℕ) (n : String)
      → shelf_of (upsert now u (find (is_runbook u.team_id u.title) db.runbooks) db).1 t n
        ≡ put u.team_id u.title u.body (shelf_of db) t n
  upsert-put db t n = elim (Bool-cases (u.team_id == t && str_eq u.title n)) [
    | inl e ↦ rw e (
        subst
          (λ i.
            shelf_of (upsert now u (find (is_runbook u.team_id u.title) db.runbooks) db).1 i n
            ≡ some u.body)
          ((==_iff u.team_id t).0 (ground arith))
          (subst
            (λ s.
              shelf_of (upsert now u (find (is_runbook u.team_id u.title) db.runbooks) db).1
                u.team_id s
              ≡ some u.body)
            ((eq_iff u.title n).0 (ground arith))
            (upsert_there (find (is_runbook u.team_id u.title) db.runbooks) db refl)))
    | inr e ↦ rw e (upsert_elsewhere (find (is_runbook u.team_id u.title) db.runbooks) db t n e)
  ]
