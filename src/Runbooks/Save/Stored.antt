-- ===== src/Runbooks/Save/Stored.antt =====
-- The rows of `save_runbook` in apps/api/app/runbooks.py: what finds an upload again.
use triage_assistant.Prelude.{
  some-injective, ℕ, String, Bool, true, false, ◌≡◌, refl, ap, sym, ◌∙◌, inl, inr, Option, none,
  some, List, [], ◌∷◌, ◌++◌, map, find, eq_refl, eq_iff, Bool-cases, arith, find_holds,
}
use triage_assistant.Models.{Db, Runbook}
use triage_assistant.Runbooks.Save.{
  Upload, is_runbook, same_url, unchanged, update_row, new_row, upsert,
}

same_url_refl : (url : Option String) → same_url url url ≡ true
unfolding same_url
same_url_refl none = refl
same_url_refl (some a) = eq_refl a

unchanged_refl :
    (u : Upload) (r : Runbook)
    → r.body_sha256 ≡ u.digest
    → r.embedding_key ≡ u.key
    → r.source_url ≡ u.source_url
    → unchanged u r ≡ true
unfolding unchanged
unchanged_refl u r d k s =
    rw (d, k, s) (rw (eq_refl u.digest, eq_refl u.key) (same_url_refl u.source_url))

pub is_runbook_refl :
    (u : Upload) (r : Runbook)
    → r.team_id ≡ u.team_id
    → r.title ≡ u.title
    → is_runbook u.team_id u.title r ≡ true
unfolding is_runbook
is_runbook_refl u r t n = ground (arith, t, n, eq_iff r.title u.title)

module _ {ℓ} {A : Type ℓ} (p : A → Bool) (y : A) (ys : List A) where
  find_hit : p y ≡ true → find p (y ∷ ys) ≡ some y
  find_hit h = rw h refl

  find_skip : p y ≡ false → find p (y ∷ ys) ≡ find p ys
  find_skip h = rw h refl

pub some_not_none {ℓ} : {A : Type ℓ} {a : A} → some a ≡ none → ⊥
some_not_none e = ground (arith, e)

pub find-append_last {ℓ} :
    {A : Type ℓ} (p : A → Bool) (xs : List A) (x : A)
    → find p xs ≡ none
    → p x ≡ true
    → find p (xs ++ x ∷ []) ≡ some x
find-append_last p [] x e h = rw h refl
find-append_last p (y ∷ xs) x e h = elim (Bool-cases (p y)) [
  | inl t ↦ absurd (some_not_none (sym (find_hit p y xs t) ∙ e))
  | inr t ↦
      find_skip p y (xs ++ x ∷ []) t ∙ find-append_last p xs x (sym (find_skip p y xs t) ∙ e) h
]

-- The row that has the upload.
abbrev pub Kept : Upload → ℕ → Db → Type 0
Kept u id db =
    (r : Runbook) × (find (is_runbook u.team_id u.title) db.runbooks ≡ some r)
    × (r.id ≡ id)
    × (unchanged u r ≡ true)

pub update_row_hit :
    (now : ℕ) (u : Upload) (r : Runbook)
    → is_runbook u.team_id u.title r ≡ true
    → (update_row now u r).id ≡ r.id
      × (is_runbook u.team_id u.title (update_row now u r) ≡ true)
      × (unchanged u (update_row now u r) ≡ true)
unfolding update_row is_runbook
update_row_hit now u r h = rw h (refl, h, unchanged_refl u _ refl refl refl)

pub update_row_miss :
    (now : ℕ) (u : Upload) (r : Runbook)
    → is_runbook u.team_id u.title r ≡ false
    → update_row now u r ≡ r
unfolding update_row
update_row_miss now u r h = rw h refl

pub find-map-update_row :
    (now : ℕ) (u : Upload) (rows : List Runbook) (r : Runbook)
    → find (is_runbook u.team_id u.title) rows ≡ some r
    → find (is_runbook u.team_id u.title) (map (update_row now u) rows) ≡ some (update_row now u r)
find-map-update_row now u [] r e = absurd (some_not_none (sym e))
find-map-update_row now u (x ∷ rows) r e = elim (Bool-cases (is_runbook u.team_id u.title x)) [
  | inl t ↦
      find_hit (is_runbook u.team_id u.title) (update_row now u x) (map (update_row now u) rows)
        (update_row_hit now u x t).1
      ∙ ap (λ q. some (update_row now u q))
          (some-injective x r (sym (find_hit (is_runbook u.team_id u.title) x rows t) ∙ e))
  | inr t ↦
      ap (λ q. find (is_runbook u.team_id u.title) (q ∷ map (update_row now u) rows))
        (update_row_miss now u x t)
      ∙ find_skip (is_runbook u.team_id u.title) x (map (update_row now u) rows) t
      ∙ find-map-update_row now u rows r
          (sym (find_skip (is_runbook u.team_id u.title) x rows t) ∙ e)
]

pub upsert-Kept :
    (now : ℕ) (u : Upload) (found : Option Runbook) (db : Db)
    → find (is_runbook u.team_id u.title) db.runbooks ≡ found
    → Kept u (upsert now u found db).0 (upsert now u found db).1
unfolding upsert new_row
upsert-Kept now u none db e =
    let row = new_row now u db.next_id in
    (
      row,
      find-append_last (is_runbook u.team_id u.title) db.runbooks row e
          (is_runbook_refl u row refl refl),
      refl,
      unchanged_refl u row refl refl refl,
    )
upsert-Kept now u (some r) db e =
    let hit = update_row_hit now u r (find_holds (is_runbook u.team_id u.title) db.runbooks r e) in
    (update_row now u r, find-map-update_row now u db.runbooks r e, hit.0, hit.2)
