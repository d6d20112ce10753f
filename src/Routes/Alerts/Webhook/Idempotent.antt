-- ===== src/Routes/Alerts/Webhook/Idempotent.antt =====
-- Alertmanager sends a firing alert again and again: `ingest_alertmanager` of
-- apps/api/app/routes/alerts.py stores it once.
use triage_assistant.Prelude.{
  some-injective, subst, ℕ, String, ◌≡◌, refl, sym, ap, ◌∙◌, inl, inr, Bool, true, ◌||◌, Option,
  none, some, List, [], ◌∷◌, ◌++◌, Bool-cases, Option-cases, any, length, All, str_eq, eq_refl,
  keep, arith,
}
use triage_assistant.Models.{Db, Alert}
use triage_assistant.Audit.{Context, record_event}
use triage_assistant.Routes.Alerts.Webhook.{
  AlertmanagerAlert, Row, rows_of, has_external_id, new_alert, insert_row, insert_rows,
  record_created, stored, ingest_rows, ingest_alerts,
}

abbrev Known : Db → Row → Type 0
Known db row = any (has_external_id row.external_id) db.alerts ≡ true

any-append {ℓ} :
    {A : Type ℓ} (p : A → Bool) (xs ys : List A) → any p (xs ++ ys) ≡ (any p xs || any p ys)
any-append p [] ys = refl
any-append p (x ∷ xs) ys = ground (arith, any-append p xs ys)

insert_row-Known : (row : Row) (now : ℕ) (db : Db) → Known (insert_row row now db).0 row
unfolding insert_row new_alert has_external_id
insert_row-Known row now db = elim (Bool-cases (any (has_external_id row.external_id) db.alerts)) [
  | inl e ↦ rw e e
  | inr e ↦ rw (e, any-append, e, eq_refl)
]

insert_row-keeps :
    (row other : Row) (now : ℕ) (db : Db) → Known db other → Known (insert_row row now db).0 other
unfolding insert_row
insert_row-keeps row other now db h =
    elim (Bool-cases (any (has_external_id row.external_id) db.alerts)) [
      | inl e ↦ rw e h
      | inr e ↦ rw (e, any-append, h)
    ]

insert_rows-keeps :
    (rows : List Row) (other : Row) (now : ℕ) (db : Db)
    → Known db other
    → Known (insert_rows rows now db).0 other
unfolding insert_rows
insert_rows-keeps [] other now db h = h
insert_rows-keeps (row ∷ rows) other now db h =
    insert_rows-keeps rows other now (insert_row row now db).0 (insert_row-keeps row other now db h)

insert_rows-Known :
    (rows : List Row) (now : ℕ) (db : Db) → All (Known (insert_rows rows now db).0) rows
unfolding insert_rows
insert_rows-Known [] now db = tt
insert_rows-Known (row ∷ rows) now db =
    let db' = (insert_row row now db).0 in
    (
      insert_rows-keeps rows row now db' (insert_row-Known row now db),
      insert_rows-Known rows now db',
    )

-- Rows that are all there already are not stored again.
insert_rows_lem :
    (rows : List Row) (now : ℕ) (db : Db) → All (Known db) rows → insert_rows rows now db ≡ (db, [])
unfolding insert_rows insert_row
insert_rows_lem [] now db h = refl
insert_rows_lem (row ∷ rows) now db h = rw h.0 (rw (insert_rows_lem rows now db h.1))

teams-insert_rows :
    (rows : List Row) (now : ℕ) (db : Db) → (insert_rows rows now db).0.teams ≡ db.teams
unfolding insert_rows insert_row
teams-insert_rows [] now db = refl
teams-insert_rows (row ∷ rows) now db =
    teams-insert_rows rows now (insert_row row now db).0 ∙ teams-insert_row
  where
    teams-insert_row : (insert_row row now db).0.teams ≡ db.teams
    teams-insert_row = ground arith

module _ (sha256 : String → String) where
  alerts-record_created :
      (context : Context) (new : List Alert) (db : Db)
      → ((record_created sha256 context new db).alerts ≡ db.alerts)
        × ((record_created sha256 context new db).teams ≡ db.teams)
  unfolding record_created record_event
  alerts-record_created context [] db = (refl, refl)
  alerts-record_created context (a ∷ new) db = alerts-record_created context new _

  abbrev done : Context → List AlertmanagerAlert → List Row → Db → (ℕ × ℕ) × Db
  done context alerts rows db =
      stored sha256 context (length alerts) (insert_rows rows context.now db)

  ingest_alerts_lem :
      (later : Context) (alerts : List AlertmanagerAlert) (rows : List Row) (db : Db)
      → rows_of db.teams (keep (λ a. str_eq a.status "firing") alerts) ≡ some rows
      → All (Known db) rows
      → ingest_alerts sha256 later alerts db ≡ some ((length alerts, 0), db)
  unfolding ingest_alerts ingest_rows stored record_created
  ingest_alerts_lem later alerts rows db e known =
      ap (ingest_rows sha256 later (length alerts) db) e
      ∙ ap (λ p. some (stored sha256 later (length alerts) p))
          (insert_rows_lem rows later.now db known)

  again :
      (first later : Context) (alerts : List AlertmanagerAlert) (rows : List Row) (db : Db)
      → rows_of db.teams (keep (λ a. str_eq a.status "firing") alerts) ≡ some rows
      → ingest_alerts sha256 later alerts (done first alerts rows db).1
        ≡ some ((length alerts, 0), (done first alerts rows db).1)
  unfolding stored
  again first later alerts rows db e =
      let (inserted, new) = insert_rows rows first.now db in
      let (same_alerts, same_teams) = alerts-record_created first new inserted in
      ingest_alerts_lem later alerts rows (record_created sha256 first new inserted)
        (ap (λ t. rows_of t (keep (λ a. str_eq a.status "firing") alerts))
            (same_teams ∙ teams-insert_rows rows first.now db)
          ∙ e)
        (subst (λ as'. All (λ r. any (has_external_id r.external_id) as' ≡ true) rows)
          (sym same_alerts) (insert_rows-Known rows first.now db))

  abbrev Unchanged : Context → List AlertmanagerAlert → (ℕ × ℕ) × Db → Type 0
  Unchanged later alerts t = ingest_alerts sha256 later alerts t.1 ≡ some ((t.0.0, 0), t.1)

  -- Sending the same alerts again, at any later time, creates none and changes nothing, whatever
  -- the first time created.
  pub ingest_alerts_twice :
      (first later : Context) (alerts : List AlertmanagerAlert) (db : Db) {received created : ℕ}
      {db' : Db}
      → ingest_alerts sha256 first alerts db ≡ some ((received, created), db')
      → ingest_alerts sha256 later alerts db' ≡ some ((received, 0), db')
  unfolding ingest_alerts ingest_rows stored
  ingest_alerts_twice first later alerts db {received} {created} {db'} h =
      elim (Option-cases (rows_of db.teams (keep (λ a. str_eq a.status "firing") alerts))) [
        | inl e ↦ absurd (no_rows (sym (ap (ingest_rows sha256 first (length alerts) db) e) ∙ h))
        | inr (rows, e) ↦
            subst (Unchanged later alerts)
              (some-injective _ _ (sym (ap (ingest_rows sha256 first (length alerts) db) e) ∙ h))
              (again first later alerts rows db e)
      ]
    where
      no_rows : ¬ (◌≡◌ {A = Option ((ℕ × ℕ) × Db)} none (some ((received, created), db')))
      no_rows k = ground arith
