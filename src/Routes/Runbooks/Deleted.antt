-- ===== src/Routes/Runbooks/Deleted.antt =====
-- What is left of a runbook that apps/api/app/routes/runbooks.py deleted.
use mathlib.Core.List.{Memᴰ}
use triage_assistant.Prelude.{
  find_holds, some-injective, ℕ, ◌≡◌, refl, sym, ap, ◌∙◌, subst, true, false, not, ◌==◌, ==_iff,
  Option, none, some, List, keep_Mem, find-keep-not, find-keep, keep-keep, find, keep, length, All,
  All-map, All-keep, All_at, String, arith,
}
use triage_assistant.Http.{Result, ok, err, http_error, ◌>>=◌, ◌>>◌, ok-injective, >>=_ok}
use triage_assistant.Settings.{Settings}
use triage_assistant.Models.{Team, Db, Runbook}
use triage_assistant.Triage.Hits.{Hit}
use triage_assistant.Access.Group.{viewer, admin}
use triage_assistant.Access.Roles.{Principal, require_role}
use triage_assistant.Audit.{Context, record_event}
use triage_assistant.Runbooks.Embed.{Embedder}
use triage_assistant.Runbooks.Search.{Postgres, Ranked, Mode, Retrieval, search_runbooks, hit_of}
use triage_assistant.Runbooks.Search.Within.{GivesRows, Keyed, Found, search_runbooks-Within}
use triage_assistant.Routes.Alerts.{or_404_ok, or_404}
use triage_assistant.Routes.Runbooks.{
  summary_of, count_sections, RunbookRow, with_runbook, with_team, visible, delete_runbook,
  get_runbook, without_runbook, RunbookOut,
}

-- The row that is found has the id asked for.
row_id :
    (db : Db) (id : ℕ) (row : RunbookRow)
    → with_runbook db (find (λ r. r.id == id) db.runbooks) ≡ some row
    → row.runbook.id ≡ id
unfolding with_runbook with_team
row_id db id row e = of_runbook (find (λ r. r.id == id) db.runbooks) refl e
  where
    of_team : (r : Runbook) (t : Option Team) → with_team db r t ≡ some row → r.id ≡ row.runbook.id
    of_team r none e = ground arith
    of_team r (some t) e = ap (λ (row : RunbookRow). row.runbook.id) (some-injective _ _ e)

    of_runbook :
        (o : Option Runbook)
        → find (λ r. r.id == id) db.runbooks ≡ o
        → with_runbook db o ≡ some row
        → row.runbook.id ≡ id
    of_runbook none found e = ground arith
    of_runbook (some r) found e =
        sym (of_team r _ e) ∙ (==_iff r.id id).0 (find_holds (λ r. r.id == id) db.runbooks r found)

module _ (context : Context) (id : ℕ) (principal : Principal) (db db' : Db) where
  delete_runbook_changes :
      delete_runbook context id principal db ≡ ok db'
      → (db'.runbooks ≡ keep (λ r. not (r.id == id)) db.runbooks)
        × (db'.runbook_chunks ≡ keep (λ c. not (c.runbook_id == id)) db.runbook_chunks)
        × (db'.teams ≡ db.teams)
  unfolding delete_runbook visible record_event without_runbook
  delete_runbook_changes e =
      let (row, visible_row, deleted) = >>=_ok (visible db principal id admin) _ db' e in
      let (row', found, checked) =
        >>=_ok (or_404 (with_runbook db (find (λ r. r.id == id) db.runbooks)) "runbook not found") _
          row visible_row in
      let (passed, _, returned) =
        >>=_ok (require_role principal row'.runbook.team_id admin "runbook") _ row checked in
      let same =
        sym (ap (λ (row : RunbookRow). row.runbook.id) (ok-injective _ _ returned))
        ∙ row_id db id row' (or_404_ok _ row' _ found) in
      let written = ok-injective _ db' deleted in
      (
        sym (ap (λ (d : Db). d.runbooks) written)
            ∙ ap (λ i. keep (λ r. not (r.id == i)) db.runbooks) same,
        sym (ap (λ (d : Db). d.runbook_chunks) written)
            ∙ ap (λ i. keep (λ c. not (c.runbook_id == i)) db.runbook_chunks) same,
        sym (ap (λ (d : Db). d.teams) written),
      )

module _ (context : Context) (id : ℕ) (principal : Principal) (db db' : Db) where
  with_runbook_other :
      delete_runbook context id principal db ≡ ok db'
      → (other : ℕ) → (other == id) ≡ false
      → (o : Option Runbook) → find (λ r. r.id == other) db.runbooks ≡ o
      → with_runbook db' o ≡ with_runbook db o
  unfolding with_runbook with_team count_sections
  with_runbook_other e other differs none found = refl
  with_runbook_other e other differs (some r) found =
      let (_, chunks, teams) = delete_runbook_changes context id principal db db' e in
      let same = find_holds (λ r. r.id == other) db.runbooks r found in
      ap (λ ts. with_team db' r (find (λ t. t.id == r.team_id) ts)) teams
      ∙ counted (find (λ t. t.id == r.team_id) db.teams) (
          ap (λ cs. length (keep (λ c. c.runbook_id == r.id) cs)) chunks
          ∙ ap length (
              keep-keep (λ c. c.runbook_id == r.id) (λ c. not (c.runbook_id == id))
                db.runbook_chunks (λ c h. ground arith)))
    where
      counted :
          (t : Option Team)
          → count_sections db' r.id ≡ count_sections db r.id
          → with_team db' r t ≡ with_team db r t
      counted none n = refl
      counted (some t) n = ap (λ n. some (record { runbook = r; slug = t.slug; sections = n })) n

  -- Another runbook is read as before.
  get_runbook_other :
      delete_runbook context id principal db ≡ ok db'
      → (reader : Principal) (other : ℕ) → (other == id) ≡ false
      → get_runbook other reader db' ≡ get_runbook other reader db
  unfolding get_runbook visible
  get_runbook_other e reader other differs =
      let (runbooks, _, _) = delete_runbook_changes context id principal db db' e in
      ap answer_of (
        ap (λ rs. with_runbook db' (find (λ r. r.id == other) rs)) runbooks
        ∙ ap (with_runbook db') (
            find-keep (λ r. r.id == other) (λ r. not (r.id == id)) db.runbooks
              (λ r h. ground arith))
        ∙ with_runbook_other e other differs (find (λ r. r.id == other) db.runbooks) refl)
    where
      answer_of : Option RunbookRow → Result RunbookOut
      answer_of o =
          (or_404 o "runbook not found"
            >>= (λ row. require_role reader row.runbook.team_id viewer "runbook" >> ok row))
          >>= (λ row. ok (record {
            summary = summary_of row.runbook row.slug row.sections;
            body = row.runbook.body;
          }))

  get_runbook_gone :
      delete_runbook context id principal db ≡ ok db'
      → (reader : Principal) → get_runbook id reader db' ≡ err (http_error 404 "runbook not found")
  unfolding get_runbook visible with_runbook
  get_runbook_gone e reader =
      let (runbooks, _, _) = delete_runbook_changes context id principal db db' e in
      rw (runbooks, find-keep-not (λ r. r.id == id) db.runbooks) refl

  Keyed-delete_runbook : delete_runbook context id principal db ≡ ok db' → Keyed db → Keyed db'
  Keyed-delete_runbook e keyed c c' m m' same =
      let (_, chunks, _) = delete_runbook_changes context id principal db db' e in
      keyed c c' (keep_Mem _ db.runbook_chunks c (subst (Memᴰ c) chunks m))
        (keep_Mem _ db.runbook_chunks c' (subst (Memᴰ c') chunks m')) same

  -- After a runbook was deleted, nobody reads it, as it is answered 404, and no search, by whatever
  -- means, gives a section of it; every other runbook is read as it was. It is assumed that no two
  -- sections have the same id and that a scan of the index gives only rows that there are.
  pub delete_runbook-Gone :
      (postgres : Postgres)
      → GivesRows postgres
      → Keyed db
      → delete_runbook context id principal db ≡ ok db'
      → ((reader : Principal)
          → get_runbook id reader db' ≡ err (http_error 404 "runbook not found"))
        × ((reader : Principal) (other : ℕ)
            → (other == id) ≡ false
            → get_runbook other reader db' ≡ get_runbook other reader db)
        × ((settings : Settings) (sha256 : String → String) (query : String)
              (teams : Option (List ℕ)) (k : ℕ) (W : Type 0) (embedder : Embedder W)
              (redact : String → String) (mode : Mode) (w : W) (retrieval : Retrieval)
            → (search_runbooks postgres settings sha256 query teams k db' embedder redact mode w).0
              ≡ some retrieval
            → All (λ (row : Ranked). (row.hit.runbook_id == id) ≡ false) retrieval.hits)
  unfolding hit_of
  delete_runbook-Gone postgres gives keyed e = (
    get_runbook_gone e,
    get_runbook_other e,
    λ settings sha256 query teams k W embedder redact mode w retrieval found.
        All-map (λ (row : Ranked). Found teams db' row.hit)
          (λ (row : Ranked). (row.hit.runbook_id == id) ≡ false) retrieval.hits
          (λ row f. not_its_own row.hit teams f)
          (search_runbooks-Within postgres settings sha256 query teams k db' gives
            (Keyed-delete_runbook e keyed) embedder redact mode w retrieval found).0,
  )
    where
      not_its_own :
          (h : Hit) (teams : Option (List ℕ)) → Found teams db' h → (h.runbook_id == id) ≡ false
      not_its_own h teams (c, r, t, m, _, _, _, same) =
          let (_, chunks, _) = delete_runbook_changes context id principal db db' e in
          let other =
            All_at (λ c. not (c.runbook_id == id) ≡ true) _ c
              (All-keep (λ c. not (c.runbook_id == id)) db.runbook_chunks)
              (subst (Memᴰ c) chunks m) in
          ap (λ (h : Hit). h.runbook_id == id) same ∙ ground arith
