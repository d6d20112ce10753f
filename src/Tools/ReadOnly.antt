-- ===== src/Tools/ReadOnly.antt =====
-- What a call of the tools of apps/api/app/tools.py may change.
use triage_assistant.Prelude.{
  none, some, Option, Option, ℕ, some, ◌≡◌, refl, Bool, true, String, Bool-cases, inl, inr,
}
use triage_assistant.Models.{Db}
use triage_assistant.Audit.{record_event}
use triage_assistant.Tools.{
  Asker, Checked, invalid, valid, list_alerts, search_runbooks, ToolContext, run, run_checked,
  is_tool, arrived, read_alerts, read_sections, record_search,
}
use triage_assistant.Runbooks.Search.{Retrieval}
use triage_assistant.Runbooks.Asked.{search_asked}
use triage_assistant.Agent.{Outcome}

-- The database with the audit trail, and the counter of ids, of another.
abbrev pub with_trail_of : Db → Db → Db
with_trail_of old new = record new { audit_events = old.audit_events; next_id = old.next_id }

module _ {W : Type 0} (a : Asker W) where
  record_search-ReadOnly :
      (query : String) (k : ℕ) (retrieval : Option Retrieval) (db : Db)
      → with_trail_of db (record_search a query k retrieval db) ≡ db
  unfolding record_search record_event
  record_search-ReadOnly query k none db = refl
  record_search-ReadOnly query k (some retrieval) db = refl

  run_checked-ReadOnly :
      (late : Bool) (c : Checked) (ctx : ToolContext) (db : Db) (w : W)
      → with_trail_of db (run_checked a late c ctx db w).1.0 ≡ db
  unfolding run_checked read_alerts read_sections record_event
  run_checked-ReadOnly late (invalid e) ctx db w = refl
  run_checked-ReadOnly late (valid (list_alerts severity limit)) ctx db w = refl
  run_checked-ReadOnly late (valid (search_runbooks query k)) ctx db w =
      record_search-ReadOnly query k (search_asked a.searcher a.principal query k db w).0 db

  run_checked_late :
      (c : Checked) (ctx : ToolContext) (db : Db) (w : W)
      → (o : Outcome) × ((run_checked a true c ctx db w).0 ≡ some (o, ctx))
  unfolding run_checked arrived
  run_checked_late (invalid e) ctx db w = (_, refl)
  run_checked_late (valid (list_alerts severity limit)) ctx db w = (_, refl)
  run_checked_late (valid (search_runbooks query k)) ctx db w = (_, refl)

  -- Whatever tool is called with whatever arguments, in time or late, and whatever the provider of
  -- embeddings does, nothing but the audit trail changes in the database; and a late call is always
  -- answered, and changes nothing of what the answer may cite or counts.
  pub run_read_only :
      (late : Bool) (name arguments : String) (ctx : ToolContext) (db : Db) (w : W)
      → (with_trail_of db (run a late name arguments ctx db w).1.0 ≡ db)
        × ((o : Outcome) × ((run a true name arguments ctx db w).0 ≡ some (o, ctx)))
  unfolding run
  run_read_only late name arguments ctx db w = elim (Bool-cases (is_tool name)) [
    | inl e ↦ rw e (
      run_checked-ReadOnly late (a.check name arguments) ctx db w,
      run_checked_late (a.check name arguments) ctx db w,
    )
    | inr e ↦ rw e (refl, (_, refl))
  ]
