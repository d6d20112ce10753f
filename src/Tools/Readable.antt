-- ===== src/Tools/Readable.antt =====
-- Which sections the tools of apps/api/app/tools.py make citable.
use triage_assistant.Prelude.{
  ℕ, String, ◌≡◌, refl, inl, inr, Bool, true, false, Option, none, some, List, [], ◌∷◌, All,
  All-append, Bool-cases,
}
use triage_assistant.Models.{Db, AlertOut}
use triage_assistant.Queries.{newest_alerts}
use triage_assistant.Access.Group.{viewer}
use triage_assistant.Triage.Hits.{Hit}
use triage_assistant.Agent.{Outcome}
use triage_assistant.Access.Roles.{team_ids}
use triage_assistant.Runbooks.Search.{Retrieval}
use triage_assistant.Runbooks.Asked.{hits_of, search_asked}
use triage_assistant.Tools.{
  number_from, placed, place, place_all, Asker, Checked, invalid, valid, list_alerts,
  search_runbooks, ToolContext, run, run_checked, is_tool, arrived, read_sections, sections_result,
  alerts_result,
}

placed-All :
    (P : Hit → Type 0) (hit : Hit) (known : List Hit) (o : Option ℕ)
    → P hit
    → All P known
    → All P (placed hit known o).1
unfolding placed
placed-All P hit known none h k = All-append P known (hit ∷ []) k (h, tt)
placed-All P hit known (some n) h k = k

-- What is placed is known already, or is a hit.
place_all-All :
    (P : Hit → Type 0) (hits known : List Hit)
    → All P hits
    → All P known
    → All P (place_all hits known).1
unfolding place_all place
place_all-All P [] known h k = k
place_all-All P (hit ∷ hits) known h k =
    place_all-All P hits _ h.1 (placed-All P hit known (number_from 1 known hit.chunk_id) h.0 k)

-- The context that an outcome leaves, if there is one, has only such sections.
abbrev pub Keeps : (Hit → Type 0) → Option (Outcome × ToolContext) → Type 0
Keeps P none = Unit
Keeps P (some (o, ctx)) = All P ctx.sections

module _ {W : Type 0} (a : Asker W) (P : Hit → Type 0) (ctx : ToolContext)
    (known : All P ctx.sections) where
  sections_result-Keeps :
      (hits : List Hit)
      → All P hits
      → All P (sections_result a.searcher.clean a.minute a.date hits ctx).1.sections
  unfolding sections_result
  sections_result-Keeps [] h = known
  sections_result-Keeps (x ∷ xs) h = place_all-All P (x ∷ xs) ctx.sections h known

  alerts_result-Keeps :
      (alerts : List AlertOut) (severity : Option String)
      → All P (alerts_result a.searcher.clean a.minute a.date alerts severity ctx).1.sections
  unfolding alerts_result
  alerts_result-Keeps [] severity = known
  alerts_result-Keeps (x ∷ xs) severity = known

  arrived-Keeps :
      (late : Bool) (retrieval : Option Retrieval)
      → ((r : Retrieval) → retrieval ≡ some r → All P (hits_of r))
      → Keeps P (
          arrived late ctx retrieval
            (λ r. sections_result a.searcher.clean a.minute a.date (hits_of r) ctx))
  unfolding arrived
  arrived-Keeps true retrieval found = known
  arrived-Keeps false none found = tt
  arrived-Keeps false (some r) found = sections_result-Keeps (hits_of r) (found r refl)

  run_checked-Keeps :
      (late : Bool) (c : Checked) (db : Db) (w : W)
      → ((query : String) (k : ℕ) (r : Retrieval)
          → (search_asked a.searcher a.principal query k db w).0 ≡ some r
          → All P (hits_of r))
      → Keeps P (run_checked a late c ctx db w).0
  unfolding run_checked read_sections arrived
  run_checked-Keeps late (invalid e) db w found = known
  run_checked-Keeps late (valid (search_runbooks query k)) db w found =
      arrived-Keeps late (search_asked a.searcher a.principal query k db w).0 (found query k)
  run_checked-Keeps true (valid (list_alerts severity limit)) db w found = known
  run_checked-Keeps false (valid (list_alerts severity limit)) db w found =
      alerts_result-Keeps
        (newest_alerts a.slug_of db.alerts (team_ids a.principal viewer) limit severity none)
        severity

  pub run-Keeps :
      (late : Bool) (name arguments : String) (db : Db) (w : W)
      → ((query : String) (k : ℕ) (r : Retrieval)
          → (search_asked a.searcher a.principal query k db w).0 ≡ some r
          → All P (hits_of r))
      → Keeps P (run a late name arguments ctx db w).0
  unfolding run
  run-Keeps late name arguments db w found = elim (Bool-cases (is_tool name)) [
    | inl e ↦ rw e (run_checked-Keeps late (a.check name arguments) db w found)
    | inr e ↦ rw e known
  ]
