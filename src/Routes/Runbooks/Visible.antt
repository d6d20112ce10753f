-- ===== src/Routes/Runbooks/Visible.antt =====
-- Whom the search of apps/api/app/routes/runbooks.py shows what.
use mathlib.Core.List.{Memᴰ}
use triage_assistant.Prelude.{
  ℕ, ◌≤◌, ◌≡◌, refl, sym, ap, ◌∙◌, subst, Bool, true, false, ◌||◌, ◌==◌, Option, none, some,
  some-injective, List, [], ◌∷◌, String, length, All, All-map, if◌then◌else◌, arith,
}
use triage_assistant.Http.{Result, ok, err, ok-injective, err≢ok, >>=_ok}
use triage_assistant.Settings.{Settings}
use triage_assistant.Models.{Db, Team, RunbookChunk}
use triage_assistant.Triage.Hits.{Hit}
use triage_assistant.Access.Group.{viewer}
use triage_assistant.Access.Roles.{Principal, team_ids, require_role}
use triage_assistant.Access.Roles.Visibility.{Distinct, covers, require_role-team_ids}
use triage_assistant.Runbooks.Embed.{Embedder}
use triage_assistant.Runbooks.Save.{Library}
use triage_assistant.Runbooks.Search.{
  Postgres, Retrieval, Mode, Ranked, in_teams, search_runbooks, hit_of,
}
use triage_assistant.Runbooks.Search.Within.{GivesRows, Keyed, Found, search_runbooks-Within}
use triage_assistant.Routes.Alerts.{or_404_ok, team_by_slug, or_404}
use triage_assistant.Routes.Runbooks.{
  keyword_only, SearchIn, SearchOut, search_teams, search_in, no_teams, search_out, search,
}

-- The team that was asked for, if one was.
abbrev pub OfTeam : Db → Option String → ℕ → Type 0
OfTeam db none id = Unit
OfTeam db (some slug) id = (team : Team) × (team_by_slug db slug ≡ some team) × (id ≡ team.id)

-- A stored section in a team where the caller has a role.
abbrev pub Readable : Principal → Option String → Db → Hit → Type 0
Readable principal asked db h =
    (c : RunbookChunk) × Memᴰ c db.runbook_chunks
    × (h.chunk_id ≡ c.id)
    × (h.heading ≡ c.heading)
    × (h.content ≡ c.content)
    × (require_role principal c.team_id viewer "team" ≡ ok tt)
    × OfTeam db asked c.team_id

abbrev pub Shows : Principal → SearchIn → Db → List Ranked → Type 0
Shows principal payload db hits =
    All (λ row. Readable principal payload.team db row.hit) hits × (length hits ≤ payload.k)

covers-in_teams :
    (teams : Option (List ℕ)) (c : RunbookChunk) → in_teams teams c ≡ covers teams c.team_id
unfolding in_teams
covers-in_teams none c = refl
covers-in_teams (some ids) c = refl

require_role_listed :
    (p : Principal) (id : ℕ)
    → Distinct p.teams
    → covers (team_ids p viewer) id ≡ true
    → require_role p id viewer "team" ≡ ok tt
require_role_listed p id d e = require_role-team_ids p id viewer "team" d ∙ (rw e refl)

search_teams-Readable :
    (p : Principal) (asked : Option String) (db : Db) (teams : Option (List ℕ)) (c : RunbookChunk)
    → Distinct p.teams
    → search_teams p asked db ≡ ok teams
    → in_teams teams c ≡ true
    → (require_role p c.team_id viewer "team" ≡ ok tt) × OfTeam db asked c.team_id
unfolding search_teams
search_teams-Readable p none db teams c d e h = (
  require_role_listed p c.team_id d
      (ap (λ ids. covers ids c.team_id) (ok-injective _ _ e) ∙ sym (covers-in_teams teams c) ∙ h),
  tt,
)
search_teams-Readable p (some slug) db teams c d e h =
    let (team, found, e') = >>=_ok (or_404 (team_by_slug db slug) "team not found") _ teams e in
    let (passed, allowed, e'') = >>=_ok (require_role p team.id viewer "team") _ teams e' in
    let same = one_team team.id (ok-injective _ _ e'') in
    (
      subst (λ id. require_role p id viewer "team" ≡ ok tt) (sym same) allowed,
      (team, or_404_ok (team_by_slug db slug) team _ found, same),
    )
  where
    only : (id : ℕ) → (id == c.team_id || false) ≡ true → c.team_id ≡ id
    only id e = ground arith

    one_team : (id : ℕ) → some (id ∷ []) ≡ teams → c.team_id ≡ id
    one_team id e =
        only id
          (subst (λ ids. covers ids c.team_id ≡ true) (sym e) (sym (covers-in_teams teams c) ∙ h))

-- The sections that a search gives among the teams that the caller may search, at most `k`.
pub search_runbooks-Readable :
    {W : Type 0} (postgres : Postgres) (settings : Settings) (sha256 : String → String)
    (query : String) (k : ℕ) (principal : Principal) (asked : Option String) (db : Db)
    → GivesRows postgres
    → Keyed db
    → Distinct principal.teams
    → (teams : Option (List ℕ)) → search_teams principal asked db ≡ ok teams
    → (llm : Embedder W) (redact : String → String) (mode : Mode) (w : W) (retrieval : Retrieval)
    → (search_runbooks postgres settings sha256 query teams k db llm redact mode w).0
      ≡ some retrieval
    → All (λ row. Readable principal asked db row.hit) retrieval.hits × (length retrieval.hits ≤ k)
unfolding hit_of
search_runbooks-Readable postgres settings sha256 query k principal asked db gives keyed distinct
      teams e llm redact mode w retrieval found =
    let (rows, bound) =
      search_runbooks-Within postgres settings sha256 query teams k db gives keyed llm redact mode w
        retrieval found in
    (
      All-map (λ (row : Ranked). Found teams db row.hit)
          (λ (row : Ranked). Readable principal asked db row.hit) retrieval.hits
          (λ row f.
            let (c, r, t, m, inside, _, _, same) = f in
            let (allowed, asked) =
              search_teams-Readable principal asked db teams c distinct e inside in
            (
              c,
              m,
              ap (λ (h : Hit). h.chunk_id) same,
              ap (λ (h : Hit). h.heading) same,
              ap (λ (h : Hit). h.content) same,
              allowed,
              asked,
            ))
          rows,
      bound,
    )

module _ {W : Type 0} (postgres : Postgres) (llm : Embedder W) (library : Library)
    (settings : Settings) (payload : SearchIn) (principal : Principal) (db : Db) where
  search_in-Readable :
      GivesRows postgres
      → Keyed db
      → Distinct principal.teams
      → (teams : Option (List ℕ)) → search_teams principal payload.team db ≡ ok teams
      → (w : W) (out : SearchOut)
      → (search_in postgres llm library settings payload (ok teams) db w).0 ≡ some (ok out)
      → Shows principal payload db out.hits
  unfolding search_in search_out
  search_in-Readable gives keyed distinct teams e w out h = answered (no_teams teams) _ refl h
    where
      answered :
          (b : Bool) (retrieval : Option Retrieval)
          → (search_runbooks postgres settings library.sha256 payload.query teams payload.k db llm
              library.redact payload.mode w).0
            ≡ retrieval
          → (if◌then◌else◌ {A = Option (Result SearchOut) × W} b
              (some (ok (record { mode = keyword_only; embedding_error = none; hits = [] })), w)
              (
                elim (search_out retrieval) [ none ↦ none | some out ↦ some (ok out) ],
                (search_runbooks postgres settings library.sha256 payload.query teams payload.k db
                    llm library.redact payload.mode w).1,
              )).0
            ≡ some (ok out)
          → Shows principal payload db out.hits
      answered true retrieval found h =
          subst (λ (o : SearchOut). Shows principal payload db o.hits)
            (ok-injective _ _ (some-injective _ _ h)) (tt, omega arith)
      answered false none found h = ground arith
      answered false (some retrieval) found h =
          subst (λ (o : SearchOut). Shows principal payload db o.hits)
            (ok-injective _ _ (some-injective _ _ h))
            (search_runbooks-Readable postgres settings library.sha256 payload.query payload.k
              principal payload.team db gives keyed distinct teams e llm library.redact payload.mode
              w retrieval found)

  -- Whatever a search answers, it is at most `k` sections as they are stored, each in a team where the
  -- caller has a role, and in the team that was asked for if one was. It is assumed that no two
  -- sections have the same id, that the caller has one membership for a team at most, and that a scan
  -- of the index gives only rows that there are.
  pub search-Readable :
      GivesRows postgres
      → Keyed db
      → Distinct principal.teams
      → (w : W) (out : SearchOut)
      → (search postgres llm library settings payload principal db w).0 ≡ some (ok out)
      → Shows principal payload db out.hits
  unfolding search search_in
  search-Readable gives keyed distinct w out h =
      reached (search_teams principal payload.team db) refl h
    where
      reached :
          (teams : Result (Option (List ℕ)))
          → search_teams principal payload.team db ≡ teams
          → (search_in postgres llm library settings payload teams db w).0 ≡ some (ok out)
          → Shows principal payload db out.hits
      reached (err failure) e h = absurd (err≢ok _ _ (some-injective _ _ h))
      reached (ok teams) e h = search_in-Readable gives keyed distinct teams e w out h
