-- ===== src/Tools/Looped.antt =====
-- The agent of apps/api/app/agent.py with the tools of apps/api/app/tools.py: what an answer reads.
use triage_assistant.Prelude.{
  ℕ, String, ◌≡◌, refl, sym, ap, ◌∙◌, subst, Bool, Option, none, some, List, [], All,
}
use triage_assistant.Models.{Db}
use triage_assistant.Triage.Events.{Problem}
use triage_assistant.Access.Roles.{Principal}
use triage_assistant.Access.Roles.Visibility.{Distinct}
use triage_assistant.Agent.{Message, Part, Outcome, ToolCall, World, loop}
use triage_assistant.Agent.Steady.{loop-Steady}
use triage_assistant.Runbooks.Search.{Retrieval}
use triage_assistant.Runbooks.Search.Within.{GivesRows, Keyed}
use triage_assistant.Runbooks.Asked.{hits_of, search_asked}
use triage_assistant.Runbooks.Asked.Readable.{search_asked-Readable}
use triage_assistant.Routes.Runbooks.Visible.{Readable}
use triage_assistant.Tools.{Asker, ToolContext, run}
use triage_assistant.Tools.ReadOnly.{with_trail_of, run_read_only}
use triage_assistant.Tools.Readable.{Keeps, run-Keeps}

-- What a run of the agent changes: what its calls have read, the database, and what the model and the
-- provider of embeddings depend on.
pub record Answering (W : Type 0) : Type 0 where
  pub ctx : ToolContext
  pub db : Db
  pub outside : W

abbrev pub begun : {W : Type 0} → Db → W → Answering W
begun db w = record { ctx = record { sections = []; alert_ids = [] }; db = db; outside = w }

-- A call's outcome, if it ended, and what it read.
unfoldable pub settle :
    {W : Type 0}
    → ToolContext
    → Option (Outcome × ToolContext)
    → Db
    → W
    → Option Outcome × Answering W
settle ctx none db w = (none, record { ctx = ctx; db = db; outside = w })
settle ctx (some (result, ctx')) db w = (some result, record { ctx = ctx'; db = db; outside = w })

-- `model` is the stream of a turn, `late` says which calls do not arrive in time.
unfoldable pub with_tools :
    {W : Type 0}
    → Asker W
    → (List Message → Bool → W → (List Part × Option Problem) × W)
    → (ToolCall → W → Bool)
    → Problem
    → World (Answering W)
unfolding settle
with_tools a model late failure = record {
  turn = λ messages offered r.
      let (streamed, w) = model messages offered r.outside in (streamed, record r { outside = w });
  call = λ c r.
      let (result, (db, w)) = run a (late c r.outside) c.name c.arguments r.ctx r.db r.outside in
      settle r.ctx result db w;
  failure = failure;
}

-- Every section that may be cited is one that the asker may read, and the database differs from one
-- before in the audit trail only.
abbrev pub Honest : {W : Type 0} → Principal → Db → Answering W → Type 0
Honest principal db r =
    All (Readable principal none db) r.ctx.sections × (with_trail_of db r.db ≡ db)

settle-Honest :
    {W : Type 0} (principal : Principal) (db db' : Db) (ctx : ToolContext)
    (result : Option (Outcome × ToolContext)) (w : W)
    → All (Readable principal none db) ctx.sections
    → Keeps (Readable principal none db) result
    → with_trail_of db db' ≡ db
    → Honest principal db (settle ctx result db' w).1
unfolding settle
settle-Honest principal db db' ctx none w known kept e = (known, e)
settle-Honest principal db db' ctx (some (o, ctx')) w known kept e = (kept, e)

module _ {W : Type 0} (a : Asker W)
    (model : List Message → Bool → W → (List Part × Option Problem) × W)
    (late : ToolCall → W → Bool) (failure : Problem) (db : Db)
    (gives : GivesRows a.searcher.postgres) (keyed : Keyed db)
    (distinct : Distinct a.principal.teams) where
  -- A database that differs in the audit trail only has the same sections.
  found-Readable :
      (now : Db)
      → with_trail_of db now ≡ db
      → (w : W) (query : String) (k : ℕ) (r : Retrieval)
      → (search_asked a.searcher a.principal query k now w).0 ≡ some r
      → All (Readable a.principal none db) (hits_of r)
  found-Readable now e w query k r found =
      subst (λ d. All (Readable a.principal none d) (hits_of r)) e
        (search_asked-Readable a.searcher a.principal query k now gives (subst Keyed (sym e) keyed)
          distinct w r found)

  turn-Honest :
      (messages : List Message) (offered : Bool) (r : Answering W)
      → Honest a.principal db r
      → Honest a.principal db ((with_tools a model late failure).turn messages offered r).1
  unfolding with_tools
  turn-Honest messages offered r h = h

  call-Honest :
      (c : ToolCall) (r : Answering W)
      → Honest a.principal db r
      → Honest a.principal db ((with_tools a model late failure).call c r).1
  unfolding with_tools
  call-Honest c r (known, e) =
      settle-Honest a.principal db _ r.ctx
        (run a (late c r.outside) c.name c.arguments r.ctx r.db r.outside).0 _ known
        (run-Keeps a (Readable a.principal none db) r.ctx known (late c r.outside) c.name
          c.arguments r.db r.outside (found-Readable r.db e r.outside))
        (ap (with_trail_of db)
            (run_read_only a (late c r.outside) c.name c.arguments r.ctx r.db r.outside).0
          ∙ e)

  -- In a run of the agent, whatever the model says and asks for in whatever number of rounds, which
  -- calls are late and how it ends: every section that its answer may cite is stored, in a team where
  -- the asker has a role, and nothing but the audit trail has changed in the database. It is assumed
  -- that no two sections have the same id, that the asker has one membership for a team at most, and
  -- that a scan of the index gives only rows that there are.
  pub loop-Honest :
      (json_sorted : String → Option String) (prompt question : String) (max_steps : ℕ) (w : W)
      → Honest a.principal db
          (loop json_sorted
            (with_tools a model late failure)
            prompt
            a.searcher.clean
            question
            max_steps
            (begun db w)).1.state
  loop-Honest json_sorted prompt question max_steps w =
      loop-Steady json_sorted (with_tools a model late failure) (Honest a.principal db) turn-Honest
        call-Honest prompt a.searcher.clean question max_steps (begun db w) (tt, refl)
