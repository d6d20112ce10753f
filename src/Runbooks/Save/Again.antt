-- ===== src/Runbooks/Save/Again.antt =====
-- `save_runbook` of apps/api/app/runbooks.py, twice.
use triage_assistant.Prelude.{
  ℕ, String, Bool, true, false, ◌≡◌, refl, ap, sym, ◌∙◌, subst, Option, none, some, List, find,
  length, arith,
}
use triage_assistant.Settings.{Settings}
use triage_assistant.Models.{Db, Team, Runbook, RunbookChunk}
use triage_assistant.Audit.{Actor, Context, record_event}
use triage_assistant.Runbooks.Sections.{Section, split_sections, max_section_words}
use triage_assistant.Runbooks.Embed.{Outcome, done, llm_error, value_error, Embedder}
use triage_assistant.Runbooks.Save.{
  Saved, Library, Upload, is_runbook, unchanged, replace_chunks, write_runbook, after_vectors,
  upload_of, embed_and_write, save_over, save_read, save_with, save_runbook,
}
use triage_assistant.Runbooks.Save.Stored.{Kept, upsert-Kept}

-- What a saving leaves, if it reports one.
Stored : Upload → ℕ → Outcome Saved → Db → Type 0
Stored u n (done s) db = Kept u s.runbook_id db × (s.sections ≡ n)
Stored u n (llm_error code e) db = Unit
Stored u n value_error db = Unit

replace_chunks-Stored :
    (u : Upload) (id : ℕ) (sections : List Section) (rows : Option (List RunbookChunk))
    (before db : Db)
    → Kept u id db
    → Stored u
        (length sections)
        (replace_chunks id sections rows before db).0
        (replace_chunks id sections rows before db).1
unfolding replace_chunks Stored
replace_chunks-Stored u id sections none before db k = tt
replace_chunks-Stored u id sections (some rows) before db k = (k, refl)

write_runbook-Stored :
    (context : Context) (actor : Actor) (u : Upload) (sections : List Section)
    (existing : Option Runbook) (vectors : List String) (db : Db)
    → Stored u
        (length sections)
        (write_runbook context actor u sections existing vectors db).0
        (write_runbook context actor u sections existing vectors db).1
unfolding write_runbook record_event
write_runbook-Stored context actor u sections existing vectors db =
    replace_chunks-Stored u _ sections _ db _
      (upsert-Kept context.now u (find (is_runbook u.team_id u.title) db.runbooks) db refl)

After : {W : Type 0} → Upload → ℕ → Outcome Saved × Db × W → Type 0
unfolding Stored
After u n (o, db, w) = Stored u n o db

after_vectors-After :
    {W : Type 0} (context : Context) (actor : Actor) (u : Upload) (sections : List Section)
    (existing : Option Runbook) (db : Db) (vectors : Outcome (List String) × W)
    → After u (length sections) (after_vectors context actor u sections existing db vectors)
unfolding after_vectors After Stored
after_vectors-After context actor u sections existing db (done vectors, w) =
    write_runbook-Stored context actor u sections existing vectors db
after_vectors-After context actor u sections existing db (llm_error code e, w) = tt
after_vectors-After context actor u sections existing db (value_error, w) = tt

module _ {W : Type 0} (embedder : Embedder W) (library : Library) (settings : Settings) (u : Upload)
    (sections : List Section) where
  save_over-After :
      (context : Context) (actor : Actor) (others : Db → Db) (r : Runbook) (same : Bool) (db : Db)
      (w : W)
      → find (is_runbook u.team_id u.title) db.runbooks ≡ some r
      → unchanged u r ≡ same
      → After u
          (length sections)
          (save_over embedder library settings context actor others u sections r same db w)
  unfolding save_over embed_and_write After Stored
  save_over-After context actor others r true db w e t = ((r, e, refl, t), refl)
  save_over-After context actor others r false db w e t =
      after_vectors-After context actor u sections (some r) (others db) _

  save_read-After :
      (context : Context) (actor : Actor) (others : Db → Db) (found : Option Runbook) (db : Db)
      (w : W)
      → find (is_runbook u.team_id u.title) db.runbooks ≡ found
      → After u
          (length sections)
          (save_read embedder library settings context actor others u sections found db w)
  unfolding save_read embed_and_write
  save_read-After context actor others none db w e =
      after_vectors-After context actor u sections none (others db) _
  save_read-After context actor others (some r) db w e =
      save_over-After context actor others r (unchanged u r) db w e refl

  save_read-Kept :
      (context : Context) (actor : Actor) (others : Db → Db) (id : ℕ) (db : Db) (w : W)
      → Kept u id db
      → save_read embedder library settings context actor others u sections
          (find (is_runbook u.team_id u.title) db.runbooks)
          db
          w
        ≡ (done (record { runbook_id = id; sections = length sections; changed = false }), db, w)
  unfolding save_read save_over
  save_read-Kept context actor others id db w (r, f, i, t) =
      ap (λ found. save_read embedder library settings context actor others u sections found db w) f
      ∙ ap (λ same. save_over embedder library settings context actor others u sections r same db w)
          t
      ∙ ap
          (λ n.
            (done (record { runbook_id = n; sections = length sections; changed = false }), db, w))
          i

save_with-save_with :
    {W : Type 0} (embedder : Embedder W) (library : Library) (settings : Settings)
    (context later : Context) (actor other : Actor) (others meanwhile : Db → Db)
    (model : Option String) (team : Team) (title body : String) (source_url : Option String)
    (db stored : Db) (w spent : W) (saved : Saved)
    → save_with embedder library settings context actor others model team title body source_url db w
      ≡ (done saved, stored, spent)
    → save_with embedder library settings later other meanwhile model team title body source_url
        stored spent
      ≡ (
        done (record { runbook_id = saved.runbook_id; sections = saved.sections; changed = false }),
        stored,
        spent,
      )
unfolding save_with After Stored upload_of
save_with-save_with embedder library settings context later actor other others meanwhile none team
      title body source_url db stored w spent saved h =
    absurd (ground (arith, h))
save_with-save_with embedder library settings context later actor other others meanwhile
      (some model) team title body source_url db stored w spent saved h =
    let u = upload_of library settings team title body source_url in
    let sections = split_sections library.alphabet title body max_section_words in
    let (kept, n) =
      subst (After u (length sections)) h
        (save_read-After embedder library settings u sections context actor others _ db w refl) in
    save_read-Kept embedder library settings u sections later other meanwhile saved.runbook_id
      stored spent kept
    ∙ ap
        (λ k. (
          done (record { runbook_id = saved.runbook_id; sections = k; changed = false }),
          stored,
          spent,
        ))
        (sym n)

-- After an upload that is stored, or was stored already, the same upload finds it, by whom and when it
-- may be, if nothing was committed in between: the runbook and the number of sections are the same,
-- nothing is written or recorded, and no embedding is asked for.
pub save_runbook-save_runbook :
    {W : Type 0} (embedder : Embedder W) (library : Library) (settings : Settings)
    (context later : Context) (actor other : Actor) (others meanwhile : Db → Db) (team : Team)
    (title body : String) (source_url : Option String) (db stored : Db) (w spent : W)
    (saved : Saved)
    → save_runbook embedder library settings context actor others team title body source_url db w
      ≡ (done saved, stored, spent)
    → save_runbook embedder library settings later other meanwhile team title body source_url stored
        spent
      ≡ (
        done (record { runbook_id = saved.runbook_id; sections = saved.sections; changed = false }),
        stored,
        spent,
      )
unfolding save_runbook
save_runbook-save_runbook embedder library settings context later actor other others meanwhile team
      title body source_url db stored w spent saved h =
    save_with-save_with embedder library settings context later actor other others meanwhile
      embedder.embedding_model team title body source_url db stored w spent saved h
