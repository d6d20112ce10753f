-- ===== src/Runbooks/Save/Whole.antt =====
-- `save_runbook` of apps/api/app/runbooks.py with the client of apps/api/app/llm.py: the sections of
-- a runbook and their vectors.
pub mod Chunks
unfoldable pub use Chunks.*
use triage_assistant.Prelude.{
  ◌+++◌, ℕ, suc, ◌==◌, ◌≡◌, refl, sym, ap, subst, inl, inr, ◌⊎◌, String, Bool, true, false, not,
  Option, none, some, List, [], ◌∷◌, ◌++◌, map, keep, length, All, length-map, find, Bool-cases,
  ==_iff, arith,
}
use triage_assistant.Settings.{Settings}
use triage_assistant.Models.{Db, Team, Runbook, RunbookChunk}
use triage_assistant.Audit.{Actor, Context}
use triage_assistant.Runbooks.Sections.{Section, split_sections, max_section_words}
use triage_assistant.Runbooks.Embed.{
  Outcome, done, value_error, llm_error, embed_texts, document_text,
}
use triage_assistant.Runbooks.Save.{
  Saved, Library, Upload, is_runbook, unchanged, upsert, record_saved, new_chunk, chunks_of,
  replace_chunks, write_runbook, after_vectors, upload_of, embed_and_write, save_over, save_read,
  save_with, save_runbook,
}
use triage_assistant.Llm.Embeddings.{embedding_dim, Reply, client}
use triage_assistant.Llm.Embeddings.Sized.{Given, Sized, Given-embed_texts}

-- What a saving comes to: an error of the provider, with nothing of it written; the text that was
-- there already, with nothing written; or the runbook with all its sections.
abbrev pub Ends : (String → ℕ) → List Section → Db → (Db → Db) → Outcome Saved → Db → Type 0
Ends size sections db others (llm_error code e) db' = (db' ≡ db) ⊎ (db' ≡ others db)
Ends size sections db others value_error db' = ⊥
Ends size sections db others (done s) db' =
    ((s.changed ≡ false) × (db' ≡ db))
    ⊎ ((s.changed ≡ true) × Whole size sections (stored_sections s.runbook_id db'))

abbrev pub Ended :
    {W : Type 0} → (String → ℕ) → List Section → Db → (Db → Db) → Outcome Saved × Db × W → Type 0
Ended size sections db others (outcome, db', w) = Ends size sections db others outcome db'

module _ (size : String → ℕ) (sections : List Section) (db : Db) (others : Db → Db) where
  replace_chunks-Ended :
      (id : ℕ) (found : Option (List RunbookChunk)) (rows : List RunbookChunk) (before after : Db)
      → found ≡ some rows
      → Whole size sections rows
      → All (λ c. c.runbook_id ≡ id) rows
      → Ends size sections db others
          (replace_chunks id sections found before after).0
          (replace_chunks id sections found before after).1
  unfolding replace_chunks
  replace_chunks-Ended id found rows before after e whole ids = rw e (
      inr (
        refl,
        subst (Whole size sections) (sym (keep_replaced id after.runbook_chunks rows ids)) whole,
      ))

  write_runbook-Ended :
      (context : Context) (actor : Actor) (u : Upload) (existing : Option Runbook)
      (vectors : List String) (before : Db)
      → Sized size (length sections) vectors
      → Ends size sections db others
          (write_runbook context actor u sections existing vectors before).0
          (write_runbook context actor u sections existing vectors before).1
  unfolding write_runbook
  write_runbook-Ended context actor u existing vectors before h =
      let found = find (is_runbook u.team_id u.title) before.runbooks in
      let (id, stored) = upsert context.now u found before in
      let recorded = record_saved context actor u sections existing id stored in
      let next = recorded.next_id in
      let (rows, made, whole, ids) = chunks_of-Whole size id u next 0 sections vectors h in
      replace_chunks-Ended id (chunks_of id u next 0 sections vectors) rows before recorded made
        whole ids

  after_vectors-Ended :
      {W : Type 0} (context : Context) (actor : Actor) (u : Upload) (existing : Option Runbook)
      (vectors : Outcome (List String) × W)
      → Given size (length sections) vectors.0
      → Ends size sections db others
          (after_vectors context actor u sections existing (others db) vectors).0
          (after_vectors context actor u sections existing (others db) vectors).1
  unfolding after_vectors
  after_vectors-Ended context actor u existing (done vectors, w) g =
      write_runbook-Ended context actor u existing vectors (others db) g
  after_vectors-Ended context actor u existing (llm_error code e, w) g = inr refl
  after_vectors-Ended context actor u existing (value_error, w) g = g

module _ {W : Type 0} (size : String → ℕ) (create : List String → W → Reply × W) (library : Library)
    (settings : Settings) (context : Context) (actor : Actor) (others : Db → Db) where
  embed_and_write-Ended :
      (model : Option String) (u : Upload) (sections : List Section) (existing : Option Runbook)
      (db : Db) (w : W)
      → Ended size sections db others (
          embed_and_write
            (client size model create)
            library
            settings
            context
            actor
            others
            u
            sections
            existing
            db
            w)
  unfolding embed_and_write
  embed_and_write-Ended model u sections existing db w =
      let texts = map (λ s. settings.embedding_document_prefix +++ document_text s) sections in
      after_vectors-Ended size sections db others context actor u existing
        (embed_texts (client size model create) library.redact texts w)
        (subst (λ n. Given size n (embed_texts (client size model create) library.redact texts w).0)
          (length-map (λ s. settings.embedding_document_prefix +++ document_text s) sections)
          (Given-embed_texts size model create library.redact texts w))

  save_read-Ended :
      (model : Option String) (u : Upload) (sections : List Section) (existing : Option Runbook)
      (db : Db) (w : W)
      → Ended size sections db others (
          save_read
            (client size model create)
            library
            settings
            context
            actor
            others
            u
            sections
            existing
            db
            w)
  unfolding save_read save_over
  save_read-Ended model u sections none db w = embed_and_write-Ended model u sections none db w
  save_read-Ended model u sections (some r) db w = over (unchanged u r)
    where
      over :
          (same : Bool)
          → Ended size sections db others (
              save_over
                (client size model create)
                library
                settings
                context
                actor
                others
                u
                sections
                r
                same
                db
                w)
      over true = inl (refl, refl)
      over false = embed_and_write-Ended model u sections (some r) db w

  -- With the client as the embedder, whatever the provider answers and others commit meanwhile, a
  -- saving never fails for vectors that do not fit the sections: it ends by an error of the provider
  -- with nothing of its own written, with the text that was there and nothing written, or with the sections of
  -- the runbook stored in order, those of the text that was given and no others, each with a vector of the
  -- database's size.
  pub save_runbook-Ended :
      (model : Option String) (team : Team) (title body : String) (source_url : Option String)
      (db : Db) (w : W)
      → Ended size (split_sections library.alphabet title body max_section_words) db others (
          save_runbook
            (client size model create)
            library
            settings
            context
            actor
            others
            team
            title
            body
            source_url
            db
            w)
  unfolding save_runbook save_with client
  save_runbook-Ended none team title body source_url db w = inl refl
  save_runbook-Ended (some m) team title body source_url db w =
      save_read-Ended (some m) (upload_of library settings team title body source_url)
        (split_sections library.alphabet title body max_section_words)
        (find (is_runbook team.id title) db.runbooks) db w
