-- ===== src/Runbooks/Save/Refines.antt =====
-- `save_runbook` of apps/api/app/runbooks.py puts a text on the shelf, or leaves the shelf as it is.
use triage_assistant.Prelude.{
  ℕ, ◌==◌, ==_iff, ◌≡◌, refl, sym, ap, ◌∙◌, subst, inl, inr, ◌⊎◌, String, Bool, true, false, ◌&&◌,
  Option, none, some, List, [], ◌∷◌, map, find, All, All-append, All-find, Bool-cases, str_eq,
  eq_iff, arith,
}
use triage_assistant.Settings.{Settings}
use triage_assistant.Models.{Db, Team, Runbook, RunbookChunk}
use triage_assistant.Audit.{Actor, Context, record_event}
use triage_assistant.Runbooks.Sections.{Section, split_sections, max_section_words}
use triage_assistant.Runbooks.Embed.{Outcome, done, llm_error, value_error, Embedder}
use triage_assistant.Runbooks.Save.Shelf.{put, body_in, shelf_of, upsert-put}
use triage_assistant.Runbooks.Save.{
  Saved, Library, Upload, is_runbook, unchanged, update_row, new_row, upsert, record_saved,
  replace_chunks, write_runbook, after_vectors, upload_of, embed_and_write, save_over, save_read,
  save_with, save_runbook,
}

-- Every runbook has the hash of its text.
abbrev pub Hashed : (String → String) → Db → Type 0
Hashed sha256 db = All (λ r. r.body_sha256 ≡ sha256 r.body) db.runbooks

module _ (sha256 : String → String) (u : Upload) where
  -- What an outcome makes of the database that it was written over.
  abbrev pub Refines : Outcome Saved → Db → Db → Type 0
  Refines (done saved) base db' =
      ((t : ℕ) (n : String) → shelf_of db' t n ≡ put u.team_id u.title u.body (shelf_of base) t n)
      × (Hashed sha256 base → Hashed sha256 db')
  Refines (llm_error code message) base db' = db' ≡ base
  Refines value_error base db' = db' ≡ base

  update_row-Hashed :
      (now : ℕ) (rows : List Runbook)
      → u.digest ≡ sha256 u.body
      → All (λ r. r.body_sha256 ≡ sha256 r.body) rows
      → All (λ r. r.body_sha256 ≡ sha256 r.body) (map (update_row now u) rows)
  unfolding update_row
  update_row-Hashed now [] e h = tt
  update_row-Hashed now (r ∷ rows) e h = elim (Bool-cases (is_runbook u.team_id u.title r)) [
    | inl y ↦ rw y (e, update_row-Hashed now rows e h.1)
    | inr y ↦ rw y (h.0, update_row-Hashed now rows e h.1)
  ]

  upsert-Hashed :
      (now : ℕ) (found : Option Runbook) (db : Db)
      → u.digest ≡ sha256 u.body
      → Hashed sha256 db
      → Hashed sha256 (upsert now u found db).1
  unfolding upsert new_row
  upsert-Hashed now none db e h =
      All-append (λ r. r.body_sha256 ≡ sha256 r.body) db.runbooks _ h (e, tt)
  upsert-Hashed now (some r) db e h = update_row-Hashed now db.runbooks e h

  replace_chunks-Refines :
      (id : ℕ) (sections : List Section) (rows : Option (List RunbookChunk)) (base db : Db)
      → ((t : ℕ) (n : String) → shelf_of db t n ≡ put u.team_id u.title u.body (shelf_of base) t n)
      → (Hashed sha256 base → Hashed sha256 db)
      → Refines
          (replace_chunks id sections rows base db).0
          base
          (replace_chunks id sections rows base db).1
  unfolding replace_chunks
  replace_chunks-Refines id sections none base db s h = refl
  replace_chunks-Refines id sections (some rows) base db s h = (s, h)

  write_runbook-Refines :
      (context : Context) (actor : Actor) (sections : List Section) (existing : Option Runbook)
      (vectors : List String) (base : Db)
      → u.digest ≡ sha256 u.body
      → Refines
          (write_runbook context actor u sections existing vectors base).0
          base
          (write_runbook context actor u sections existing vectors base).1
  unfolding write_runbook record_saved record_event
  write_runbook-Refines context actor sections existing vectors base e =
      replace_chunks-Refines _ sections _ base _ (upsert-put context.now u base)
        (upsert-Hashed context.now (find (is_runbook u.team_id u.title) base.runbooks) base e)

  after_vectors-Refines :
      {W : Type 0} (context : Context) (actor : Actor) (sections : List Section)
      (existing : Option Runbook) (base : Db) (vectors : Outcome (List String) × W)
      → u.digest ≡ sha256 u.body
      → Refines
          (after_vectors context actor u sections existing base vectors).0
          base
          (after_vectors context actor u sections existing base vectors).1
  unfolding after_vectors
  after_vectors-Refines context actor sections existing base (done vectors, w) e =
      write_runbook-Refines context actor sections existing vectors base e
  after_vectors-Refines context actor sections existing base (llm_error code m, w) e = refl
  after_vectors-Refines context actor sections existing base (value_error, w) e = refl

  -- Putting the text that is there changes nothing.
  put_same :
      (db : Db) (r : Runbook)
      → ((a b : String) → sha256 a ≡ sha256 b → a ≡ b)
      → Hashed sha256 db
      → u.digest ≡ sha256 u.body
      → find (is_runbook u.team_id u.title) db.runbooks ≡ some r
      → unchanged u r ≡ true
      → (t : ℕ) (n : String) → shelf_of db t n ≡ put u.team_id u.title u.body (shelf_of db) t n
  unfolding unchanged
  put_same db r injective hashed e found same t n =
      elim (Bool-cases (u.team_id == t && str_eq u.title n)) [
        | inl y ↦ rw y (
            subst (λ i. shelf_of db i n ≡ some u.body) ((==_iff u.team_id t).0 (ground arith))
              (subst (λ s. shelf_of db u.team_id s ≡ some u.body)
                ((eq_iff u.title n).0 (ground arith))
                (ap body_in found
                  ∙ ap some (
                      injective r.body u.body (
                        sym (
                          All-find (λ r. r.body_sha256 ≡ sha256 r.body)
                            (is_runbook u.team_id u.title) db.runbooks r hashed found)
                        ∙ (eq_iff r.body_sha256 u.digest).0 (ground arith)
                        ∙ e)))))
        | inr y ↦ rw y refl
      ]

-- What a saving comes to, over the database as it was or as others left it.
abbrev pub PutOver :
    {W : Type 0} → (String → String) → Upload → Db → (Db → Db) → Outcome Saved × Db × W → Type 0
PutOver sha256 u db others (outcome, db', w) =
    (base : Db) × ((base ≡ db) ⊎ (base ≡ others db)) × Refines sha256 u outcome base db'

module _ {W : Type 0} (embedder : Embedder W) (library : Library) (settings : Settings)
    (context : Context) (actor : Actor) (others : Db → Db) where
  embed_and_write-Refines :
      (u : Upload) (sections : List Section) (existing : Option Runbook) (db : Db) (w : W)
      → u.digest ≡ library.sha256 u.body
      → PutOver library.sha256 u db others
          (embed_and_write embedder library settings context actor others u sections existing db w)
  unfolding embed_and_write
  embed_and_write-Refines u sections existing db w e = (
    others db,
    inr refl,
    after_vectors-Refines library.sha256 u context actor sections existing (others db) _ e,
  )

  save_over-Refines :
      (u : Upload) (sections : List Section) (r : Runbook) (same : Bool) (db : Db) (w : W)
      → ((a b : String) → library.sha256 a ≡ library.sha256 b → a ≡ b)
      → Hashed library.sha256 db
      → u.digest ≡ library.sha256 u.body
      → find (is_runbook u.team_id u.title) db.runbooks ≡ some r
      → unchanged u r ≡ same
      → PutOver library.sha256 u db others
          (save_over embedder library settings context actor others u sections r same db w)
  unfolding save_over
  save_over-Refines u sections r true db w injective hashed e found same =
      (db, inl refl, (put_same library.sha256 u db r injective hashed e found same, λ h. h))
  save_over-Refines u sections r false db w injective hashed e found same =
      embed_and_write-Refines u sections (some r) db w e

  save_read-Refines :
      (u : Upload) (sections : List Section) (existing : Option Runbook) (db : Db) (w : W)
      → ((a b : String) → library.sha256 a ≡ library.sha256 b → a ≡ b)
      → Hashed library.sha256 db
      → u.digest ≡ library.sha256 u.body
      → find (is_runbook u.team_id u.title) db.runbooks ≡ existing
      → PutOver library.sha256 u db others
          (save_read embedder library settings context actor others u sections existing db w)
  unfolding save_read
  save_read-Refines u sections none db w injective hashed e found =
      embed_and_write-Refines u sections none db w e
  save_read-Refines u sections (some r) db w injective hashed e found =
      save_over-Refines u sections r (unchanged u r) db w injective hashed e found refl

  -- Saving a runbook refines putting a text on a shelf by team and title. Whatever the provider
  -- answers, and whatever others commit while it works: a saving that is done leaves, over the
  -- database as it was or as others left it, exactly that text under that team and title and every
  -- other text as it was, and each runbook still has the hash of its text if each had it there; a
  -- saving that fails changes nothing of it. It is assumed that no two texts have the same hash and
  -- that each runbook has the hash of its text.
  pub save_runbook-Refines :
      (team : Team) (title body : String) (source_url : Option String) (db : Db) (w : W)
      → ((a b : String) → library.sha256 a ≡ library.sha256 b → a ≡ b)
      → Hashed library.sha256 db
      → PutOver library.sha256 (upload_of library settings team title body source_url) db others (
          save_runbook embedder library settings context actor others team title body source_url db
            w)
  unfolding save_runbook upload_of
  save_runbook-Refines team title body source_url db w injective hashed =
      by_model embedder.embedding_model
    where
      by_model :
          (model : Option String)
          → PutOver library.sha256
              (upload_of library settings team title body source_url)
              db
              others
              (save_with embedder library settings context actor others model team title body
                source_url db w)
      by_model none = (db, inl refl, refl)
      by_model (some model) =
          save_read-Refines (upload_of library settings team title body source_url)
            (split_sections library.alphabet title body max_section_words)
            (find (is_runbook team.id title) db.runbooks) db w injective hashed refl refl
