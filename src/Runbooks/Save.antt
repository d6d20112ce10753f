-- ===== src/Runbooks/Save.antt =====
-- `save_runbook` of apps/api/app/runbooks.py: a runbook's text with its sections and their vectors.
pub mod Again
pub mod Stored
pub mod Shelf
pub mod Refines
pub mod Whole
use triage_assistant.Prelude.{
  ◌+◌, ℕ, zero, suc, String, Bool, true, false, not, ◌&&◌, ◌==◌, Option, none, some, List, [], ◌∷◌,
  ◌++◌, map, keep, find, take, drop, length, str_eq, if◌then◌else◌, ◌+++◌, front,
}
use triage_assistant.Prelude.Numbers.{decimal}
use triage_assistant.Settings.{Settings}
use triage_assistant.Models.{Db, Team, Runbook, RunbookChunk, Detail, nothing, text, number}
use triage_assistant.Audit.{Actor, Context, record_event}
use triage_assistant.Runbooks.Markdown.{Alphabet}
use triage_assistant.Runbooks.Sections.{Section, split_sections, max_section_words}
use triage_assistant.Runbooks.Embed.{
  embed_batch, or_native, shown, embedding_key, document_text, add_vectors, then_embed,
  embed_batches, embed_texts, Outcome, Embedder, done, llm_error, value_error,
}

pub record Saved : Type 0 where
  pub runbook_id : ℕ
  pub sections : ℕ
  pub changed : Bool

unfoldable pub is_runbook : ℕ → String → Runbook → Bool
is_runbook team_id title r = (r.team_id == team_id) && str_eq r.title title

unfoldable pub same_url : Option String → Option String → Bool
same_url none none = true
same_url (some a) (some b) = str_eq a b
same_url none (some b) = false
same_url (some a) none = false

-- What an upload gives a row.
pub record Upload : Type 0 where
  pub team_id : ℕ
  pub title : String
  pub body : String
  pub digest : String
  pub key : String
  pub source_url : Option String

unfoldable pub unchanged : Upload → Runbook → Bool
unfolding same_url
unchanged u r =
    str_eq r.body_sha256 u.digest
    && str_eq r.embedding_key u.key
    && same_url r.source_url u.source_url

unfoldable pub update_row : ℕ → Upload → Runbook → Runbook
unfolding is_runbook
update_row now u r =
    if is_runbook u.team_id u.title r
    then record r {
      body = u.body;
      body_sha256 = u.digest;
      embedding_key = u.key;
      source_url = u.source_url;
      updated_at = now;
    }
    else r

unfoldable pub new_row : ℕ → Upload → ℕ → Runbook
new_row now u id = record {
  id = id;
  team_id = u.team_id;
  title = u.title;
  source_url = u.source_url;
  body = u.body;
  body_sha256 = u.digest;
  embedding_key = u.key;
  updated_at = now;
}

-- `insert … on conflict do update`, by whether there is such a row.
unfoldable pub upsert : ℕ → Upload → Option Runbook → Db → ℕ × Db
unfolding update_row new_row
upsert now u none db = (
  db.next_id,
  record db { runbooks = db.runbooks ++ new_row now u db.next_id ∷ []; next_id = suc db.next_id },
)
upsert now u (some r) db = (r.id, record db { runbooks = map (update_row now u) db.runbooks })

unfoldable pub new_chunk : ℕ → Upload → ℕ → ℕ → Section → String → RunbookChunk
new_chunk runbook_id u id n s v = record {
  id = id;
  runbook_id = runbook_id;
  team_id = u.team_id;
  ordinal = n;
  heading = s.heading;
  content = s.content;
  embedding = v;
  embedding_key = u.key;
}

-- One row for each section, or None where there are not as many vectors.
unfoldable pub chunks_of :
    ℕ → Upload → ℕ → ℕ → List Section → List String → Option (List RunbookChunk)
unfolding new_chunk
chunks_of runbook_id u id n [] [] = some []
chunks_of runbook_id u id n [] (v ∷ vectors) = none
chunks_of runbook_id u id n (s ∷ sections) [] = none
chunks_of runbook_id u id n (s ∷ sections) (v ∷ vectors) =
    elim (chunks_of runbook_id u (suc id) (suc n) sections vectors) [
      | none ↦ none
      | some rows ↦ some (new_chunk runbook_id u id n s v ∷ rows)
    ]

unfoldable pub previous_sha256 : Option Runbook → Detail
previous_sha256 none = nothing
previous_sha256 (some r) = text r.body_sha256

-- The transaction that writes; a list of vectors that does not fit commits nothing.
unfoldable pub replace_chunks :
    ℕ → List Section → Option (List RunbookChunk) → Db → Db → Outcome Saved × Db
replace_chunks runbook_id sections none before db = (value_error, before)
replace_chunks runbook_id sections (some rows) before db = (
  done (record { runbook_id = runbook_id; sections = length sections; changed = true }),
  record db {
    runbook_chunks = keep (λ c. not (c.runbook_id == runbook_id)) db.runbook_chunks ++ rows;
    next_id = db.next_id + length rows;
  },
)

unfoldable pub record_saved : Context → Actor → Upload → List Section → Option Runbook → ℕ → Db → Db
unfolding previous_sha256
record_saved context actor u sections existing runbook_id db =
    record_event context actor "runbook.saved" (some u.team_id) (some runbook_id)
      (("title", text u.title)
        ∷ ("body_sha256", text u.digest)
        ∷ ("previous_sha256", previous_sha256 existing)
        ∷ ("sections", number (length sections))
        ∷ [])
      db

unfoldable pub write_runbook :
    Context → Actor → Upload → List Section → Option Runbook → List String → Db → Outcome Saved × Db
unfolding upsert is_runbook chunks_of record_saved replace_chunks
write_runbook context actor u sections existing vectors db =
    let (runbook_id, stored) =
      upsert context.now u (find (is_runbook u.team_id u.title) db.runbooks) db in
    let recorded = record_saved context actor u sections existing runbook_id stored in
    replace_chunks runbook_id sections (chunks_of runbook_id u recorded.next_id 0 sections vectors)
      db recorded

unfoldable pub after_vectors :
    {W : Type 0}
    → Context
    → Actor
    → Upload
    → List Section
    → Option Runbook
    → Db
    → Outcome (List String) × W
    → Outcome Saved × Db × W
unfolding write_runbook
after_vectors context actor u sections existing db (done vectors, w) =
    let (saved, db') = write_runbook context actor u sections existing vectors db in (saved, db', w)
after_vectors context actor u sections existing db (llm_error code e, w) = (llm_error code e, db, w)
after_vectors context actor u sections existing db (value_error, w) = (value_error, db, w)

-- What the libraries give.
pub record Library : Type 0 where
  pub alphabet : Alphabet
  pub sha256 : String → String
  pub redact : String → String

unfoldable pub upload_of : Library → Settings → Team → String → String → Option String → Upload
unfolding embedding_key
upload_of library settings team title body source_url = record {
  team_id = team.id;
  title = title;
  body = body;
  digest = library.sha256 body;
  key = embedding_key library.sha256 settings;
  source_url = source_url;
}

module _ {W : Type 0} (embedder : Embedder W) (library : Library) (settings : Settings)
    (context : Context) (actor : Actor) (others : Db → Db) where
  -- The vectors are asked for while `others` may commit, and the write finds what they left.
  unfoldable pub embed_and_write :
      Upload → List Section → Option Runbook → Db → W → Outcome Saved × Db × W
  unfolding after_vectors embed_texts document_text
  embed_and_write u sections existing db w =
      after_vectors context actor u sections existing (others db) (
        embed_texts embedder library.redact
          (map (λ s. settings.embedding_document_prefix +++ document_text s) sections) w)

  -- By whether the row that was read has the upload already.
  unfoldable pub save_over :
      Upload → List Section → Runbook → Bool → Db → W → Outcome Saved × Db × W
  unfolding embed_and_write
  save_over u sections r true db w =
      (done (record { runbook_id = r.id; sections = length sections; changed = false }), db, w)
  save_over u sections r false db w = embed_and_write u sections (some r) db w

  unfoldable pub save_read :
      Upload → List Section → Option Runbook → Db → W → Outcome Saved × Db × W
  unfolding unchanged save_over embed_and_write
  save_read u sections none db w = embed_and_write u sections none db w
  save_read u sections (some r) db w = save_over u sections r (unchanged u r) db w

  unfoldable pub save_with :
      Option String → Team → String → String → Option String → Db → W → Outcome Saved × Db × W
  unfolding save_read is_runbook upload_of
  save_with none team title body source_url db w =
      (llm_error "llm_error" "runbook search is off: EMBEDDING_MODEL is not set", db, w)
  save_with (some model) team title body source_url db w =
      save_read (upload_of library settings team title body source_url)
        (split_sections library.alphabet title body max_section_words)
        (find (is_runbook team.id title) db.runbooks) db w

  unfoldable pub save_runbook :
      Team → String → String → Option String → Db → W → Outcome Saved × Db × W
  unfolding save_with
  save_runbook team title body source_url db w =
      save_with embedder.embedding_model team title body source_url db w
