-- ===== src/Runbooks/Search/Samples.antt =====
-- For tests of searches: a database of two sections, one of each of two teams, and what stands for
-- Postgres and the provider.
use mathlib.Core.List.{Memᴰ}
use mathlib.Core.List.Memᴰ
use triage_assistant.Prelude.{
  ℕ, suc, sym, ◌∙◌, ap, none, some, [], ◌∷◌, take, All-Mem, All-take, arith,
}
use triage_assistant.Models.{Db, RunbookChunk}
use triage_assistant.Samples.{db, settings, same_text}
use triage_assistant.Runbooks.Embed.{Embedder, done, llm_error}
use triage_assistant.Runbooks.Search.{Postgres}
use triage_assistant.Runbooks.Asked.{Searcher}
use triage_assistant.Runbooks.Search.Within.{GivesRows, Keyed}

abbrev a_section : ℕ → ℕ → RunbookChunk
a_section id team_id = record {
  id = id;
  runbook_id = 9;
  team_id = team_id;
  ordinal = 0;
  heading = "Disk full";
  content = "Find the large files.";
  embedding = "v";
  embedding_key = "mock|native|";
}

abbrev pub two_sections : Db
two_sections = record db {
  runbooks =
      record {
        id = 9;
        team_id = 2;
        title = "Disk full";
        source_url = none;
        body = "Find the large files.";
        body_sha256 = "h";
        embedding_key = "mock|native|";
        updated_at = 5;
      }
      ∷ [];
  runbook_chunks = a_section 1 1 ∷ a_section 2 2 ∷ [];
}

abbrev pub every_word : Postgres
every_word = record {
  text_rank = λ query c. some 1;
  distance = λ embedding c. c.ordinal;
  nearest = λ n rows. take n rows;
}

pub every_word-GivesRows : GivesRows every_word
every_word-GivesRows n rows = All-take (λ row. Memᴰ row rows) n rows (All-Mem rows)

pub two_sections-Keyed : Keyed two_sections
two_sections-Keyed c c' (Memᴰ.head e) (Memᴰ.head e') h = e ∙ sym e'
two_sections-Keyed c c' (Memᴰ.head e) (Memᴰ.tail (Memᴰ.head e')) h =
    absurd (omega (arith, ap (λ (c : RunbookChunk). c.id) e, ap (λ (c : RunbookChunk). c.id) e', h))
two_sections-Keyed c c' (Memᴰ.tail (Memᴰ.head e)) (Memᴰ.head e') h =
    absurd (omega (arith, ap (λ (c : RunbookChunk). c.id) e, ap (λ (c : RunbookChunk). c.id) e', h))
two_sections-Keyed c c' (Memᴰ.tail (Memᴰ.head e)) (Memᴰ.tail (Memᴰ.head e')) h = e ∙ sym e'
two_sections-Keyed c c' (Memᴰ.head e) (Memᴰ.tail (Memᴰ.tail m)) h = absurd (Memᴰ.not-nil m)
two_sections-Keyed c c' (Memᴰ.tail (Memᴰ.head e)) (Memᴰ.tail (Memᴰ.tail m)) h =
    absurd (Memᴰ.not-nil m)
two_sections-Keyed c c' (Memᴰ.tail (Memᴰ.tail m)) n h = absurd (Memᴰ.not-nil m)

-- A provider that answers every call, and one that refuses every call.
abbrev pub answering : Embedder ℕ
answering = record {
  embedding_model = some "mock";
  embed = λ texts calls. (done ("v" ∷ []), suc calls);
}

abbrev pub refusing : Embedder ℕ
refusing = record {
  embedding_model = some "mock";
  embed = λ texts calls. (llm_error "llm_rate_limited" "The model is busy.", suc calls);
}

abbrev pub searcher : Searcher ℕ
searcher = record {
  postgres = every_word;
  embedder = answering;
  settings = record settings { embedding_model = some "mock" };
  sha256 = same_text;
  clean = λ t. (t, 0);
}
