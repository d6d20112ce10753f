-- ===== src/Runbooks/Tests.antt =====
-- The theorems on apps/api/app/runbooks.py at small documents, with the white space of ASCII.
use triage_assistant.Prelude.{
  arith, List, suc, map, some, false, ℕ, none, true, refl, String, ◌≡◌, ◌||◌, ◌&&◌, leb, [], ◌∷◌,
  All,
}
use triage_assistant.Prelude.Numbers.{decimal}
use triage_assistant.Runbooks.Markdown.{split_lines, Alphabet}
use triage_assistant.Runbooks.Sections.{split_sections}
use triage_assistant.Samples.{settings, context, db}
use triage_assistant.Models.{Db, Team}
use triage_assistant.Audit.{cli, record_event}
use triage_assistant.Runbooks.Embed.{Outcome, Embedder, done}
use triage_assistant.Runbooks.Save.{Saved, Library, save_runbook}
use triage_assistant.Llm.Embeddings.{Reply, reply, client}
use triage_assistant.Runbooks.Sections.{max_section_words}
use triage_assistant.Runbooks.Save.Whole.{Ended, save_runbook-Ended}
use triage_assistant.Runbooks.Save.{upload_of}
use triage_assistant.Runbooks.Save.Shelf.{shelf_of}
use triage_assistant.Runbooks.Save.Refines.{PutOver, save_runbook-Refines}
use triage_assistant.Runbooks.Save.Again.{save_runbook-save_runbook}
use triage_assistant.Runbooks.Sections.Short.{FewIn}
use triage_assistant.Runbooks.Sections.Split.{body_lines, split_sections_whole}
use triage_assistant.Runbooks.Sections.Kept.{section_words}
use triage_assistant.Runbooks.Sections.Words.{all_words}

abbrev ascii : Alphabet
ascii = record {
  is_space = λ c. (leb 9 c && leb c 13) || (leb 28 c && leb c 32);
  is_break = λ c. (leb 10 c && leb c 13) || (leb 28 c && leb c 30);
  casefold = λ s. s;
}

abbrev document : String
document =
    "# Disk full\nFind the large files.\n\n## Free space\nrun this:\n```\n# restart it\n```\n"

sections_of_document :
    split_sections ascii "Disk full" document 300
    ≡ record { heading = "Disk full"; content = "Find the large files." }
      ∷ record { heading = "Disk full > Free space"; content = "run this:\n```\n# restart it\n```" }
      ∷ []
unfolding split_sections
sections_of_document = refl

sections_of_three_words :
    split_sections ascii "T" "a b c d\n\ne\nf\n \ng" 3
    ≡ record { heading = "T (1/3)"; content = "a b c" }
      ∷ record { heading = "T (2/3)"; content = "d\n\ne\nf" }
      ∷ record { heading = "T (3/3)"; content = "g" }
      ∷ []
unfolding split_sections decimal
sections_of_three_words = refl

split_sections_whole_example :
    All (FewIn ascii 3) (split_sections ascii "T" "a b c d\n\ne\nf\n \ng" 3)
    × (section_words ascii (split_sections ascii "T" "a b c d\n\ne\nf\n \ng" 3)
        ≡ all_words ascii (body_lines ascii false (split_lines ascii "a b c d\n\ne\nf\n \ng")))
split_sections_whole_example =
    split_sections_whole ascii refl refl "T" 3 "a b c d\n\ne\nf\n \ng" (omega arith)

-- Calls of the provider, counted.
abbrev counted : Embedder ℕ
counted = record {
  embedding_model = some "mock";
  embed = λ texts calls. (done (map (λ t. "v") texts), suc calls);
}

abbrev library : Library
library = record { alphabet = ascii; sha256 = λ s. s; redact = λ s. s }

abbrev ops : Team
ops = record { id = 4; slug = "ops"; name = "Ops" }

abbrev upload_at : ℕ → Db → ℕ → Outcome Saved × Db × ℕ
upload_at now d calls =
    save_runbook counted library settings (context now) cli (λ d. d) ops "Disk full" document none d
      calls

save_runbook-save_runbook_example :
    upload_at 200 (upload_at 100 db 0).1 1
    ≡ (done (record { runbook_id = 20; sections = 2; changed = false }), (upload_at 100 db 0).1, 1)
unfolding save_runbook split_sections
save_runbook-save_runbook_example =
    save_runbook-save_runbook counted library settings (context 100) (context 200) cli cli (λ d. d)
      (λ d. d) ops "Disk full" document none db (upload_at 100 db 0).1 0 1
      (record { runbook_id = 20; sections = 2; changed = true }) refl

-- A provider that numbers its vectors from the last to the first.
abbrev provider : List String → ℕ → Reply × ℕ
provider texts calls = (reply ((1, "w") ∷ (0, "v") ∷ []), suc calls)

save_runbook-Ended_example :
    Ended
      (λ v. 768)
      (split_sections ascii "Disk full" document max_section_words)
      db
      (λ d. d)
      (save_runbook
        (client (λ v. 768) (some "mock") provider)
        library
        settings
        (context 100)
        cli
        (λ d. d)
        ops
        "Disk full"
        document
        none
        db
        0)
save_runbook-Ended_example =
    save_runbook-Ended (λ v. 768) provider library settings (context 100) cli (λ d. d) (some "mock")
      ops "Disk full" document none db 0

save_runbook-Refines_example :
    PutOver
      (λ s. s)
      (upload_of library settings ops "Disk full" document none)
      db
      (λ d. d)
      (upload_at 100 db 0)
save_runbook-Refines_example =
    save_runbook-Refines counted library settings (context 100) cli (λ d. d) ops "Disk full"
      document none db 0 (λ a b e. e) tt

text_on_the_shelf : shelf_of (upload_at 100 db 0).1 4 "Disk full" ≡ some document
unfolding save_runbook split_sections record_event
text_on_the_shelf = refl
