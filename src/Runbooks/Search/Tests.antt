-- ===== src/Runbooks/Search/Tests.antt =====
-- The theorems on the search of runbooks in a database of two sections, one of each of two teams.
use triage_assistant.Prelude.{ℕ, ◌≡◌, refl, Option, none, some, List, [], ◌∷◌, map}
use triage_assistant.Queries.Order.{order_by}
use triage_assistant.Samples.{settings}
use triage_assistant.Runbooks.Search.{
  Ranked, keyword, hybrid, semantic, keyword_only, search_runbooks, keyword_ids, result,
}
use triage_assistant.Runbooks.Search.Samples.{
  two_sections, every_word, every_word-GivesRows, two_sections-Keyed, answering, refusing,
}
use triage_assistant.Runbooks.Search.Within.{Within, search_runbooks-Within}
use triage_assistant.Runbooks.Search.Fallback.{refused, search_runbooks-Fails}

abbrev found : List Ranked
unfolding keyword_ids result
found =
    result (keyword_ids every_word "disk" (some (2 ∷ [])) two_sections) ((2, 0) ∷ []) 5 two_sections

found_ids :
    map {B = ℕ × Option ℕ × Option ℕ × Option ℕ}
      (λ (r : Ranked). (r.hit.chunk_id, r.keyword_rank, r.semantic_rank, r.distance))
      found
    ≡ (2, some 1, some 1, some 0) ∷ []
unfolding result order_by keyword_ids
found_ids = refl

search_runbooks-Within_example : Within (some (2 ∷ [])) 5 two_sections found
unfolding search_runbooks result order_by
search_runbooks-Within_example =
    search_runbooks-Within every_word (record settings { embedding_model = some "mock" }) (λ s. s)
      "disk" (some (2 ∷ [])) 5 two_sections every_word-GivesRows two_sections-Keyed answering
      (λ s. s) hybrid 0 (record { hits = found; mode = hybrid; embedding_error = none }) refl

search_runbooks-Fails_example :
    (hits : List Ranked) × (search_runbooks every_word settings
        (λ s. s)
        "disk"
        (some (2 ∷ []))
        5
        two_sections
        refusing
        (λ s. s)
        keyword
        0
      ≡ (some (record { hits = hits; mode = keyword; embedding_error = none }), 0))
    × (search_runbooks every_word settings
          (λ s. s)
          "disk"
          (some (2 ∷ []))
          5
          two_sections
          refusing
          (λ s. s)
          hybrid
          0
        ≡ (
          some (record {
            hits = hits;
            mode = keyword_only;
            embedding_error = some "llm_rate_limited";
          }),
          1,
        ))
    × (search_runbooks every_word settings
          (λ s. s)
          "disk"
          (some (2 ∷ []))
          5
          two_sections
          refusing
          (λ s. s)
          semantic
          0
        ≡ (
          some (record { hits = []; mode = semantic; embedding_error = some "llm_rate_limited" }),
          1,
        ))
search_runbooks-Fails_example =
    search_runbooks-Fails every_word settings (λ s. s) "disk" (some (2 ∷ [])) 5 two_sections
      refusing (λ s. s) 0 1 "llm_rate_limited"
      (refused "mock" "llm_rate_limited" "The model is busy." 1 refl refl)
