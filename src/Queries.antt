-- ===== src/Queries.antt =====
-- apps/api/app/queries.py: the reads that the alert list and the chat's context share. A SELECT is
-- its rows in order: WHERE keeps rows, ORDER BY sorts them, LIMIT takes the first ones.
pub mod Order
pub mod Sorted
pub mod Merge
pub mod Cursor
mod Tests
use mathlib.Core.List.{flatten}
use triage_assistant.Prelude.{
  ℕ, String, ◌≡◌, Bool, true, false, ◌&&◌, ◌||◌, Option, none, some, List, [], ◌∷◌, ◌++◌, map, ltb,
  ◌==◌, str_eq, if◌then◌else◌, any, keep, take,
}
use triage_assistant.Models.{Alert, AlertOut}
use Order.{order_by}

-- `created_at DESC, id DESC`
unfoldable pub newer : Alert → Alert → Bool
newer a b = ltb b.created_at a.created_at || a.created_at == b.created_at && ltb b.id a.id

-- `(created_at, id) < before`
unfoldable pub older_than : ℕ × ℕ → Alert → Bool
older_than (created_at, id) a =
    ltb a.created_at created_at || a.created_at == created_at && ltb a.id id

unfoldable pub severity_is : Option String → Alert → Bool
severity_is none a = true
severity_is (some severity) a = str_eq a.severity severity

unfoldable pub is_before : Option (ℕ × ℕ) → Alert → Bool
unfolding older_than
is_before none a = true
is_before (some cursor) a = older_than cursor a

-- The conditions in `filters`.
unfoldable pub passes : Option String → Option (ℕ × ℕ) → Alert → Bool
passes severity before a = severity_is severity a && is_before before a

unfoldable pub to_out : (ℕ → String) → Alert → AlertOut
to_out slug_of a = record {
  id = a.id;
  team = slug_of a.team_id;
  source = a.source;
  severity = a.severity;
  message = a.message;
  created_at = a.created_at;
}

-- The rows of one team, or of every team, that pass the filters: newest first, `limit` of them.
unfoldable pub newest_where : (Alert → Bool) → ℕ → List Alert → List Alert
newest_where p limit alerts = take limit (order_by newer (keep p alerts))

-- `per_team` for each team in turn.
unfoldable pub per_team : (Alert → Bool) → ℕ → List Alert → List ℕ → List Alert
per_team p limit alerts [] = []
per_team p limit alerts (t ∷ ts) =
    newest_where (λ a. a.team_id == t && p a) limit alerts ++ per_team p limit alerts ts

unfoldable pub newest_rows : Option (List ℕ) → (Alert → Bool) → ℕ → List Alert → List Alert
newest_rows none p limit alerts = newest_where p limit alerts
newest_rows (some []) p limit alerts = []
newest_rows (some (t ∷ [])) p limit alerts = newest_where (λ a. p a && a.team_id == t) limit alerts
newest_rows (some (t ∷ u ∷ ts)) p limit alerts =
    take limit (order_by newer (per_team p limit alerts (t ∷ u ∷ ts)))

-- Every alert has its team, by a foreign key, so that the joins only add the slug.
unfoldable pub newest_alerts :
    (ℕ → String) → List Alert → Option (List ℕ) → ℕ → Option String → Option (ℕ × ℕ) → List AlertOut
newest_alerts slug_of alerts team_ids limit severity before =
    map (to_out slug_of) (newest_rows team_ids (passes severity before) limit alerts)
