-- ===== src/Queries/Tests.antt =====
-- The theorem on apps/api/app/queries.py at a small input.
use triage_assistant.Prelude.{◌&&◌, ◌≡◌, refl, some, [], ◌∷◌}
use triage_assistant.Samples.{db}
use triage_assistant.Access.Roles.Visibility.{covers}
use triage_assistant.Queries.{newest_rows, newest_where, severity_is}
use triage_assistant.Queries.Merge.{newest_rows-newest_where}

newest_rows-newest_where_example :
    newest_rows (some (1 ∷ 2 ∷ [])) (severity_is (some "high")) 2 db.alerts
    ≡ newest_where
        (λ a. covers (some (1 ∷ 2 ∷ [])) a.team_id && severity_is (some "high") a)
        2
        db.alerts
newest_rows-newest_where_example =
    newest_rows-newest_where (some (1 ∷ 2 ∷ [])) (severity_is (some "high")) 2 db.alerts
      ((refl, (refl, tt)), ((refl, tt), (tt, tt))) (refl, (refl, tt))
