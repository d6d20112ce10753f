-- ===== src/Privacy/Tests.antt =====
-- The theorems on apps/api/app/privacy.py at small inputs.
use triage_assistant.Prelude.{[], some, ◌≡◌, refl, true, false, All}
use triage_assistant.Samples.{settings, context, db, any_order}
use triage_assistant.Privacy.Export.{Account, export}
use triage_assistant.Privacy.Exported.{export-forget}
use triage_assistant.Privacy.{retention, forget, has_email}
use triage_assistant.Privacy.Applied.{Retains, nothing_left, retention-retention}
use triage_assistant.Privacy.Erased.{Referential, Prefix, forget-Erased}

retention-retention_example :
    Retains settings 50000000000 db (retention settings (context 50000000000) true db).1
    × (retention settings (context 50000000000) false db
        ≡ ((retention settings (context 50000000000) true db).0, db))
    × ((retention settings
          (context 50000000000)
          false
          (retention settings (context 50000000000) true db).1).0
        ≡ nothing_left)
retention-retention_example = retention-retention settings (context 50000000000) false db

forget-Erased_example :
    All
      (λ u. has_email "alice@example.com" u ≡ false)
      (forget (context 9) "alice@example.com" true db).1.users
    × Referential (forget (context 9) "alice@example.com" true db).1
    × Prefix db.audit_events (forget (context 9) "alice@example.com" true db).1.audit_events
    × (forget (context 9) "alice@example.com" false db
        ≡ ((forget (context 9) "alice@example.com" true db).0, db))
forget-Erased_example = forget-Erased (context 9) "alice@example.com" db ((refl, tt), (refl, tt))

export-forget_example :
    All
      (λ (a : Account). a.email ≡ some "alice@example.com")
      (export any_order (context 9) "alice@example.com" db).0.accounts
    × (export any_order
          (context 10)
          "alice@example.com"
          (forget (context 9) "alice@example.com" true db).1
        ≡ (
          record { email = "alice@example.com"; exported_at = 10; accounts = [] },
          (forget (context 9) "alice@example.com" true db).1,
        ))
export-forget_example = export-forget any_order "alice@example.com" (context 9) (context 10) db
