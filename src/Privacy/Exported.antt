-- ===== src/Privacy/Exported.antt =====
-- `export` and `forget` of apps/api/app/privacy.py together: a person's own accounts, and none after
-- an erasure.
use triage_assistant.Prelude.{
  ◌≡◌, refl, ap, ◌∙◌, Bool, true, false, String, Option, none, some, List, [], ◌∷◌, keep, All,
  All-keep, ltb, str_eq, eq_iff, arith,
}
use triage_assistant.Models.{Db, User}
use triage_assistant.Audit.{Context, cli, record_event}
use triage_assistant.Queries.Order.{order_by}
use triage_assistant.Queries.Sorted.{All-order_by}
use triage_assistant.Privacy.{has_email, forget}
use triage_assistant.Privacy.Erased.{forget-Gone}
use triage_assistant.Privacy.Export.{Account, account, export_accounts, export}

keep-none {ℓ} :
    {A : Type ℓ} (p : A → Bool) (xs : List A) → All (λ x. p x ≡ false) xs → keep p xs ≡ []
keep-none p [] h = refl
keep-none p (x ∷ xs) h = rw h.0 (keep-none p xs h.1)

email_is : (email : String) (u : User) → has_email email u ≡ true → u.email ≡ some email
unfolding has_email
email_is email u h = of_email u.email refl h
  where
    of_email :
        (o : Option String)
        → u.email ≡ o
        → elim o [ none ↦ false | some e ↦ str_eq e email ] ≡ true
        → u.email ≡ some email
    of_email none e h = ground arith
    of_email (some t) e h = e ∙ ap some ((eq_iff t email).0 h)

module _ (before : String → String → Bool) (email : String) where
  export_accounts-Own :
      (context : Context) (users : List User) (db : Db)
      → All (λ u. has_email email u ≡ true) users
      → All (λ (a : Account). a.email ≡ some email) (export_accounts before context users db).0
  unfolding export_accounts account
  export_accounts-Own context [] db h = tt
  export_accounts-Own context (u ∷ users) db h = (
    email_is email u h.0,
    export_accounts-Own context users
        (record_event context cli "user.exported" none (some u.id) [] db) h.1,
  )

  -- An export holds accounts with the email asked for only. After an erasure of that email, at
  -- whatever time, it holds none, and records nothing.
  pub export-forget :
      (context later : Context) (db : Db)
      → All (λ (a : Account). a.email ≡ some email) (export before context email db).0.accounts
        × (export before later email (forget context email true db).1 ≡ (
          record { email = email; exported_at = later.now; accounts = [] },
          (forget context email true db).1,
        ))
  unfolding export export_accounts order_by
  export-forget context later db = (
    export_accounts-Own context _ db (
        All-order_by (λ a b. ltb a.id b.id) (λ u. has_email email u ≡ true) _
          (All-keep (has_email email) db.users)),
    rw
        (keep-none (has_email email) (forget context email true db).1.users
          (forget-Gone context email db))
        refl,
  )
