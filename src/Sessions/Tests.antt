-- ===== src/Sessions/Tests.antt =====
-- The theorems on apps/api/app/sessions.py at small inputs.
use triage_assistant.Prelude.{
  eq_iff, ◌⊎◌, inl, inr, String, ℕ, ◌≡◌, refl, some, none, [], ◌∷◌, arith, false, ◌↔◌,
}
use triage_assistant.Http.{ok}
use triage_assistant.Queries.Order.{order_by}
use triage_assistant.Access.Claims.{access_from_claims, add_group, removeprefix, max_role}
use triage_assistant.Access.Group.{
  match_group, starts_slug, slug_part, slug_char, role_tail, after_slug,
}
use triage_assistant.Prelude.{lookup, assign}
use triage_assistant.Models.{Db}
use triage_assistant.Samples.{settings, db, same_text, any_order, urlsplit, session}
use triage_assistant.Access.Group.{responder}
use triage_assistant.Access.Roles.{Principal}
use triage_assistant.Sessions.Login.{start_login, finish_login, new_request}
use triage_assistant.Sessions.Login.Once.{finish_login-start_login}
use triage_assistant.Sessions.Active.{
  authenticate, authenticated, opens, live, with_user, paired, stale, principal_of, accesses,
  sign_out, sign_out_everywhere, touch_interval_s,
}
use triage_assistant.Sessions.Active.Alive.{authenticate-authenticate}
use triage_assistant.Sessions.Active.Ended.{Another, authenticate_ended}
use triage_assistant.Sessions.SignIn.{
  Identity, sign_in, upsert_user, upserted, updated, insert_teams, granted_ids, open_session,
}
use triage_assistant.Sessions.SignIn.Replaced.{Replaced, role_at-sign_in}
use triage_assistant.Sessions.Cookies.{session_cookie, cookie_name}
use triage_assistant.Sessions.Origin.{
  Parts, check_same_origin, origin, origin_of_parts, written, has_colon, is_origin, port_text,
  OriginOf, NoOrigin, check_same_origin-origin,
}
use triage_assistant.Sessions.Request.{
  Request, guarded, non_empty, is_safe, signed_in, current_principal, LetIn,
  current_principal_sound,
}

abbrev started : Db
started = record db { login_requests = new_request same_text 5 "s" "n" "v" "/" ∷ [] }

finish_login-start_login_example :
    ((finish_login same_text 6 "s" started).0 ≡ some (new_request same_text 5 "s" "n" "v" "/"))
    × ((finish_login same_text 7 "s" (finish_login same_text 6 "s" started).1).0 ≡ none)
unfolding start_login
finish_login-start_login_example =
    finish_login-start_login same_text 5 6 7 "s" "n" "v" "/" db started refl (omega arith)
      (omega arith)

abbrev known : Principal
known = record {
  user_id = 7;
  email = some "alice@example.com";
  name = none;
  org_admin = false;
  teams = record { id = 2; slug = "payments"; name = "payments"; role = responder } ∷ [];
}

-- Five minutes and a second after it was last seen, and fifty minutes after that.
abbrev now : ℕ
now = 301001000

abbrev later : ℕ
later = 3301000000

authenticate-authenticate_example :
    (authenticate any_order same_text settings later "t"
      (authenticate any_order same_text settings now "t" db).1).0
    ≡ some known
unfolding opens live authenticate authenticated with_user paired principal_of accesses order_by
authenticate-authenticate_example =
    authenticate-authenticate any_order same_text settings now later "t" db session known (tt, tt)
      refl refl (omega arith) (omega arith) (omega arith)

authenticate_ended_example :
    ((authenticate any_order same_text settings now "t" (sign_out same_text "t" db).1).0 ≡ none)
    × ((authenticate any_order same_text settings now "u" (sign_out same_text "t" db).1).0
        ≡ (authenticate any_order same_text settings now "u" db).0)
    × Another 8 (authenticate any_order same_text settings now "t" (sign_out_everywhere 8 db).1).0
authenticate_ended_example = authenticate_ended any_order same_text settings now 8 "t" "u" db refl

abbrev identity : Identity
identity = record {
  subject = "a";
  email = some "alice@example.com";
  name = none;
  groups = "team:default:viewer" ∷ [];
  id_token = none;
}

role_at-sign_in_example :
    Replaced "https://idp.example.com" identity 7 db
      (sign_in same_text settings 100 "u" "https://idp.example.com" identity db).1
unfolding sign_in upsert_user upserted updated insert_teams granted_ids open_session
    access_from_claims add_group match_group removeprefix starts_slug slug_part slug_char role_tail
    after_slug max_role lookup assign
role_at-sign_in_example =
    role_at-sign_in same_text settings 100 "u" "https://idp.example.com" identity db (
      omega arith,
      (((λ e. omega (arith, e)), (λ e. ground (arith, (eq_iff "payments" "default").1 e))), tt),
      (omega arith, tt, tt),
    )

abbrev public_parts : Parts
public_parts = record {
  scheme = "https";
  hostname = some "triage.example.com";
  username = none;
  port = none;
  path = "";
  query = "";
  fragment = "";
}

public_origin : OriginOf urlsplit settings.public_url "https://triage.example.com"
unfolding has_colon
public_origin = (
  public_parts,
  refl,
  ("", (inr refl, refl, inl refl, refl, refl), refl, inl (inl refl, refl), refl),
)

check_same_origin-origin_example :
    (check_same_origin urlsplit settings (some "https://triage.example.com") ≡ ok tt) ↔ (
      ((o : String) × OriginOf urlsplit "https://triage.example.com" o
        × OriginOf urlsplit settings.public_url o)
      ⊎ (NoOrigin urlsplit "https://triage.example.com" × NoOrigin urlsplit settings.public_url))
check_same_origin-origin_example =
    check_same_origin-origin urlsplit settings "https://triage.example.com"

abbrev request : Request
request = record {
  method = "POST";
  cookies = ("__Host-triage_session", "t") ∷ [];
  origin = some "https://triage.example.com";
}

current_principal_sound_example :
    LetIn urlsplit any_order same_text settings 2000 request db known db
unfolding current_principal guarded non_empty is_safe signed_in session_cookie cookie_name lookup
    opens live stale touch_interval_s authenticate authenticated with_user paired principal_of
    accesses order_by check_same_origin origin origin_of_parts written has_colon is_origin port_text
current_principal_sound_example =
    current_principal_sound urlsplit any_order same_text settings "https://triage.example.com" 2000
      request db known db public_origin refl
