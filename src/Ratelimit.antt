-- ===== src/Ratelimit.antt =====
-- apps/api/app/ratelimit.py: a counter in Redis for each client and window of time.
mod Tests
pub mod Window
pub mod Bound
use triage_assistant.Prelude.{
  ℕ, suc, ◌+◌, ◌-◌, ◌/◌, ◌%◌, String, Bool, true, false, ◌&&◌, Option, none, some, List, [], ◌∷◌,
  ◌++◌, leb, if◌then◌else◌, ◌+++◌, ◌≡◌, ◌≤◌, ◌≢◌, arith,
}
use triage_assistant.Prelude.Numbers.{decimal}
use triage_assistant.Http.{Failure, Result, ok, err}

pub record Decision : Type 0 where
  pub allowed : Bool
  pub limit : ℕ
  pub remaining : ℕ
  pub reset_s : ℕ
  pub degraded : Bool

unfoldable pub headers : Decision → List (String × String)
headers d =
    ("RateLimit-Limit", decimal d.limit)
    ∷ ("RateLimit-Remaining", decimal d.remaining)
    ∷ ("RateLimit-Reset", decimal d.reset_s)
    ∷ (if d.allowed then [] else ("Retry-After", decimal d.reset_s) ∷ [])

-- The server, as far as the limiter uses it: `hit key` is INCR with EXPIRE in one transaction, and
-- answers the new count, or None where the client raises an error or runs out of time; then the
-- server may have counted or not. `count` is the number kept under a key, 0 where there is none.
-- `loses key other` says whether the server drops the counter of another key, or of the same, by the
-- time that it has handled a hit: as it expired, or was evicted to make room.
pub record Redis : Type 1 where
  pub State : Type 0
  pub count : String → State → ℕ
  pub hit : String → State → Option ℕ × State
  pub loses : String → String → State → Bool
  pub hit_counts :
      (key : String) (s : State) (n : ℕ)
      → (hit key s).0 ≡ some n
      → (n ≡ suc (if loses key key s then 0 else count key s)) × (count key (hit key s).1 ≡ n)
  pub hit_keeps :
      (key other : String) (s : State)
      → loses key other s ≡ false
      → count other s ≤ count other (hit key s).1

-- The time is in whole seconds: both numbers that the code takes from it are rounded down to those.
unfoldable pub window_of : ℕ → ℕ → ℕ
window_of window_s now = now / window_s

unfoldable pub reset_of : ℕ → ℕ → ℕ
reset_of window_s now = window_s - now % window_s

unfoldable pub key_of : String → String → ℕ → String
key_of scope client window = "rl:" +++ scope +++ ":" +++ client +++ ":" +++ decimal window

unfoldable pub decided : ℕ → ℕ → Bool → Option ℕ → Decision
decided limit reset_s fail_closed none = record {
  allowed = if fail_closed then false else true;
  limit = limit;
  remaining = if fail_closed then 0 else limit;
  reset_s = reset_s;
  degraded = true;
}
decided limit reset_s fail_closed (some count) = record {
  allowed = leb count limit;
  limit = limit;
  remaining = limit - count;
  reset_s = reset_s;
  degraded = false;
}

-- What a request is counted for, and the limit it is held to.
pub record Hit : Type 0 where
  pub scope : String
  pub client : String
  pub limit : ℕ
  pub window_s : ℕ
  pub fail_closed : Bool
  pub now : ℕ

unfoldable pub key : Hit → String
unfolding key_of window_of
key h = key_of h.scope h.client (window_of h.window_s h.now)

module _ (redis : Redis) where
  unfoldable pub hit : Hit → redis.State → Decision × redis.State
  unfolding decided reset_of key
  hit h s =
      let (answer, s') = redis.hit (key h) s in
      (decided h.limit (reset_of h.window_s h.now) h.fail_closed answer, s')

-- The decision with the headers for the response, or what the request is refused with.
unfoldable pub enforce : Decision → Result (Decision × List (String × String))
unfolding headers
enforce d =
    if d.allowed
    then ok (d, headers d)
    else if d.degraded
    then err (record {
      status = 503;
      code = some "rate_limiter_unavailable";
      detail = "the rate limiter is unavailable, so this is refused: retry shortly";
      headers = ("Retry-After", "5") ∷ [];
    })
    else err
        (record { status = 429; code = none; detail = "rate limit exceeded"; headers = headers d })

-- The client of `rate_limit` and of `rate_limit_by_ip`.
unfoldable pub user_client : ℕ → String
user_client user_id = "user:" +++ decimal user_id

unfoldable pub ip_client : Option String → String
ip_client none = "ip:unknown"
ip_client (some host) = "ip:" +++ host
