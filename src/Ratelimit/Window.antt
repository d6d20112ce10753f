-- ===== src/Ratelimit/Window.antt =====
-- The windows of `RateLimiter.hit` in apps/api/app/ratelimit.py.
use triage_assistant.Prelude.{ℕ, suc, zero, ◌+◌, ◌*◌, ◌≤◌, ◌<◌, ◌≡◌, arith}
use triage_assistant.Ratelimit.{window_of, reset_of}
use native.Mathlib.Omega.{div_fact, mod_fact}

-- The seconds until the reset are at least one and at most the window's, and the time they lead to
-- is the first second of the next window.
pub reset_of-next :
    (window_s now : ℕ)
    → 0 < window_s
    → (1 ≤ reset_of window_s now)
      × (reset_of window_s now ≤ window_s)
      × (now + reset_of window_s now ≡ window_s * suc (window_of window_s now))
unfolding reset_of window_of
reset_of-next zero now h = absurd (omega (arith, h))
reset_of-next (suc k) now h =
    (omega (arith, mod_fact now k), omega arith, omega (arith, div_fact now k, mod_fact now k))
