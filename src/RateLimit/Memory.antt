-- ===== src/RateLimit/Memory.antt =====
-- The map of windows stays within `max_tracked_keys`, whatever keys are presented.
use upmessenger.Base.{ℕ, ◌≤◌, List, [], ◌∷◌, arith, Text, length, length-select-le}
use upmessenger.RateLimit.{RateLimiter, is_current, sweep, check, run}
use upmessenger.RateLimit.Windows.{length-hit_entry}

abbrev pub IsBounded : RateLimiter → Type 0
IsBounded l = length l.state ≤ l.max_tracked_keys

sweep-length-le : (l : RateLimiter) (now : ℕ) → length (sweep l now).state ≤ length l.state
unfolding sweep
sweep-length-le l now = length-select-le (λ e. is_current l.window_secs now e.1) l.state

check-IsBounded :
    (l : RateLimiter) (now : ℕ) (key : Text) → IsBounded l → IsBounded (check l now key).1
unfolding check
check-IsBounded l now key h = ground (
  arith,
  length-hit_entry l.window_secs now key l.state,
  length-hit_entry l.window_secs now key (sweep l now).state,
  sweep-length-le l now,
)

-- A limiter that starts within its bound on tracked keys is within it after any sequence of calls.
pub run-IsBounded :
    (calls : List (ℕ × Text)) (l : RateLimiter) → IsBounded l → IsBounded (run l calls).1
unfolding run
run-IsBounded [] l h = h
run-IsBounded ((now, key) ∷ calls) l h =
    run-IsBounded calls (check l now key).1 (check-IsBounded l now key h)
