-- ===== src/RateLimit/Examples.antt =====
-- Runs of the limiter, and the theorems at concrete limiters.
use upmessenger.Base.{
  ℕ, ◌≡◌, ◌≤◌, refl, true, false, List, [], ◌∷◌, arith, Text, codes, length, min, ◌-◌, str_eq,
}
use upmessenger.RateLimit.{RateLimiter, lookup, check, run, hit_entry, contains_key}
use upmessenger.RateLimit.Memory.{run-IsBounded}
use upmessenger.RateLimit.Budget.{allowed_for, calls_for, run-budget}

abbrev alice : Text
alice = codes "alice"

abbrev bob : Text
bob = codes "bob"

-- Three hits of a budget of three at time 1000.
abbrev busy : RateLimiter
busy = record {
  limit = 3;
  window_secs = 60;
  max_tracked_keys = 2;
  state = (alice, record { window_start = 1000; count = 2 }) ∷ [];
}

abbrev calls : List (ℕ × Text)
calls = (1010, alice) ∷ (1020, bob) ∷ (1030, alice) ∷ (1059, codes "carol") ∷ []

answers : (run busy calls).0 ≡ true ∷ true ∷ false ∷ true ∷ []
unfolding run check lookup str_eq hit_entry contains_key
answers = refl

run-IsBounded_example : length (run busy calls).1.state ≤ (run busy calls).1.max_tracked_keys
run-IsBounded_example = run-IsBounded calls busy (omega arith)

run-budget_example :
    allowed_for alice calls (run busy calls).0 ≡ min (3 - 2) (calls_for alice calls)
run-budget_example =
    run-budget alice calls busy (record { window_start = 1000; count = 2 })
      (unfold lookup str_eq in refl) (omega arith) (omega arith) (omega arith)
