-- ===== src/RateLimit.antt =====
-- server/upm-server/src/ratelimit.rs: a fixed-window counter for each key. The mutex makes each call of
-- `check` one step, and the clock is an argument. `HashMap` is an association list.
mod Windows
pub mod Memory
pub mod Budget
mod Examples
use upmessenger.Base.{
  ℕ, ◌+◌, ◌-◌, ◌%◌, ◌^◌, Bool, true, false, not, ◌&&◌, Option, none, some, List, [], ◌∷◌, Text,
  str_eq, length, select, ltb, leb, if◌then◌else◌,
}

pub record Window : Type 0 where
  pub window_start : ℕ
  pub count : ℕ

abbrev pub Windows : Type 0
Windows = List (Text × Window)

pub record RateLimiter : Type 0 where
  pub limit : ℕ
  pub window_secs : ℕ
  pub max_tracked_keys : ℕ
  pub state : Windows

-- RateLimiter::new
pub new : ℕ → ℕ → RateLimiter
new limit window_secs = record {
  limit = limit;
  window_secs = window_secs;
  max_tracked_keys = 10_000;
  state = [];
}

-- HashMap::get
pub lookup : Text → Windows → Option Window
lookup key [] = none
lookup key ((k, w) ∷ rest) = if str_eq k key then some w else lookup key rest

-- HashMap::contains_key
pub contains_key : Text → Windows → Bool
contains_key key state = elim (lookup key state) [ none ↦ false | some w ↦ true ]

-- The test of `retain`, negated as the test for a new window.
pub is_current : ℕ → ℕ → Window → Bool
is_current window_secs now w = ltb (now - w.window_start) window_secs

-- `count` is a u32, and a release build wraps.
pub hit : ℕ → ℕ → Window → Window
unfolding is_current
hit window_secs now w =
    let w' = if is_current window_secs now w then w else record { window_start = now; count = 0 } in
    record w' { count = (w'.count + 1) % 2 ^ 32 }

-- `entry(key).or_insert(..)`, and the hit on the entry: the new window, and the map that holds it.
pub hit_entry : ℕ → ℕ → Text → Windows → Window × Windows
unfolding hit
hit_entry window_secs now key [] =
    let w = hit window_secs now (record { window_start = now; count = 0 }) in (w, (key, w) ∷ [])
hit_entry window_secs now key ((k, w) ∷ rest) =
    let (hit_in_rest, rest') = hit_entry window_secs now key rest in
    let w' = hit window_secs now w in
    if str_eq k key then (w', (k, w') ∷ rest) else (hit_in_rest, (k, w) ∷ rest')

pub admit : RateLimiter → ℕ → Text → Bool × RateLimiter
admit l now key =
    let (w, state) = hit_entry l.window_secs now key l.state in
    (leb w.count l.limit, record l { state = state })

pub sweep : RateLimiter → ℕ → RateLimiter
sweep l now = record l { state = select (λ e. is_current l.window_secs now e.1) l.state }

-- RateLimiter::check
pub check : RateLimiter → ℕ → Text → Bool × RateLimiter
unfolding admit sweep
check l now key =
    if leb l.max_tracked_keys (length l.state) && not (contains_key key l.state)
    then (let swept = sweep l now in
        if leb swept.max_tracked_keys (length swept.state)
        then (true, swept)
        else admit swept now key)
    else admit l now key

-- The requests of a run, each with its time and its key, and the answers that they get.
pub run : RateLimiter → List (ℕ × Text) → List Bool × RateLimiter
run l [] = ([], l)
run l ((now, key) ∷ calls) =
    let (allowed, l') = check l now key in
    let (answers, l'') = run l' calls in (allowed ∷ answers, l'')
