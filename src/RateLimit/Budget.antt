-- ===== src/RateLimit/Budget.antt =====
-- Which calls are allowed.
use upmessenger.Base.{
  ℕ, suc, ◌+◌, ◌-◌, ◌^◌, ◌≤◌, ◌<◌, ◌≡◌, refl, ap, ◌∙◌, Bool, true, false, Option, none, some, inl,
  inr, List, [], ◌∷◌, min, arith, Text, All, str_eq, str_eq_refl, str_eq→≡, ◌&&◌, length, ltb, leb,
  if◌then◌else◌, Bool-cases, Option-cases,
}
use upmessenger.RateLimit.{
  RateLimiter, Window, lookup, is_current, contains_key, hit, admit, sweep, check, run,
}
use upmessenger.RateLimit.Windows.{
  start_of, hit_entry-window, lookup-hit_entry, lookup-select, lookup-select-none,
}

module _ (l : RateLimiter) (now : ℕ) (key : Text) where
  abbrev hit_window : Option Window → Window
  hit_window o = hit l.window_secs now (start_of l.window_secs now key o)

  admit-allows : (admit l now key).0 ≡ leb (hit_window (lookup key l.state)).count l.limit
  unfolding admit
  admit-allows =
      ap (λ (w : Window). leb w.count l.limit) (hit_entry-window l.window_secs now key l.state)

  hit-fresh : (hit_window none).count ≡ 1
  unfolding hit
  hit-fresh = ground arith

  lookup-sweep-none : lookup key l.state ≡ none → lookup key (sweep l now).state ≡ none
  unfolding sweep
  lookup-sweep-none = lookup-select-none (is_current l.window_secs now) key l.state

  lookup-sweep :
      (w : Window)
      → lookup key l.state ≡ some w
      → is_current l.window_secs now w ≡ true
      → lookup key (sweep l now).state ≡ some w
  unfolding sweep
  lookup-sweep w = lookup-select (is_current l.window_secs now) key w l.state

  -- A call for a key that is tracked goes straight to its entry.
  check-tracked : (w : Window) → lookup key l.state ≡ some w → check l now key ≡ admit l now key
  unfolding check contains_key
  check-tracked w e = ground arith

fresh_allowed :
    (l : RateLimiter) (now : ℕ) (key : Text)
    → 0 < l.limit
    → lookup key l.state ≡ none
    → (admit l now key).0 ≡ true
fresh_allowed l now key pos e = admit-allows l now key ∙ rw (e, hit-fresh l now key) (ground arith)

-- A call for a key that is not tracked is allowed.
check-untracked :
    (l : RateLimiter) (now : ℕ) (key : Text)
    → 0 < l.limit
    → lookup key l.state ≡ none
    → (check l now key).0 ≡ true
unfolding check
check-untracked l now key pos e = ground (
  arith,
  fresh_allowed l now key pos e,
  fresh_allowed (sweep l now) now key,
  lookup-sweep-none l now key e,
)

full_window :
    (l : RateLimiter) (now : ℕ) (key : Text) (w : Window)
    → 0 < l.limit
    → leb (hit_window l now key (some w)).count l.limit ≡ false
    → (is_current l.window_secs now w ≡ true) × (l.limit ≤ w.count)
unfolding hit
full_window l now key w pos h = (ground arith, ground arith)

-- With a positive limit, a call is rejected only where its key has used up its budget in a window that
-- is still running.
pub check-rejects :
    (l : RateLimiter) (now : ℕ) (key : Text)
    → 0 < l.limit
    → (check l now key).0 ≡ false
    → (w : Window) × (lookup key l.state ≡ some w)
      × (is_current l.window_secs now w ≡ true)
      × (l.limit ≤ w.count)
check-rejects l now key pos h = elim (Option-cases (lookup key l.state)) [
  | inl e ↦ cc (check-untracked l now key pos e)
  | inr (w, e) ↦
      let rejected : leb (hit_window l now key (some w)).count l.limit ≡ false =
        cc (admit-allows l now key, check-tracked l now key w e, e, h) in
      let (current, full) = full_window l now key w pos rejected in (w, e, current, full)
]

-- The given limits, and `key` tracked with the given window.
record Tracks (limit window_secs : ℕ) (key : Text) (w : Window) (l : RateLimiter) : Type 0 where
  same_limit : l.limit ≡ limit
  same_window : l.window_secs ≡ window_secs
  tracked : lookup key l.state ≡ some w

retrack :
    {limit limit' secs secs' : ℕ} {key : Text} {w : Window} {l : RateLimiter}
    → limit ≡ limit'
    → secs ≡ secs'
    → Tracks limit secs key w l
    → Tracks limit' secs' key w l
retrack p q t = record {
  same_limit = t.same_limit ∙ p;
  same_window = t.same_window ∙ q;
  tracked = t.tracked;
}

bumped : Window → Window
bumped w = record w { count = w.count + 1 }

module _ (l : RateLimiter) (now : ℕ) (key : Text) (w : Window) (e : lookup key l.state ≡ some w)
    (current : is_current l.window_secs now w ≡ true) where
  hit-current : w.count + 1 < 2 ^ 32 → hit_window l now key (some w) ≡ bumped w
  unfolding hit bumped
  hit-current small = ground arith

  -- A call for the key itself counts one more hit, and is allowed up to the limit.
  check_self :
      w.count + 1 < 2 ^ 32
      → ((check l now key).0 ≡ ltb w.count l.limit)
        × Tracks l.limit l.window_secs key (bumped w) (check l now key).1
  unfolding admit bumped
  check_self small =
      let hit_w : hit_window l now key (some w) ≡ bumped w = hit-current small in
      rw (check-tracked l now key w e) (
        admit-allows l now key ∙ rw (e, hit_w) (ground arith),
        record {
          same_limit = refl;
          same_window = refl;
          tracked =
              lookup-hit_entry l.window_secs now key key l.state ∙ rw (str_eq_refl key, e, hit_w);
        },
      )

  -- A call for another key changes nothing.
  check-other :
      (j : Text) → str_eq j key ≡ false → Tracks l.limit l.window_secs key w (check l now j).1
  unfolding check admit
  check-other j ne = ground (
    arith,
    lookup-hit_entry l.window_secs now j key l.state,
    lookup-hit_entry l.window_secs now j key (sweep l now).state,
    lookup-sweep l now key w e current,
  )

-- How many calls of a run are for a key, and how many of these are allowed.
pub calls_for : Text → List (ℕ × Text) → ℕ
calls_for key [] = 0
calls_for key ((now, j) ∷ calls) =
    if str_eq j key then suc (calls_for key calls) else calls_for key calls

pub allowed_for : Text → List (ℕ × Text) → List Bool → ℕ
allowed_for key [] answers = 0
allowed_for key (call ∷ calls) [] = 0
allowed_for key ((now, j) ∷ calls) (allowed ∷ answers) =
    (if str_eq j key && allowed then 1 else 0) + allowed_for key calls answers

-- Every call of the run falls into the window that begins at `start`.
abbrev pub Within : ℕ → ℕ → List (ℕ × Text) → Type 0
Within start window_secs = All (λ call. call.0 < start + window_secs)

-- The induction, over every limiter with the given limits.
module _ (key : Text) (limit window_secs start : ℕ) (pos : 0 < window_secs) where
  abbrev Running : ℕ → RateLimiter → Type 0
  Running count l = Tracks limit window_secs key (record { window_start = start; count = count }) l

  abbrev AllowedFrom : ℕ → List (ℕ × Text) → RateLimiter → Type 0
  AllowedFrom count calls l =
      allowed_for key calls (run l calls).0 ≡ min (limit - count) (calls_for key calls)

  is_current-within :
      (now count : ℕ)
      → now < start + window_secs
      → is_current window_secs now (record { window_start = start; count = count }) ≡ true
  unfolding is_current
  is_current-within now count h = ground arith

  run-Running :
      (calls : List (ℕ × Text)) (count : ℕ) (l : RateLimiter)
      → Running count l
      → Within start window_secs calls
      → count + length calls < 2 ^ 32
      → AllowedFrom count calls l
  unfolding run allowed_for calls_for bumped
  run-Running [] count l r within small = omega arith
  run-Running ((now, j) ∷ calls) count l r within small =
      let w : Window = record { window_start = start; count = count } in
      let current : is_current l.window_secs now w ≡ true =
        rw r.same_window (is_current-within now count within.0) in
      elim (Bool-cases (str_eq j key)) [
        | inl same ↦
            let e : j ≡ key = str_eq→≡ j key same in
            let (allowed, next) = check_self l now key w r.tracked current (omega arith) in
            let later : AllowedFrom (count + 1) calls (check l now key).1 =
              run-Running calls (count + 1) (check l now key).1
                (retrack r.same_limit r.same_window next) within.1 (omega arith) in
            rw (same, e, allowed) (ground (arith, later))
        | inr other ↦
            let next = check-other l now key w r.tracked current j other in
            let later : AllowedFrom count calls (check l now j).1 =
              run-Running calls count (check l now j).1 (retrack r.same_limit r.same_window next)
                within.1 (omega arith) in
            rw other (omega (arith, later))
      ]

-- For a key that is tracked in a window, calls for any keys within that window, and counters that do
-- not reach the last u32: exactly the first calls for the key are allowed, up to what the limit leaves
-- over the hits already counted.
pub run-budget :
    (key : Text) (calls : List (ℕ × Text)) (l : RateLimiter) (w : Window)
    → lookup key l.state ≡ some w
    → 0 < l.window_secs
    → Within w.window_start l.window_secs calls
    → w.count + length calls < 2 ^ 32
    → allowed_for key calls (run l calls).0 ≡ min (l.limit - w.count) (calls_for key calls)
run-budget key calls l w e pos within small =
    run-Running key l.limit l.window_secs w.window_start pos calls w.count l
      (record { same_limit = refl; same_window = refl; tracked = e }) within small
