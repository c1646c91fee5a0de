-- ===== src/RateLimit/Windows.antt =====
-- The map of windows under the two ways in which `check` changes it.
use upmessenger.Base.{
  ℕ, ◌+◌, ◌≡◌, refl, Bool, true, Option, none, some, [], ◌∷◌, arith, Text, str_eq, str_eq_iff,
  length, select, if◌then◌else◌,
}
use upmessenger.RateLimit.{Window, Windows, lookup, contains_key, hit, hit_entry}

module _ (window_secs now : ℕ) (key : Text) where
  -- The window that a hit starts from.
  abbrev pub start_of : Option Window → Window
  start_of none = record { window_start = now; count = 0 }
  start_of (some w) = w

  pub hit_entry-window :
      (state : Windows)
      → (hit_entry window_secs now key state).0 ≡ hit window_secs now (start_of (lookup key state))
  unfolding hit_entry lookup
  hit_entry-window [] = refl
  hit_entry-window ((k, w) ∷ rest) = ground (arith, hit_entry-window rest)

  pub lookup-hit_entry :
      (j : Text) (state : Windows)
      → lookup j (hit_entry window_secs now key state).1 ≡ (
          if str_eq key j
          then some (hit window_secs now (start_of (lookup key state)))
          else lookup j state)
  unfolding hit_entry lookup
  lookup-hit_entry j [] = ground (arith, str_eq_iff key j)
  lookup-hit_entry j ((k, w) ∷ rest) =
      ground (arith, str_eq_iff key j, str_eq_iff k j, str_eq_iff k key, lookup-hit_entry j rest)

  pub length-hit_entry :
      (state : Windows)
      → length (hit_entry window_secs now key state).1
        ≡ (if contains_key key state then length state else length state + 1)
  unfolding hit_entry lookup contains_key
  length-hit_entry [] = refl
  length-hit_entry ((k, w) ∷ rest) = ground (arith, length-hit_entry rest)

-- An entry that a sweep keeps is found as before.
pub lookup-select :
    (p : Window → Bool) (key : Text) (w : Window) (state : Windows)
    → lookup key state ≡ some w
    → p w ≡ true
    → lookup key (select (λ e. p e.1) state) ≡ some w
unfolding lookup
lookup-select p key w [] e h = e
lookup-select p key w ((k, v) ∷ rest) e h = ground (arith, lookup-select p key w rest)

-- A sweep brings no key in.
pub lookup-select-none :
    (p : Window → Bool) (key : Text) (state : Windows)
    → lookup key state ≡ none
    → lookup key (select (λ e. p e.1) state) ≡ none
unfolding lookup
lookup-select-none p key [] e = e
lookup-select-none p key ((k, v) ∷ rest) e = ground (arith, lookup-select-none p key rest)
