-- ===== src/Base/Members.antt =====
-- Membership of the lists that the statements of the database select.
use mathlib.Core.Path.{◌≡◌}
use mathlib.Core.Bool.{Bool, true}
use mathlib.Core.List.{List, [], ◌∷◌}
use mathlib.Core.List.Memᴰ
use mathlib.Core.List.{Memᴰ}
use mathlib.Core.Logic.{inl, inr}
use upmessenger.Base.Tests.{Bool-cases}
use upmessenger.Base.Lists.{select}

module _ {ℓ} {A : Type ℓ} where
  pub Member-select :
      (p : A → Bool) {a : A} {xs : List A} → p a ≡ true → Memᴰ a xs → Memᴰ a (select p xs)
  Member-select p {a} h (Memᴰ.head {x} e) = let here : p x ≡ true = cc in rw here (Memᴰ.head e)
  Member-select p h (Memᴰ.tail {x} {xs} m) = elim (Bool-cases (p x)) [
    | inl e ↦ rw e (Memᴰ.tail (Member-select p h m))
    | inr e ↦ rw e (Member-select p h m)
  ]

  pub select-Member :
      (p : A → Bool) {a : A} (xs : List A) → Memᴰ a (select p xs) → Memᴰ a xs × (p a ≡ true)
  select-Member p [] m = absurd (Memᴰ.not-nil m)
  select-Member p (x ∷ xs) m = elim (Bool-cases (p x)) [
    | inl e ↦ elim (Memᴰ.cases_cons (rw e at m)) [
      | inl here ↦ (Memᴰ.head here, cc)
      | inr later ↦ let (m', h) = select-Member p xs later in (Memᴰ.tail m', h)
    ]
    | inr e ↦ let (m', h) = select-Member p xs (rw e at m) in (Memᴰ.tail m', h)
  ]
