-- ===== src/Base/Options.antt =====
-- `Option` with `?` as bind.
use mathlib.Core.Path.{◌≡◌, refl}
use mathlib.Core.Bool.{Bool, true, false, not, ◌||◌}
use mathlib.Core.Option.{Option, none, some}
use upmessenger.Base.Tests.{if◌then◌else◌}

infixl 5 ◌>>=◌
abbrev pub ◌>>=◌ {ℓ κ} : {A : Type ℓ} {B : Type κ} → Option A → (A → Option B) → Option B
none >>= f = none
some a >>= f = f a

pub >>=-eq-some {ℓ κ} :
    {A : Type ℓ} {B : Type κ} (m : Option A) (f : A → Option B) {b : B}
    → (m >>= f) ≡ some b
    → (a : A) × (m ≡ some a) × (f a ≡ some b)
>>=-eq-some none f h = cc
>>=-eq-some (some a) f h = (a, refl, h)

-- Both tests of an early `return None` have passed where there is a result.
pub guard-eq-some {ℓ} :
    {A : Type ℓ} (p q : Bool) (o : Option A) {a : A}
    → (if not p || not q then none else o) ≡ some a
    → (p ≡ true) × (q ≡ true) × (o ≡ some a)
guard-eq-some true true o h = (refl, refl, h)
guard-eq-some true false o h = cc
guard-eq-some false q o h = cc
