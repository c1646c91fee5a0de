-- ===== src/Base/State.antt =====
-- Methods that take `&mut self` and may fail. What was written before an error stays written, so the
-- state comes back beside the error too.
use mathlib.Core.Path.{◌≡◌, refl}
use upmessenger.Base.Results.{Result, ok, err}

abbrev pub Exec {ℓ} : Type ℓ → Type ℓ → Type ℓ → Type ℓ
Exec S E A = S → Result E A × S

module _ {ℓ} {S E A : Type ℓ} where
  -- A step that reads no state.
  abbrev pub lift : Result E A → Exec S E A
  lift r s = (r, s)

  abbrev pub pure : A → Exec S E A
  pure a s = (ok a, s)

  abbrev pub gets : (S → Result E A) → Exec S E A
  gets f s = (f s, s)

module _ {ℓ} {S E : Type ℓ} where
  -- An assignment to fields.
  abbrev pub modify : (S → S) → Exec S E (Unit {ℓ})
  modify f s = (ok tt, f s)

module _ {ℓ} {S E A B : Type ℓ} where
  abbrev pub continue : Result E A → (A → Exec S E B) → Exec S E B
  continue (ok a) f s = f a s
  continue (err e) f s = (err e, s)

  infixl 10 ◌>>=◌
  abbrev pub ◌>>=◌ : Exec S E A → (A → Exec S E B) → Exec S E B
  ◌>>=◌ m f s = let (r, s') = m s in continue r f s'

module _ {ℓ} {S E B : Type ℓ} where
  infixl 10 ◌>>◌
  abbrev pub ◌>>◌ : Exec S E (Unit {ℓ}) → Exec S E B → Exec S E B
  m >> n = m >>= λ _. n

module _ {ℓ} {S E A B : Type ℓ} where
  -- A step that only computes with the result of another leaves its state.
  pub continue-pure : (r : Result E A) (f : A → B) (s : S) → (continue r (λ a. pure (f a)) s).1 ≡ s
  continue-pure (ok a) f s = refl
  continue-pure (err e) f s = refl
