-- ===== src/Ratchet/Keys.antt =====
-- The map of skipped message keys.
use upmessenger.Base.{
  ◌+◌, ◌≤◌, ◌≡◌, ◌↔◌, refl, ap, true, false, none, some, [], ◌∷◌, arith, Bytes, str_eq_iff,
  str_eq_refl, length, if◌then◌else◌,
}
use upmessenger.Ratchet.{SkippedId, SkippedKeys, id_eq, lookup, insert, remove}

pub id_eq_iff : (j k : SkippedId) → (id_eq j k ≡ true) ↔ (j ≡ k)
unfolding id_eq
id_eq_iff (d, n) (e, m) = (
  λ h. ground (arith, str_eq_iff d e),
  λ p. ground (arith, str_eq_iff d e, ap (λ (k : SkippedId). k.0) p, ap (λ (k : SkippedId). k.1) p),
)

pub id_eq_refl : (k : SkippedId) → id_eq k k ≡ true
unfolding id_eq
id_eq_refl (d, n) = ground (arith, str_eq_refl d)

pub lookup-insert :
    (k j : SkippedId) (v : Bytes) (m : SkippedKeys)
    → lookup j (insert k v m) ≡ (if id_eq k j then some v else lookup j m)
unfolding lookup insert
lookup-insert k j v [] = refl
lookup-insert k j v ((i, w) ∷ m) =
    ground (arith, id_eq_iff k j, id_eq_iff i k, id_eq_iff i j, lookup-insert k j v m)

pub length-insert-le :
    (k : SkippedId) (v : Bytes) (m : SkippedKeys) → length (insert k v m) ≤ length m + 1
unfolding insert
length-insert-le k v [] = omega arith
length-insert-le k v ((i, w) ∷ m) = ground (arith, length-insert-le k v m)

-- A key that is not there is added.
pub length-insert :
    (k : SkippedId) (v : Bytes) (m : SkippedKeys)
    → lookup k m ≡ none
    → length (insert k v m) ≡ length m + 1
unfolding lookup insert
length-insert k v [] e = refl
length-insert k v ((i, w) ∷ m) e = ground (arith, length-insert k v m)

pub lookup-remove_ne :
    (k j : SkippedId) (m : SkippedKeys) → id_eq k j ≡ false → lookup j (remove k m) ≡ lookup j m
unfolding lookup remove
lookup-remove_ne k j [] ne = refl
lookup-remove_ne k j ((i, w) ∷ m) ne =
    ground (arith, id_eq_iff i k, id_eq_iff i j, id_eq_iff k j, lookup-remove_ne k j m ne)

-- Every key stands once, as in a `HashMap`.
abbrev pub Distinct : SkippedKeys → Type 0
Distinct [] = Unit {0}
Distinct ((i, w) ∷ m) = (lookup i m ≡ none) × Distinct m

pub Distinct-insert :
    (k : SkippedId) (v : Bytes) (m : SkippedKeys) → Distinct m → Distinct (insert k v m)
unfolding insert lookup
Distinct-insert k v [] h = (refl, tt)
Distinct-insert k v ((i, w) ∷ m) h =
    ground (arith, lookup-insert k i v m, id_eq_iff i k, id_eq_iff k i, Distinct-insert k v m h.1)

pub lookup-remove : (k : SkippedId) (m : SkippedKeys) → Distinct m → lookup k (remove k m) ≡ none
unfolding lookup remove
lookup-remove k [] h = refl
lookup-remove k ((i, w) ∷ m) h = ground (arith, id_eq_iff i k, lookup-remove k m h.1)

pub Distinct-remove : (k : SkippedId) (m : SkippedKeys) → Distinct m → Distinct (remove k m)
unfolding remove
Distinct-remove k [] h = tt
Distinct-remove k ((i, w) ∷ m) h =
    ground (arith, lookup-remove_ne k i m, id_eq_iff i k, id_eq_iff k i, Distinct-remove k m h.1)
