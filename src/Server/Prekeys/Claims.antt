-- ===== src/Server/Prekeys/Claims.antt =====
-- No prekey is handed out twice.
use upmessenger.Base.{
  ℕ, ◌≤◌, ◌≡◌, refl, sym, false, some, List, [], ◌∷◌, map, inl, inr, arith, Text, str_eq, str_eq→≡,
  ok, count_of, Bool-cases, Option-cases,
}
use upmessenger.Server.{Database, OneTimePrekey}
use upmessenger.Server.Prekeys.{
  OneTimePreKeyRecord, is_unclaimed, is_candidate, oldest, is_claimed_by, mark_claimed,
  claim_one_time_prekey,
}

-- The candidates of a device with a given identifier.
abbrev pub available : Text → Text → List OneTimePrekey → ℕ
available id device keys = count_of (is_claimed_by id device) keys

-- A claim makes no prekey of any device available.
available-mark :
    (now : ℕ) (id device id' device' : Text) (keys : List OneTimePrekey)
    → available id' device' (map (mark_claimed now id device) keys) ≤ available id' device' keys
unfolding mark_claimed is_claimed_by is_candidate is_unclaimed
available-mark now id device id' device' [] = omega arith
available-mark now id device id' device' (k ∷ keys) =
    let rest = available-mark now id device id' device' keys in
    elim (Bool-cases (is_claimed_by id device k)) [
      | inl e ↦ rw e (ground (arith, rest))
      | inr e ↦ rw e (ground (arith, rest))
    ]

available-marked :
    (now : ℕ) (id device : Text) (keys : List OneTimePrekey)
    → available id device (map (mark_claimed now id device) keys) ≡ 0
unfolding mark_claimed is_claimed_by is_candidate is_unclaimed
available-marked now id device [] = refl
available-marked now id device (k ∷ keys) =
    let rest = available-marked now id device keys in
    elim (Bool-cases (is_claimed_by id device k)) [
      | inl e ↦ rw e (ground (arith, rest))
      | inr e ↦ rw (e, e) (ground (arith, rest))
    ]

available-claim :
    (now : ℕ) (device id' device' : Text) (db : Database)
    → available id' device' (claim_one_time_prekey now device db).1.one_time_prekeys
      ≤ available id' device' db.one_time_prekeys
unfolding claim_one_time_prekey
available-claim now device id' device' db =
    elim (Option-cases (oldest device db.one_time_prekeys)) [
      | inl e ↦ rw (claim_one_time_prekey, e) (omega arith)
      | inr (k, e) ↦
          rw (claim_one_time_prekey, e)
            (available-mark now k.prekey_id device id' device' db.one_time_prekeys)
    ]

-- A claim that hands a prekey out found it available, and leaves it unavailable.
claim_one_time_prekey-some :
    (now : ℕ) (device : Text) (db : Database) (r : OneTimePreKeyRecord)
    → (claim_one_time_prekey now device db).0 ≡ ok (some r)
    → (available r.prekey_id device db.one_time_prekeys ≡ 1)
      × (available r.prekey_id device (claim_one_time_prekey now device db).1.one_time_prekeys ≡ 0)
unfolding claim_one_time_prekey
claim_one_time_prekey-some now device db r h =
    elim (Option-cases (oldest device db.one_time_prekeys)) [
      | inl e ↦ absurd (ground (arith, e))
      | inr (k, e) ↦
          let one : available k.prekey_id device db.one_time_prekeys ≡ 1 = ground (arith, e) in
          let same : k.prekey_id ≡ r.prekey_id = ground (arith, e, one) in
          rw (claim_one_time_prekey, e, sym same)
            (one, available-marked now k.prekey_id device db.one_time_prekeys)
    ]

-- The database after claims by any devices, each at its time.
unfoldable pub claims : List (ℕ × Text) → Database → Database
claims [] db = db
claims ((now, device) ∷ later) db = claims later (claim_one_time_prekey now device db).1

available-claims :
    (id device : Text) (later : List (ℕ × Text)) (db : Database)
    → available id device (claims later db).one_time_prekeys
      ≤ available id device db.one_time_prekeys
unfolding claims
available-claims id device [] db = omega arith
available-claims id device ((now, d) ∷ later) db = omega (
  arith,
  available-claims id device later (claim_one_time_prekey now d db).1,
  available-claim now d id device db,
)

-- A prekey of a device that was handed out by a claim is not handed out for that device again,
-- whatever any devices claim in between.
pub claim_one_time_prekey_once :
    (now now' : ℕ) (device : Text) (later : List (ℕ × Text)) (db : Database)
    (r r' : OneTimePreKeyRecord)
    → (claim_one_time_prekey now device db).0 ≡ ok (some r)
    → (claim_one_time_prekey now' device (claims later (claim_one_time_prekey now device db).1)).0
      ≡ ok (some r')
    → str_eq r'.prekey_id r.prekey_id ≡ false
claim_one_time_prekey_once now now' device later db r r' h h' =
    let db' : Database = (claim_one_time_prekey now device db).1 in
    let (_, used) = claim_one_time_prekey-some now device db r h in
    let (fresh, _) = claim_one_time_prekey-some now' device (claims later db') r' h' in
    elim (Bool-cases (str_eq r'.prekey_id r.prekey_id)) [
      | inr e ↦ e
      | inl e ↦
          let same : r'.prekey_id ≡ r.prekey_id = str_eq→≡ r'.prekey_id r.prekey_id e in
          let fresh' : available r.prekey_id device (claims later db').one_time_prekeys ≡ 1 =
            rw same at fresh in
          absurd (omega (arith, available-claims r.prekey_id device later db'))
    ]
