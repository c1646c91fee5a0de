-- ===== src/Server/Prekeys.antt =====
-- server/upm-server/src/db.rs: the one-time prekeys that a device publishes and that initiators claim.
pub mod Claims
use upmessenger.Base.{
  ℕ, ◌+◌, ◌≡◌, Bool, true, false, not, ◌&&◌, Option, none, some, List, [], ◌∷◌, ◌++◌, map, Text,
  str_eq, Result, ok, err, find_first, select, count_of, ltb, ◌==◌, if◌then◌else◌,
}
use upmessenger.Base.State.{Exec, lift, pure, gets, modify, ◌>>=◌, ◌>>◌}
use upmessenger.Server.{
  Database, OneTimePrekey, DbError, device_not_found, Action, device_exists, transaction,
}

pub record OneTimePreKeyRecord : Type 0 where
  pub prekey_id : Text
  pub public_key : Text
  pub signature : Text

-- `INSERT OR IGNORE`: the number of rows that were inserted.
pub insert_prekey : OneTimePrekey → Action ℕ
insert_prekey k db = elim (find_first (λ r. str_eq r.prekey_id k.prekey_id) db.one_time_prekeys) [
  | some r ↦ (ok 0, db)
  | none ↦ (ok 1, record db { one_time_prekeys = db.one_time_prekeys ++ (k ∷ []) })
]

-- The loop over the entries.
pub insert_prekeys : Text → ℕ → List OneTimePreKeyRecord → Action ℕ
insert_prekeys device now [] = pure 0
insert_prekeys device now (e ∷ entries) = do
  inserted ← insert_prekey (record {
    prekey_id = e.prekey_id;
    device_id = device;
    public_key = e.public_key;
    signature = e.signature;
    created_at = now;
    claimed_at = none;
  })
  rest ← insert_prekeys device now entries
  pure (inserted + rest)

pub publish_one_time_prekeys : ℕ → Text → List OneTimePreKeyRecord → Action ℕ
publish_one_time_prekeys now device_id entries db =
    if not (device_exists device_id db)
    then (err device_not_found, db)
    else transaction (insert_prekeys device_id now entries) db

-- `claimed_at IS NULL`
unfoldable pub is_unclaimed : OneTimePrekey → Bool
is_unclaimed k = elim k.claimed_at [ none ↦ true | some t ↦ false ]

unfoldable pub is_candidate : Text → OneTimePrekey → Bool
is_candidate device k = str_eq k.device_id device && is_unclaimed k

-- `ORDER BY created_at ASC LIMIT 1` over the rows that are candidates.
unfoldable pub oldest : Text → List OneTimePrekey → Option OneTimePrekey
oldest device [] = none
oldest device (k ∷ ks) =
    let rest = oldest device ks in
    if is_candidate device k
    then elim rest [
      | none ↦ some k
      | some k' ↦ if ltb k'.created_at k.created_at then some k' else some k
    ]
    else rest

-- The row that the UPDATE of a claim changes.
unfoldable pub is_claimed_by : Text → Text → OneTimePrekey → Bool
is_claimed_by id device k = str_eq k.prekey_id id && is_candidate device k

unfoldable pub mark_claimed : ℕ → Text → Text → OneTimePrekey → OneTimePrekey
mark_claimed now id device k =
    if is_claimed_by id device k then record k { claimed_at = some now } else k

unfoldable pub claim_one_time_prekey : ℕ → Text → Action (Option OneTimePreKeyRecord)
claim_one_time_prekey now device_id db = elim (oldest device_id db.one_time_prekeys) [
  | none ↦ (ok none, db)
  | some k ↦
      let changed = count_of (is_claimed_by k.prekey_id device_id) db.one_time_prekeys in
      let updated = map (mark_claimed now k.prekey_id device_id) db.one_time_prekeys in
      (
        ok (
            if changed == 1
            then some (record {
              prekey_id = k.prekey_id;
              public_key = k.public_key;
              signature = k.signature;
            })
            else none),
        record db { one_time_prekeys = updated },
      )
]
