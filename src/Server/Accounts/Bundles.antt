-- ===== src/Server/Accounts/Bundles.antt =====
-- The keys of a device, from their publication to their lookup.
use upmessenger.Base.{
  ◌≤◌, ◌≡◌, false, some, List, [], ◌∷◌, map, arith, Text, ok, find_first, find_first_sound,
  count_of, ◌==◌, if◌then◌else◌, Bool-cases, inl, inr,
}
use upmessenger.Server.{Database, Device, device_named}
use upmessenger.Server.Accounts.{
  get_device_identity_public_key, update_device_keys, unwrap_or_default, get_device_prekey_bundle,
}

module _ (id exchange prekey signature : Text) where
  -- The UPDATE on one row.
  abbrev pub rekeyed : Device → Device
  rekeyed d =
      if device_named id d
      then record d {
        identity_exchange_public = some exchange;
        signed_prekey_public = some prekey;
        signed_prekey_signature = some signature;
      }
      else d

  find_first-rekeyed :
      (ds : List Device) (d : Device)
      → find_first (device_named id) ds ≡ some d
      → (find_first (device_named id) (map rekeyed ds) ≡ some (rekeyed d))
        × (1 ≤ count_of (device_named id) ds)
  find_first-rekeyed [] d e = absurd (ground arith)
  find_first-rekeyed (x ∷ ds) d e = elim (Bool-cases (device_named id x)) [
    | inl here ↦ (ground (arith, here), ground (arith, here))
    | inr there ↦
        let rest : find_first (device_named id) ds ≡ some d = ground (arith, there) in
        let (found, n) = find_first-rekeyed ds d rest in
        (ground (arith, there, found), ground (arith, there, n))
  ]

  -- The keys that a known device publishes are served with its identity key.
  pub get_device_prekey_bundle-update :
      (d : Device) (db : Database)
      → find_first (device_named id) db.devices ≡ some d
      → (db' : Database) × (update_device_keys id exchange prekey signature db ≡ (ok tt, db'))
        × ((get_device_prekey_bundle id db').0
            ≡ ok (record {
              device_id = d.device_id;
              identity_public_key = d.identity_public_key;
              identity_exchange_public = exchange;
              signed_prekey_public = prekey;
              signed_prekey_signature = signature;
            }))
  unfolding update_device_keys get_device_prekey_bundle unwrap_or_default
  get_device_prekey_bundle-update d db e =
      let (found, n) = find_first-rekeyed db.devices d e in
      let named = find_first_sound (device_named id) db.devices d e in
      let nonzero : (count_of (device_named id) db.devices == 0) ≡ false = ground (arith, n) in
      (
        record db { devices = map rekeyed db.devices },
        ground (arith, e, nonzero),
        ground (arith, found, named),
      )

pub get_device_identity_public_key-found :
    (id : Text) (d : Device) (db : Database)
    → find_first (device_named id) db.devices ≡ some d
    → get_device_identity_public_key id db ≡ (ok d.identity_public_key, db)
unfolding get_device_identity_public_key
get_device_identity_public_key-found id d db e = rw e
