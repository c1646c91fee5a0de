-- ===== src/Api/Published.antt =====
-- The keys that the server serves were signed by the device.
use upmessenger.Base.{◌≡◌, none, some, Bytes, Text, ok, find_first}
use upmessenger.Codec.{decode_fixed}
use upmessenger.Crypto.{Primitives}
use upmessenger.Handshake.{PreKeyBundle, verify_bundle}
use upmessenger.Server.{Device, device_named}
use upmessenger.Server.Accounts.{DevicePreKeyBundle}
use upmessenger.Api.{Services, Draws, AppState, PublishKeysRequest}

-- The keys of a bundle that the server serves, as an initiator reads them.
abbrev pub read_bundle : Bytes → Bytes → Bytes → Bytes → PreKeyBundle
read_bundle identity exchange prekey signature = record {
  identity_signing_public = identity;
  identity_exchange_public = exchange;
  signed_prekey_public = prekey;
  signed_prekey_signature = signature;
  one_time_prekey_id = none;
  one_time_prekey_public = none;
  one_time_prekey_signature = none;
}

-- A bundle that decodes to keys which pass the initiator's check.
pub record Signed (p : Primitives) (b : DevicePreKeyBundle) : Type 0 where
  pub identity : Bytes
  pub exchange : Bytes
  pub prekey : Bytes
  pub signature : Bytes
  pub identity_read : decode_fixed 32 b.identity_public_key ≡ some identity
  pub exchange_read : decode_fixed 32 b.identity_exchange_public ≡ some exchange
  pub prekey_read : decode_fixed 32 b.signed_prekey_public ≡ some prekey
  pub signature_read : decode_fixed 64 b.signed_prekey_signature ≡ some signature
  pub verified : verify_bundle p (read_bundle identity exchange prekey signature) ≡ ok tt

module _ (services : Services) (draws : Draws) (body device : Text) (s : AppState) (d : Device)
    (req : PublishKeysRequest) (read : services.read_keys body ≡ some req)
    (found : find_first (device_named device) s.db.devices ≡ some d) where
  -- The bundle that the server then serves.
  abbrev pub served : DevicePreKeyBundle
  served = record {
    device_id = d.device_id;
    identity_public_key = d.identity_public_key;
    identity_exchange_public = req.identity_exchange_public;
    signed_prekey_public = req.signed_prekey_public;
    signed_prekey_signature = req.signed_prekey_signature;
  }
