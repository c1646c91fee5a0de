-- ===== src/Server/Examples/Tables.antt =====
-- Two accounts with a device each.
use upmessenger.Base.{true, none, [], ◌∷◌, Bytes, Text, codes}
use upmessenger.Protocol.{MessageEnvelope}
use upmessenger.Codec.{base64_encode}
use upmessenger.Samples.{zeros}
use upmessenger.Server.{Database, User, Device, OneTimePrekey}
use upmessenger.Server.Accounts.{active}

abbrev pub alice_device : Text
alice_device = codes "00000000000000000000000000000000"

abbrev pub bob_device : Text
bob_device = codes "01000000000000000000000000000000"

abbrev pub bob_id : Bytes
bob_id = 1 ∷ zeros 15

abbrev pub alice : User
alice = record {
  user_id = codes "A";
  upm_id = codes "7F3A-91D2-4C2M";
  username = codes "alice";
  username_normalized = codes "alice";
  created_at = 100;
  status = active;
  directory_visible = true;
}

abbrev pub bob : User
bob = record alice {
  user_id = codes "B";
  upm_id = codes "7F3A-91D2-4C2N";
  username = codes "bob";
  username_normalized = codes "bob";
}

abbrev pub alice_phone : Device
alice_phone = record {
  device_id = alice_device;
  user_id = codes "A";
  identity_public_key = base64_encode (zeros 32);
  identity_exchange_public = none;
  signed_prekey_public = none;
  signed_prekey_signature = none;
  capabilities = codes "[]";
  last_seen_coarse = none;
}

abbrev pub bob_phone : Device
bob_phone = record alice_phone { device_id = bob_device; user_id = codes "B" }

abbrev pub prekey : OneTimePrekey
prekey = record {
  prekey_id = codes "P";
  device_id = bob_device;
  public_key = codes "K";
  signature = codes "S";
  created_at = 300;
  claimed_at = none;
}

abbrev pub tables : Database
tables = record {
  users = alice ∷ bob ∷ [];
  devices = alice_phone ∷ bob_phone ∷ [];
  one_time_prekeys = prekey ∷ record prekey { prekey_id = codes "Q"; created_at = 200 } ∷ [];
  memberships = [];
  message_envelopes = [];
  attachments = [];
  auth_challenges =
      record { device_id = alice_device; challenge = zeros 64; expires_at = 1120 } ∷ [];
  sessions = [];
}

abbrev pub hello : MessageEnvelope
hello = record {
  protocol_version = 4;
  message_id = zeros 16;
  sender_device_id = zeros 16;
  recipient_device_id = bob_id;
  ciphertext = 104 ∷ 105 ∷ [];
  server_timestamp = 1000;
  expires_at = 2000;
}
