-- ===== src/Ratchet.antt =====
-- crates/upm-core/src/ratchet.rs: the state of a session, its key derivation, how a session begins, and
-- its snapshots. The cryptographic libraries and serde_json are the record `Library`; the secret that
-- `AgreementSecret::generate` draws is an argument.
pub mod Keys
pub mod Derivation
pub mod Snapshots
pub mod Start
mod Examples
use upmessenger.Base.{
  ℕ, zero, suc, ◌+◌, ◌-◌, ◌%◌, ◌^◌, ◌≡◌, Bool, true, false, not, ◌&&◌, Option, none, some, List, [],
  ◌∷◌, map, Bytes, Text, codes, str_eq, Result, ok, err, map_err, ◌>>=◌, length, take, drop, ltb,
  leb, ◌==◌, if◌then◌else◌,
}
use upmessenger.Crypto.{Primitives, CryptoError, agree, derive}
use upmessenger.Protocol.{ProtocolVersion, current, DeviceId, MessageId, MessageEnvelope}
use upmessenger.Handshake.{HandshakeResult}

pub data WireError : Type 0 where
  encoding : WireError

pub data SessionError : Type 0 where
  crypto : CryptoError → SessionError
  wire : WireError → SessionError
  replay not_established too_many_skipped : SessionError

pub record RatchetHeader : Type 0 where
  pub dh_pub : Bytes
  pub pn : ℕ
  pub n : ℕ

pub record WireMessage : Type 0 where
  pub header : RatchetHeader
  pub ciphertext_base64 : Text

-- serde_json on the two derived formats
pub record Library : Type 0 where
  pub primitives : Primitives
  pub header_to_vec : RatchetHeader → Option Bytes
  pub wire_to_vec : WireMessage → Option Bytes
  pub wire_from_slice : Bytes → Option WireMessage

abbrev pub max_skip : ℕ
max_skip = 1000

-- The key of the map of skipped message keys: the ratchet key of the chain, and the number in the chain.
abbrev pub SkippedId : Type 0
SkippedId = Bytes × ℕ

abbrev pub SkippedKeys : Type 0
SkippedKeys = List (SkippedId × Bytes)

unfoldable pub id_eq : SkippedId → SkippedId → Bool
id_eq (d, n) (e, m) = str_eq d e && n == m

-- HashMap::get
unfoldable pub lookup : SkippedId → SkippedKeys → Option Bytes
lookup k [] = none
lookup k ((j, v) ∷ rest) = if id_eq j k then some v else lookup k rest

-- HashMap::insert
pub insert : SkippedId → Bytes → SkippedKeys → SkippedKeys
insert k v [] = (k, v) ∷ []
insert k v ((j, w) ∷ rest) = if id_eq j k then (j, v) ∷ rest else (j, w) ∷ insert k v rest

-- HashMap::remove
pub remove : SkippedId → SkippedKeys → SkippedKeys
remove k [] = []
remove k ((j, w) ∷ rest) = if id_eq j k then rest else (j, w) ∷ remove k rest

pub record DoubleRatchetSession : Type 0 where
  pub protocol_version : ProtocolVersion
  pub peer_device : DeviceId
  pub root_key : Bytes
  pub dh_self : Bytes
  pub dh_self_public : Bytes
  pub dh_remote_public : Option Bytes
  pub sending_chain_key : Option Bytes
  pub receiving_chain_key : Option Bytes
  pub send_count : ℕ
  pub recv_count : ℕ
  pub prev_chain_len : ℕ
  pub skipped : SkippedKeys

pub record SkippedMessageKey : Type 0 where
  pub dh_pub : Bytes
  pub message_number : ℕ
  pub message_key : Bytes

pub record SessionSnapshot : Type 0 where
  pub protocol_version : ProtocolVersion
  pub peer_device : DeviceId
  pub root_key : Bytes
  pub dh_self_private : Bytes
  pub dh_remote_public : Option Bytes
  pub sending_chain_key : Option Bytes
  pub receiving_chain_key : Option Bytes
  pub send_count : ℕ
  pub recv_count : ℕ
  pub prev_chain_len : ℕ
  pub skipped : List SkippedMessageKey

unfoldable pub snapshot : DoubleRatchetSession → SessionSnapshot
snapshot s = record {
  protocol_version = s.protocol_version;
  peer_device = s.peer_device;
  root_key = s.root_key;
  dh_self_private = s.dh_self;
  dh_remote_public = s.dh_remote_public;
  sending_chain_key = s.sending_chain_key;
  receiving_chain_key = s.receiving_chain_key;
  send_count = s.send_count;
  recv_count = s.recv_count;
  prev_chain_len = s.prev_chain_len;
  skipped =
      map (λ e. record { dh_pub = e.0.0; message_number = e.0.1; message_key = e.1 }) s.skipped;
}

-- `collect::<HashMap<_, _>>()`: later entries replace earlier ones.
pub collect : List SkippedMessageKey → SkippedKeys → SkippedKeys
unfolding insert
collect [] skipped = skipped
collect (e ∷ entries) skipped =
    collect entries (insert (e.dh_pub, e.message_number) e.message_key skipped)

module _ (lib : Library) where
  open lib use {primitives, header_to_vec, wire_to_vec, wire_from_slice}

  pub from_snapshot : SessionSnapshot → Result SessionError DoubleRatchetSession
  from_snapshot snap =
      let skipped = collect snap.skipped [] in
      if not (snap.protocol_version == current)
      then err not_established
      else if ltb max_skip (length skipped)
      then err too_many_skipped
      else ok (record {
        protocol_version = snap.protocol_version;
        peer_device = snap.peer_device;
        root_key = snap.root_key;
        dh_self = snap.dh_self_private;
        dh_self_public = primitives.x25519_public snap.dh_self_private;
        dh_remote_public = snap.dh_remote_public;
        sending_chain_key = snap.sending_chain_key;
        receiving_chain_key = snap.receiving_chain_key;
        send_count = snap.send_count;
        recv_count = snap.recv_count;
        prev_chain_len = snap.prev_chain_len;
        skipped = skipped;
      })

  -- The new root key and the chain key.
  pub kdf_rk : Bytes → Bytes → Result SessionError (Bytes × Bytes)
  kdf_rk root_key dh_output = do
    okm ←
        map_err crypto (derive primitives root_key dh_output (codes "upm/v4/ratchet/root-step") 64)
    ok (take 32 okm, drop 32 okm)

  -- The next chain key and the message key.
  pub kdf_ck : Bytes → Result SessionError (Bytes × Bytes)
  kdf_ck chain_key = do
    next_chain_key ←
        map_err crypto (derive primitives chain_key [] (codes "upm/v4/ratchet/chain-key") 32)
    message_key ←
        map_err crypto (derive primitives chain_key [] (codes "upm/v4/ratchet/message-key") 32)
    ok (next_chain_key, message_key)

  pub init_initiator :
      DeviceId → HandshakeResult → Bytes → Bytes → Result SessionError DoubleRatchetSession
  init_initiator peer_device handshake bob_initial_ratchet_public generated = do
    dh_output ← map_err crypto (agree primitives generated bob_initial_ratchet_public)
    keys ← kdf_rk handshake.root_key dh_output
    ok (record {
      protocol_version = current;
      peer_device = peer_device;
      root_key = keys.0;
      dh_self = generated;
      dh_self_public = primitives.x25519_public generated;
      dh_remote_public = some bob_initial_ratchet_public;
      sending_chain_key = some keys.1;
      receiving_chain_key = some handshake.receiving_chain_key;
      send_count = 0;
      recv_count = 0;
      prev_chain_len = 0;
      skipped = [];
    })

  unfoldable pub init_responder : DeviceId → HandshakeResult → Bytes → DoubleRatchetSession
  init_responder peer_device handshake my_signed_prekey = record {
    protocol_version = current;
    peer_device = peer_device;
    root_key = handshake.root_key;
    dh_self = my_signed_prekey;
    dh_self_public = primitives.x25519_public my_signed_prekey;
    dh_remote_public = none;
    sending_chain_key = none;
    receiving_chain_key = some handshake.receiving_chain_key;
    send_count = 0;
    recv_count = 0;
    prev_chain_len = 0;
    skipped = [];
  }
