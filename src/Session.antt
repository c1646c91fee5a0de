-- ===== src/Session.antt =====
-- crates/upm-core/src/ratchet.rs: the operations on a session. Each takes the state and gives the state
-- back beside its result, also where it fails. The secret that `AgreementSecret::generate` draws in the
-- ratchet step is an argument. Counters are u32 values that wrap, as in a release build.
pub mod Skipping
pub mod Delivery
pub mod Reordering
pub mod Safety
pub mod Storage
pub mod Turns
pub mod Conversation
pub mod Dialogue
pub mod Beginning
mod Examples
mod Talks
use upmessenger.Base.{
  ℕ, zero, suc, ◌+◌, ◌-◌, ◌%◌, ◌^◌, ◌≡◌, Bool, true, false, not, ◌&&◌, Option, none, some, List, [],
  ◌∷◌, map, Bytes, Text, codes, str_eq, Result, ok, err, ok_or, map_err, length, take, drop, ltb,
  leb, ◌==◌, if◌then◌else◌,
}
use upmessenger.Base.State.{Exec, lift, pure, gets, modify, ◌>>=◌, ◌>>◌}
use upmessenger.Codec.{base64_encode, base64_decode}
use upmessenger.Crypto.{agree, encrypt as aead_encrypt, decrypt as aead_decrypt}
use upmessenger.Protocol.{ProtocolVersion, DeviceId, MessageId, MessageEnvelope}
use upmessenger.Ratchet.{
  DoubleRatchetSession, Library, RatchetHeader, WireMessage, SessionError, crypto, wire, replay,
  not_established, too_many_skipped, encoding, max_skip, lookup, insert, remove, kdf_rk, kdf_ck,
}

-- A step of an operation on the session.
abbrev pub Action : Type 0 → Type 0
Action A = Exec DoubleRatchetSession SessionError A

abbrev pub zero_nonce : Bytes
zero_nonce = 0 ∷ 0 ∷ 0 ∷ 0 ∷ 0 ∷ 0 ∷ 0 ∷ 0 ∷ 0 ∷ 0 ∷ 0 ∷ 0 ∷ []

-- `+= 1` on a u32
abbrev pub wrapping_inc : ℕ → ℕ
wrapping_inc n = (n + 1) % 2 ^ 32

-- Option<[u8; 32]> == Some(key)
pub is_some_eq : Option Bytes → Bytes → Bool
is_some_eq none key = false
is_some_eq (some k) key = str_eq k key

pub is_some : Option Bytes → Bool
is_some none = false
is_some (some k) = true

-- Option::unwrap_or
pub unwrap_or : Option Bytes → Bytes → Bytes
unwrap_or none d = d
unwrap_or (some k) d = k

module _ (lib : Library) where
  open lib use {primitives, header_to_vec, wire_to_vec, wire_from_slice}

  pub dh_ratchet_step : Bytes → Bytes → Action (Unit {0})
  dh_ratchet_step generated new_remote_public = do
    modify λ s. record s {
      prev_chain_len = s.send_count;
      send_count = 0;
      recv_count = 0;
      dh_remote_public = some new_remote_public;
    }
    dh_out_recv ← gets (λ s. map_err crypto (agree primitives s.dh_self new_remote_public))
    after_recv ← gets (λ s. kdf_rk lib s.root_key dh_out_recv)
    modify λ s. record s { root_key = after_recv.0; receiving_chain_key = some after_recv.1 }
    modify
        λ s. record s { dh_self = generated; dh_self_public = primitives.x25519_public generated }
    dh_out_send ← gets (λ s. map_err crypto (agree primitives s.dh_self new_remote_public))
    after_send ← gets (λ s. kdf_rk lib s.root_key dh_out_send)
    modify λ s. record s { root_key = after_send.0; sending_chain_key = some after_send.1 }

  -- One round of the `while` loop.
  pub skip_one : Bytes → Action (Unit {0})
  skip_one dh_pub = do
    chain_key ← gets (λ s. ok_or s.receiving_chain_key not_established)
    keys ← lift (kdf_ck lib chain_key)
    modify λ s. record s {
      receiving_chain_key = some keys.0;
      skipped = insert (dh_pub, s.recv_count) keys.1 s.skipped;
      recv_count = wrapping_inc s.recv_count;
    }

  -- `while self.recv_count < until`, with fuel for `until` rounds.
  pub skip_loop : ℕ → Bytes → ℕ → Action (Unit {0})
  unfolding skip_one
  skip_loop zero dh_pub until s = (ok tt, s)
  skip_loop (suc fuel) dh_pub until s =
      let rest = (skip_one dh_pub >> skip_loop fuel dh_pub until) s in
      if ltb s.recv_count until then rest else (ok tt, s)

  pub skip_receiving_keys : Bytes → ℕ → Action (Unit {0})
  skip_receiving_keys dh_pub until s =
      if ltb max_skip (until - s.recv_count)
      then (err too_many_skipped, s)
      else skip_loop until dh_pub until s

  -- The `if let Some(message_key)` on a key that was put aside.
  pub decrypt_skipped : RatchetHeader → Bytes → Bytes → Action Bytes
  decrypt_skipped header body message_key = do
    aad ← lift (ok_or (header_to_vec header) (wire encoding))
    plaintext ← lift (map_err crypto (aead_decrypt primitives message_key zero_nonce body aad))
    modify λ s. record s { skipped = remove (header.dh_pub, header.n) s.skipped }
    pure plaintext

  -- The `if` on a new ratchet key of the peer.
  pub follow_ratchet : Bytes → RatchetHeader → Action (Unit {0})
  follow_ratchet generated header s =
      if is_some_eq s.dh_remote_public header.dh_pub
      then (ok tt, s)
      else if is_some s.receiving_chain_key
      then (skip_receiving_keys (unwrap_or s.dh_remote_public header.dh_pub) header.pn
            >> dh_ratchet_step generated header.dh_pub)
          s
      else dh_ratchet_step generated header.dh_pub s

  -- The `match` on the message number.
  pub catch_up : RatchetHeader → Action (Unit {0})
  catch_up header s =
      if ltb s.recv_count header.n
      then skip_receiving_keys header.dh_pub header.n s
      else if ltb header.n s.recv_count
      then (err replay, s)
      else (ok tt, s)

  pub decrypt_next : RatchetHeader → Bytes → Action Bytes
  decrypt_next header body = do
    chain_key ← gets (λ s. ok_or s.receiving_chain_key not_established)
    keys ← lift (kdf_ck lib chain_key)
    aad ← lift (ok_or (header_to_vec header) (wire encoding))
    plaintext ← lift (map_err crypto (aead_decrypt primitives keys.1 zero_nonce body aad))
    modify
        λ s. record s { receiving_chain_key = some keys.0; recv_count = wrapping_inc s.recv_count }
    pure plaintext

  pub decrypt_current : Bytes → RatchetHeader → Bytes → Action Bytes
  decrypt_current generated header body = do
    follow_ratchet generated header
    catch_up header
    decrypt_next header body

  -- What follows the parsing of the wire message.
  pub decrypt_message : Bytes → RatchetHeader → Bytes → Action Bytes
  decrypt_message generated header body s = elim (lookup (header.dh_pub, header.n) s.skipped) [
    | some message_key ↦ decrypt_skipped header body message_key s
    | none ↦ decrypt_current generated header body s
  ]

  pub decrypt_inner : Bytes → Bytes → Action Bytes
  decrypt_inner generated ciphertext = do
    message ← lift (ok_or (wire_from_slice ciphertext) (wire encoding))
    body ← lift (ok_or (base64_decode message.ciphertext_base64) (wire encoding))
    decrypt_message generated message.header body

  pub encrypt : Bytes → Action Bytes
  encrypt plaintext = do
    chain_key ← gets (λ s. ok_or s.sending_chain_key not_established)
    keys ← lift (kdf_ck lib chain_key)
    modify λ s. record s { sending_chain_key = some keys.0 }
    header ←
        gets λ s. ok (record { dh_pub = s.dh_self_public; pn = s.prev_chain_len; n = s.send_count })
    modify λ s. record s { send_count = wrapping_inc s.send_count }
    aad ← lift (ok_or (header_to_vec header) (wire encoding))
    ciphertext ← lift (map_err crypto (aead_encrypt primitives keys.1 zero_nonce plaintext aad))
    lift (
        ok_or
          (wire_to_vec (record { header = header; ciphertext_base64 = base64_encode ciphertext }))
          (wire encoding))

  -- `*self = candidate` only after the candidate has decrypted.
  pub commit :
      DoubleRatchetSession
      → Result SessionError Bytes × DoubleRatchetSession
      → Result SessionError Bytes × DoubleRatchetSession
  commit s (ok plaintext, candidate) = (ok plaintext, candidate)
  commit s (err e, candidate) = (err e, s)

  pub decrypt : Bytes → Bytes → Action Bytes
  unfolding commit
  decrypt generated ciphertext s = commit s (decrypt_inner generated ciphertext s)

  pub encrypt_envelope : MessageId → DeviceId → ℕ → ℕ → Bytes → Action MessageEnvelope
  encrypt_envelope message_id sender_device server_timestamp expires_at plaintext = do
    ciphertext ← encrypt plaintext
    gets λ s. ok (record {
      protocol_version = s.protocol_version;
      message_id = message_id;
      sender_device_id = sender_device;
      recipient_device_id = s.peer_device;
      ciphertext = ciphertext;
      server_timestamp = server_timestamp;
      expires_at = expires_at;
    })
