-- ===== src/Ratchet/Start.antt =====
-- The initiator's first state, as a record.
use upmessenger.Base.{◌≡◌, some, arith, Bytes, ok, map_err, >>=-eq-ok}
use upmessenger.Crypto.{agree}
use upmessenger.Handshake.{HandshakeResult}
use upmessenger.Protocol.{DeviceId}
use upmessenger.Ratchet.{Library, DoubleRatchetSession, init_initiator, init_responder, crypto}
use upmessenger.Ratchet.Derivation.{LibraryLaws, root_step, kdf_rk-step}

module _ (lib : Library) (laws : LibraryLaws lib) where
  open lib use {primitives}

  -- What `init_initiator` gives, as a record.
  abbrev pub initiated : DeviceId → HandshakeResult → Bytes → Bytes → Bytes → DoubleRatchetSession
  initiated peer r their_public generated dh =
      let (root, sending) = root_step lib r.root_key dh in
      record (init_responder lib peer r generated) {
        root_key = root;
        dh_remote_public = some their_public;
        sending_chain_key = some sending;
      }

  pub init_initiator-eq :
      (peer : DeviceId) (r : HandshakeResult) (their_public generated : Bytes)
      (a : DoubleRatchetSession)
      → init_initiator lib peer r their_public generated ≡ ok a
      → (dh : Bytes) × (agree primitives generated their_public ≡ ok dh)
        × (initiated peer r their_public generated dh ≡ a)
  unfolding init_initiator init_responder
  init_initiator-eq peer r their_public generated a e =
      let (dh, e1, e2) = >>=-eq-ok (map_err crypto (agree primitives generated their_public)) _ e in
      (dh, ground (arith, e1), ground (arith, kdf_rk-step lib laws r.root_key dh, e2))

  pub init_initiator-initiated :
      (peer : DeviceId) (r : HandshakeResult) (their_public generated dh : Bytes)
      → agree primitives generated their_public ≡ ok dh
      → init_initiator lib peer r their_public generated
        ≡ ok (initiated peer r their_public generated dh)
  unfolding init_initiator init_responder
  init_initiator-initiated peer r their_public generated dh e =
      rw (e, kdf_rk-step lib laws r.root_key dh)
