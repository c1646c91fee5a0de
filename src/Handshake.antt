-- ===== src/Handshake.antt =====
-- crates/upm-core/src/handshake.rs: the X3DH-style key agreement between an initiator, who has the
-- published bundle of the responder, and the responder. The ephemeral secret that `initiate` generates
-- is an argument.
pub mod Agreement
pub mod Bundles
pub mod Examples
use upmessenger.Base.{
  ℕ, Option, none, some, ◌++◌, Bytes, codes, Result, ok, err, map_err, ◌>>=◌, ◌>>◌,
}
use upmessenger.Crypto.{Primitives, CryptoError, verify, agree, derive}
use upmessenger.Protocol.{PreKeyId}

pub data HandshakeError : Type 0 where
  invalid_prekey_signature : HandshakeError
  invalid_one_time_prekey_signature : HandshakeError
  invalid_one_time_prekey_bundle : HandshakeError
  crypto : CryptoError → HandshakeError

pub record PreKeyBundle : Type 0 where
  pub identity_signing_public : Bytes
  pub identity_exchange_public : Bytes
  pub signed_prekey_public : Bytes
  pub signed_prekey_signature : Bytes
  pub one_time_prekey_id : Option PreKeyId
  pub one_time_prekey_public : Option Bytes
  pub one_time_prekey_signature : Option Bytes

unfoldable pub signed_prekey_signature_message : Bytes → Bytes → Bytes
signed_prekey_signature_message identity_exchange_public signed_prekey_public =
    codes "UPM/v4/signed-prekey/" ++ (identity_exchange_public ++ signed_prekey_public)

pub one_time_prekey_signature_message : PreKeyId → Bytes → Bytes
one_time_prekey_signature_message id public_key =
    codes "UPM/v4/one-time-prekey/" ++ (id ++ public_key)

pub record HandshakeResult : Type 0 where
  pub root_key : Bytes
  pub sending_chain_key : Bytes
  pub receiving_chain_key : Bytes

pub record InitiatorHandshake : Type 0 where
  pub my_identity_exchange_public : Bytes
  pub ephemeral_public : Bytes
  pub result : HandshakeResult
  pub bob_initial_ratchet_public : Bytes
  pub one_time_prekey_id : Option PreKeyId

pub record DerivedChains : Type 0 where
  pub root_key : Bytes
  pub chain_a_to_b : Bytes
  pub chain_b_to_a : Bytes

module _ (p : Primitives) where
  open p use {x25519_public}

  -- The `match` on the three one-time fields.
  unfoldable pub verify_one_time_prekey :
      Bytes → Option PreKeyId → Option Bytes → Option Bytes → Result HandshakeError (Unit {0})
  verify_one_time_prekey signing none none none = ok tt
  verify_one_time_prekey signing (some id) (some public_key) (some signature) =
      map_err (λ e. invalid_one_time_prekey_signature)
        (verify p signing (one_time_prekey_signature_message id public_key) signature)
  verify_one_time_prekey signing _ _ _ = err invalid_one_time_prekey_bundle

  unfoldable pub verify_bundle : PreKeyBundle → Result HandshakeError (Unit {0})
  verify_bundle b = do
    map_err (λ e. invalid_prekey_signature)
        (verify p b.identity_signing_public
          (signed_prekey_signature_message b.identity_exchange_public b.signed_prekey_public)
          b.signed_prekey_signature)
    verify_one_time_prekey b.identity_signing_public b.one_time_prekey_id b.one_time_prekey_public
        b.one_time_prekey_signature

  pub derive_chains : Bytes → Result CryptoError DerivedChains
  derive_chains ikm = do
    let salt = codes "upm/v4/x3dh/salt"
    root_key ← derive p salt ikm (codes "upm/v4/x3dh/root-key") 32
    a_to_b ← derive p salt ikm (codes "upm/v4/x3dh/chain-a-to-b") 32
    b_to_a ← derive p salt ikm (codes "upm/v4/x3dh/chain-b-to-a") 32
    ok (record { root_key = root_key; chain_a_to_b = a_to_b; chain_b_to_a = b_to_a })

  -- `ikm.extend_from_slice(..)` under `if let Some(..)`: nothing, or one more agreement.
  pub extend_agreed : Bytes → Option Bytes → Bytes → Result CryptoError Bytes
  extend_agreed secret none ikm = ok ikm
  extend_agreed secret (some public_key) ikm = do dh ← agree p secret public_key; ok (ikm ++ dh)

  pub initiator_ikm : Bytes → Bytes → PreKeyBundle → Result CryptoError Bytes
  initiator_ikm my_identity_exchange ephemeral b = do
    dh1 ← agree p my_identity_exchange b.signed_prekey_public
    dh2 ← agree p ephemeral b.identity_exchange_public
    dh3 ← agree p ephemeral b.signed_prekey_public
    extend_agreed ephemeral b.one_time_prekey_public (dh1 ++ (dh2 ++ dh3))

  pub initiate : Bytes → Bytes → PreKeyBundle → Result HandshakeError InitiatorHandshake
  initiate my_identity_exchange ephemeral b = do
    verify_bundle b
    ikm ← map_err crypto (initiator_ikm my_identity_exchange ephemeral b)
    chains ← map_err crypto (derive_chains ikm)
    ok (record {
      my_identity_exchange_public = x25519_public my_identity_exchange;
      ephemeral_public = x25519_public ephemeral;
      result = record {
        root_key = chains.root_key;
        sending_chain_key = chains.chain_a_to_b;
        receiving_chain_key = chains.chain_b_to_a;
      };
      bob_initial_ratchet_public = b.signed_prekey_public;
      one_time_prekey_id = b.one_time_prekey_id;
    })

  -- The responder's `if let Some(opk)`.
  pub extend_one_time : Option Bytes → Bytes → Bytes → Result CryptoError Bytes
  extend_one_time none their_ephemeral ikm = ok ikm
  extend_one_time (some opk) their_ephemeral ikm = do
    dh ← agree p opk their_ephemeral
    ok (ikm ++ dh)

  pub responder_ikm : Bytes → Bytes → Bytes → Bytes → Option Bytes → Result CryptoError Bytes
  responder_ikm my_identity_exchange my_signed_prekey their_identity their_ephemeral opk = do
    dh1 ← agree p my_signed_prekey their_identity
    dh2 ← agree p my_identity_exchange their_ephemeral
    dh3 ← agree p my_signed_prekey their_ephemeral
    extend_one_time opk their_ephemeral (dh1 ++ (dh2 ++ dh3))

  pub respond : Bytes → Bytes → Bytes → Bytes → Option Bytes → Result HandshakeError HandshakeResult
  respond my_identity_exchange my_signed_prekey their_identity their_ephemeral opk = do
    ikm ←
        map_err crypto
          (responder_ikm my_identity_exchange my_signed_prekey their_identity their_ephemeral opk)
    chains ← map_err crypto (derive_chains ikm)
    ok (record {
      root_key = chains.root_key;
      sending_chain_key = chains.chain_b_to_a;
      receiving_chain_key = chains.chain_a_to_b;
    })
