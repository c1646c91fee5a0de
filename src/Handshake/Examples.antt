-- ===== src/Handshake/Examples.antt =====
-- The theorems at a concrete bundle, over the sample library.
use upmessenger.Base.{◌≡◌, refl, some, [], ◌∷◌, Bytes, ok, str_eq}
use upmessenger.Crypto.{verify, agree, derive}
use upmessenger.Handshake.{
  PreKeyBundle, InitiatorHandshake, signed_prekey_signature_message,
  one_time_prekey_signature_message, verify_one_time_prekey, verify_bundle, derive_chains,
  extend_agreed, initiator_ikm, initiate, respond,
}
use upmessenger.Handshake.Agreement.{Publishes, respond-initiate}
use upmessenger.Handshake.Bundles.{IsSigned, initiate-verified}
use upmessenger.Samples.{zeros, primitives, primitive_laws}

abbrev pub exchange : Bytes
exchange = 1 ∷ []

abbrev pub prekey : Bytes
prekey = 2 ∷ []

abbrev pub one_time : Bytes
one_time = 3 ∷ []

abbrev pub bundle : PreKeyBundle
bundle = record {
  identity_signing_public = 9 ∷ [];
  identity_exchange_public = exchange;
  signed_prekey_public = prekey;
  signed_prekey_signature = signed_prekey_signature_message exchange prekey;
  one_time_prekey_id = some (zeros 16);
  one_time_prekey_public = some one_time;
  one_time_prekey_signature = some (one_time_prekey_signature_message (zeros 16) one_time);
}

abbrev pub begun : InitiatorHandshake
begun = record {
  my_identity_exchange_public = 4 ∷ [];
  ephemeral_public = 5 ∷ [];
  result = record {
    root_key = zeros 32;
    sending_chain_key = zeros 32;
    receiving_chain_key = zeros 32;
  };
  bob_initial_ratchet_public = prekey;
  one_time_prekey_id = some (zeros 16);
}

pub initiates : initiate primitives (4 ∷ []) (5 ∷ []) bundle ≡ ok begun
unfolding initiate verify_bundle verify_one_time_prekey verify agree derive derive_chains
    extend_agreed initiator_ikm signed_prekey_signature_message one_time_prekey_signature_message
    str_eq
initiates = refl

published : Publishes primitives primitive_laws exchange prekey (some one_time) bundle
published = record { exchange_public = refl; signed_prekey_public = refl; one_time_public = refl }

respond-initiate_example :
    respond primitives exchange prekey (4 ∷ []) (5 ∷ []) (some one_time)
    ≡ ok (record {
      root_key = zeros 32;
      sending_chain_key = zeros 32;
      receiving_chain_key = zeros 32;
    })
respond-initiate_example =
    respond-initiate primitives primitive_laws (4 ∷ []) (5 ∷ []) exchange prekey (some one_time)
      bundle published begun initiates

initiate-verified_example :
    (verify primitives
        (9 ∷ [])
        (signed_prekey_signature_message exchange prekey)
        (signed_prekey_signature_message exchange prekey)
      ≡ ok tt)
    × IsSigned primitives
        (9 ∷ [])
        (some (zeros 16))
        (some one_time)
        (some (one_time_prekey_signature_message (zeros 16) one_time))
    × (begun.one_time_prekey_id ≡ some (zeros 16))
initiate-verified_example = initiate-verified primitives (4 ∷ []) (5 ∷ []) bundle begun initiates
