-- ===== src/Handshake/Agreement.antt =====
-- Both sides of the handshake derive the same keys.
use mathlib.Core.Option
use mathlib.Core.Path.{fun_ext}
use upmessenger.Base.{◌≡◌, refl, Option, none, some, arith, Bytes, ok, map_err, >>=-eq-ok}
use upmessenger.Crypto.{Primitives, Laws, agree}
use upmessenger.Handshake.{
  PreKeyBundle, InitiatorHandshake, verify_bundle, derive_chains, crypto, extend_agreed,
  extend_one_time, initiator_ikm, responder_ikm, initiate, respond,
}

module _ (p : Primitives) (laws : Laws p) where
  open p use {x25519_public}

  pub agree_comm : (a b : Bytes) → agree p a (x25519_public b) ≡ agree p b (x25519_public a)
  unfolding agree
  agree_comm a b = rw (laws.dh_comm a b)

  extend-agree :
      (opk : Option Bytes) (ephemeral ikm : Bytes)
      → extend_one_time p opk (x25519_public ephemeral) ikm
        ≡ extend_agreed p ephemeral (Option.map x25519_public opk) ikm
  unfolding extend_one_time extend_agreed
  extend-agree none ephemeral ikm = refl
  extend-agree (some opk) ephemeral ikm = rw (agree_comm opk ephemeral)

  -- What the responder holds against what the bundle publishes.
  pub record Publishes (exchange signed_prekey : Bytes) (opk : Option Bytes) (b : PreKeyBundle)
      : Type 0 where
    pub exchange_public : b.identity_exchange_public ≡ x25519_public exchange
    pub signed_prekey_public : b.signed_prekey_public ≡ x25519_public signed_prekey
    pub one_time_public : b.one_time_prekey_public ≡ Option.map x25519_public opk

  module _ (alice ephemeral exchange signed_prekey : Bytes) (opk : Option Bytes) (b : PreKeyBundle)
      (published : Publishes exchange signed_prekey opk b) where
    ikm-agree :
        responder_ikm p exchange signed_prekey (x25519_public alice) (x25519_public ephemeral) opk
        ≡ initiator_ikm p alice ephemeral b
    unfolding responder_ikm initiator_ikm
    ikm-agree = rw (
      published.exchange_public,
      published.signed_prekey_public,
      published.one_time_public,
      agree_comm signed_prekey alice,
      agree_comm exchange ephemeral,
      agree_comm signed_prekey ephemeral,
      fun_ext (λ ikm. extend-agree opk ephemeral ikm),
    )

    -- Whenever the initiator's side succeeds against the responder's published bundle, the responder's side
    -- succeeds on the two public keys that it is sent, and gets the same root key and the same two chains
    -- with the directions exchanged.
    pub respond-initiate :
        (h : InitiatorHandshake)
        → initiate p alice ephemeral b ≡ ok h
        → respond p exchange signed_prekey h.my_identity_exchange_public h.ephemeral_public opk
          ≡ ok (record {
            root_key = h.result.root_key;
            sending_chain_key = h.result.receiving_chain_key;
            receiving_chain_key = h.result.sending_chain_key;
          })
    unfolding initiate respond
    respond-initiate h e =
        let (_, _, e1) = >>=-eq-ok (verify_bundle p b) _ e in
        let (ikm, ei, e2) = >>=-eq-ok (map_err crypto (initiator_ikm p alice ephemeral b)) _ e1 in
        let (chains, ec, e3) = >>=-eq-ok (map_err crypto (derive_chains p ikm)) _ e2 in
        ground (arith, ikm-agree, ei, ec, e3)

  pub initiate-prekey :
      (alice ephemeral : Bytes) (b : PreKeyBundle) (h : InitiatorHandshake)
      → initiate p alice ephemeral b ≡ ok h
      → h.bob_initial_ratchet_public ≡ b.signed_prekey_public
  unfolding initiate
  initiate-prekey alice ephemeral b h e =
      let (_, _, e1) = >>=-eq-ok (verify_bundle p b) _ e in
      let (ikm, _, e2) = >>=-eq-ok (map_err crypto (initiator_ikm p alice ephemeral b)) _ e1 in
      let (chains, _, e3) = >>=-eq-ok (map_err crypto (derive_chains p ikm)) _ e2 in
      ground (arith, e3)
