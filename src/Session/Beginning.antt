-- ===== src/Session/Beginning.antt =====
-- The handshake and the first states of both sessions.
use upmessenger.Base.{◌^◌, ◌<◌, ◌≡◌, refl, ◌∙◌, arith, Bytes, ok, Option, List, ◌∷◌, map, length}
use upmessenger.Crypto.{agree}
use upmessenger.Handshake.{PreKeyBundle, InitiatorHandshake, HandshakeResult, initiate, respond}
use upmessenger.Handshake.Agreement.{Publishes, agree_comm, respond-initiate, initiate-prekey}
use upmessenger.Protocol.{DeviceId}
use upmessenger.Ratchet.{Library, DoubleRatchetSession, init_initiator, init_responder, lookup}
use upmessenger.Ratchet.Derivation.{LibraryLaws, root_step}
use upmessenger.Ratchet.Start.{initiated, init_initiator-eq}
use upmessenger.Session.{is_some_eq}
use upmessenger.Session.Conversation.{Silent}
use upmessenger.Session.Dialogue.{
  Said, initiator, plaintext_of, Works, run, Apart, Fresh, run-Silent,
}

module _ (lib : Library) (laws : LibraryLaws lib) where
  open lib use {primitives}

  -- With the same root key on both sides and the chains exchanged, the initiator has the word.
  initiated-Silent :
      (bob_device alice_device : DeviceId) (r r' : HandshakeResult) (gen spk dh : Bytes)
      → r.root_key ≡ r'.root_key
      → agree primitives gen (primitives.x25519_public spk) ≡ ok dh
      → Silent lib
          (initiated lib laws bob_device r (primitives.x25519_public spk) gen dh)
          (init_responder lib alice_device r' spk)
  unfolding init_responder is_some_eq lookup
  initiated-Silent bob_device alice_device r r' gen spk dh e agreed = record {
    ck = (root_step lib r.root_key dh).1;
    rck = r'.receiving_chain_key;
    back = r.receiving_chain_key;
    turned = record {
      secret = dh;
      agreed = agree_comm primitives laws.primitive_laws spk gen ∙ agreed;
      root = rw (← e) refl;
      sending = refl;
      first = refl;
      receiving = refl;
      complete = refl;
      small = omega arith;
      new_key = refl;
      unseen = λ m. refl;
    };
    listens = refl;
    remote = refl;
    heard = refl;
    tidy = (
      record { own_public = refl; nothing_skipped = refl },
      record { own_public = refl; nothing_skipped = refl },
    );
  }

  module _ (works : Works lib) (alice ephemeral exchange signed_prekey : Bytes) (opk : Option Bytes)
      (b : PreKeyBundle) (h : InitiatorHandshake) (bob_device alice_device : DeviceId)
      (generated : Bytes) (a : DoubleRatchetSession) where
    -- An initiator who has completed the handshake against the responder's published bundle and has set up her
    -- session speaks first, and then both say up to 2^32 - 1 messages in all, in any order, each delivered
    -- before the next one is written, with ratchet secrets that are all different. Where the libraries
    -- work as documented, the responder's side of the handshake succeeds, and every listener gets
    -- exactly the text that was said.
    pub understood :
        (g m : Bytes) (said : List Said)
        → Publishes primitives laws.primitive_laws exchange signed_prekey opk b
        → initiate primitives alice ephemeral b ≡ ok h
        → init_initiator lib bob_device h.result h.bob_initial_ratchet_public generated ≡ ok a
        → Fresh lib (initiator g m ∷ said)
        → Apart lib (primitives.x25519_public generated) (initiator g m ∷ said)
        → Apart lib (primitives.x25519_public signed_prekey) (initiator g m ∷ said)
        → length (initiator g m ∷ said) < 2 ^ 32
        → (r : HandshakeResult) × (respond primitives exchange signed_prekey
              h.my_identity_exchange_public h.ephemeral_public opk
            ≡ ok r)
          × (run lib (initiator g m ∷ said) a (init_responder lib alice_device r signed_prekey)
              ≡ map (λ e. ok (plaintext_of e)) (initiator g m ∷ said))
    unfolding init_responder
    understood g m said published started ready fresh apart apart' few =
        let prekey =
          initiate-prekey primitives laws.primitive_laws alice ephemeral b h started
          ∙ published.signed_prekey_public in
        let (dh, agreed, e) =
          init_initiator-eq lib laws bob_device h.result (primitives.x25519_public signed_prekey)
            generated a (rw prekey at ready) in
        let r : HandshakeResult = record {
          root_key = h.result.root_key;
          sending_chain_key = h.result.receiving_chain_key;
          receiving_chain_key = h.result.sending_chain_key;
        } in
        (
          r,
          respond-initiate primitives laws.primitive_laws alice ephemeral exchange signed_prekey opk
              b published h started,
          rw (← e) (
              run-Silent lib laws works g m said _ _
                (initiated-Silent bob_device alice_device h.result r generated signed_prekey dh refl
                  agreed)
                fresh (record { count = omega (arith, few); apart = apart })
                (record { count = omega (arith, few); apart = apart' })),
        )
