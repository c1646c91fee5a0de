-- ===== src/Session/Dialogue.antt =====
-- A whole conversation, from the handshake on: each message is delivered before the next one is written.
use upmessenger.Base.{
  ◌+◌, ◌^◌, ◌<◌, ◌≡◌, refl, ap, ◌∙◌, true, false, some, inl, inr, ◌⊎◌, arith, Bytes, AreBytes, ok,
  List, [], ◌∷◌, map, length, str_eq, Result,
}
use upmessenger.Codec.{base64_encode}
use upmessenger.Crypto.{agree, encrypt as aead_encrypt}
use upmessenger.Ratchet.{Library, DoubleRatchetSession, SessionError, RatchetHeader, WireMessage}
use upmessenger.Ratchet.Derivation.{LibraryLaws, message_key_of, kdf_ck-step}
use upmessenger.Session.{zero_nonce, encrypt}
use upmessenger.Session.Delivery.{next_header}
use upmessenger.Session.Conversation.{Silent, Speaking, Heard, deliver, hear_new, hear_next}

-- What is said: by whom, the ratchet secret that the listener draws should the key be new, and the text.
pub data Said : Type 0 where
  initiator responder : Bytes → Bytes → Said

abbrev pub drawn : Said → Bytes
drawn (initiator g m) = g
drawn (responder g m) = g

abbrev pub plaintext_of : Said → Bytes
plaintext_of (initiator g m) = m
plaintext_of (responder g m) = m

-- The formats can be written, ChaCha20-Poly1305 takes a message of up to 2^32 - 1 bytes, and a public key
-- that was computed from a secret is contributory.
pub record Works (lib : Library) : Type 0 where
  pub header_written : (h : RatchetHeader) → (v : Bytes) × (lib.header_to_vec h ≡ some v)
  pub wire_written : (m : WireMessage) → (v : Bytes) × (lib.wire_to_vec m ≡ some v)
  pub sealed :
      (key nonce message aad : Bytes)
      → AreBytes message
      → length message < 2 ^ 32
      → (v : Bytes) × (lib.primitives.seal key nonce message aad ≡ some v)
  pub contributory :
      (a b : Bytes)
      → lib.primitives.was_contributory
          (lib.primitives.diffie_hellman a (lib.primitives.x25519_public b))
        ≡ true

module _ (lib : Library) where
  open lib use {primitives}

  -- What each listener gets, message after message.
  pub run :
      List Said → DoubleRatchetSession → DoubleRatchetSession → List (Result SessionError Bytes)
  run [] a b = []
  run (initiator g m ∷ said) a b =
      let (heard, (a', b')) = deliver lib g m a b in heard ∷ run said a' b'
  run (responder g m ∷ said) a b =
      let (heard, (b', a')) = deliver lib g m b a in heard ∷ run said a' b'

  -- The secrets to be drawn do not give the ratchet key `k`.
  unfoldable pub Apart : Bytes → List Said → Type 0
  Apart k [] = Unit
  Apart k (e ∷ said) = (str_eq k (primitives.x25519_public (drawn e)) ≡ false) × Apart k said

  -- No secret is drawn twice, and the texts are bytes of a size that can be sealed.
  unfoldable pub Fresh : List Said → Type 0
  Fresh [] = Unit
  Fresh (e ∷ said) =
      (AreBytes (plaintext_of e) × (length (plaintext_of e) < 2 ^ 32))
      × (Apart (primitives.x25519_public (drawn e)) said × Fresh said)

  -- The counter has room for all that is said, and the key is not drawn again.
  pub record Room (said : List Said) (s : DoubleRatchetSession) : Type 0 where
    pub count : s.send_count + length said < 2 ^ 32
    pub apart : Apart s.dh_self_public said

  module _ (laws : LibraryLaws lib) (works : Works lib) where
    encrypt-ok :
        (plaintext ck : Bytes) (s : DoubleRatchetSession)
        → s.sending_chain_key ≡ some ck
        → AreBytes plaintext
        → length plaintext < 2 ^ 32
        → (w : Bytes) × ((encrypt lib plaintext s).0 ≡ ok w)
    unfolding encrypt aead_encrypt
    encrypt-ok plaintext ck s e bytes short =
        let (aad, ea) = works.header_written (next_header lib s) in
        let (body, eb) =
          works.sealed (message_key_of lib ck) zero_nonce plaintext aad bytes short in
        let (w, ew) =
          works.wire_written
            (record { header = next_header lib s; ciphertext_base64 = base64_encode body }) in
        (w, ground (arith, kdf_ck-step lib laws ck))

    agree-ok :
        (g secret : Bytes)
        → agree primitives g (primitives.x25519_public secret)
          ≡ ok (primitives.diffie_hellman g (primitives.x25519_public secret))
    unfolding agree
    agree-ok g secret = rw (works.contributory g secret) refl

    counters_left :
        (e : Said) (said : List Said) (a b : DoubleRatchetSession)
        (h : Heard lib (drawn e) (plaintext_of e) a b)
        → Fresh (e ∷ said)
        → Room (e ∷ said) a
        → Room (e ∷ said) b
        → Room said h.speaker × Room said h.listener
    unfolding Fresh Apart
    counters_left e said a b h f ra rb = (
      record { count = omega (arith, h.counted, ra.count); apart = rw (h.same_key) (ra.apart).1 },
      elim (h.listener_key) [
        | inl (n, k) ↦ record { count = omega (arith, n, rb.count); apart = rw k (rb.apart).1 }
        | inr (n, k) ↦ record { count = omega (arith, n, rb.count); apart = rw k (f.1.0) }
      ],
    )

    hear :
        (e : Said) (said : List Said) (a b : DoubleRatchetSession)
        → Speaking lib a b ⊎ Silent lib a b
        → Fresh (e ∷ said)
        → Room (e ∷ said) a
        → Room (e ∷ said) b
        → Heard lib (drawn e) (plaintext_of e) a b
    unfolding Fresh Apart
    hear e said a b (inl s) f ra rb =
        let ((bytes, short), _) = f in
        let (w, sends) = encrypt-ok (plaintext_of e) _ a s.linked.sending bytes short in
        hear_next lib laws (drawn e) (plaintext_of e) w a b sends (omega (arith, ra.count)) s
    hear e said a b (inr s) f ra rb =
        let ((bytes, short), _) = f in
        let (w, sends) = encrypt-ok (plaintext_of e) _ a s.turned.sending bytes short in
        let agreed =
          ap (agree primitives (drawn e)) s.tidy.0.own_public ∙ agree-ok (drawn e) a.dh_self in
        hear_new lib laws (drawn e) (plaintext_of e) w a b sends (omega (arith, ra.count)) _ s
          agreed (rb.apart).0 (omega (arith, rb.count))

    may_speak :
        {a b : DoubleRatchetSession}
        → Speaking lib a b ⊎ Speaking lib b a
        → Speaking lib a b ⊎ Silent lib a b
    may_speak (inl s) = inl s
    may_speak (inr s) = inr s.answer

    turn_round :
        {a b : DoubleRatchetSession}
        → Speaking lib a b ⊎ Speaking lib b a
        → Speaking lib b a ⊎ Speaking lib a b
    turn_round (inl s) = inr s
    turn_round (inr s) = inl s

    run-Speaking :
        (said : List Said) (a b : DoubleRatchetSession)
        → Speaking lib a b ⊎ Speaking lib b a
        → Fresh said
        → Room said a
        → Room said b
        → run said a b ≡ map (λ e. ok (plaintext_of e)) said
    unfolding run Fresh
    run-Speaking [] a b s f ra rb = refl
    run-Speaking (initiator g m ∷ said) a b s f ra rb =
        let h = hear (initiator g m) said a b (may_speak s) f ra rb in
        let (ra', rb') = counters_left (initiator g m) said a b h f ra rb in
        rw (run, h.delivered)
          (ap (λ rest. ok m ∷ rest)
            (run-Speaking said h.speaker h.listener (inl h.speaking) f.1.1 ra' rb'))
    run-Speaking (responder g m ∷ said) a b s f ra rb =
        let h = hear (responder g m) said b a (may_speak (turn_round s)) f rb ra in
        let (rb', ra') = counters_left (responder g m) said b a h f rb ra in
        rw (run, h.delivered)
          (ap (λ rest. ok m ∷ rest)
            (run-Speaking said h.listener h.speaker (inr h.speaking) f.1.1 ra' rb'))

    pub run-Silent :
        (g m : Bytes) (said : List Said) (a b : DoubleRatchetSession)
        → Silent lib a b
        → Fresh (initiator g m ∷ said)
        → Room (initiator g m ∷ said) a
        → Room (initiator g m ∷ said) b
        → run (initiator g m ∷ said) a b ≡ map (λ e. ok (plaintext_of e)) (initiator g m ∷ said)
    unfolding run Fresh
    run-Silent g m said a b s f ra rb =
        let h = hear (initiator g m) said a b (inr s) f ra rb in
        let (ra', rb') = counters_left (initiator g m) said a b h f ra rb in
        rw (run, h.delivered)
          (ap (λ rest. ok m ∷ rest)
            (run-Speaking said h.speaker h.listener (inl h.speaking) f.1.1 ra' rb'))
