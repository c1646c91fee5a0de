-- ===== src/Session/Conversation.antt =====
-- Two sessions from the handshake on: who may speak, and what the listener gets.
use upmessenger.Base.{
  ◌+◌, ◌^◌, ◌<◌, ◌≡◌, refl, ◌∙◌, false, some, arith, Bytes, ok, err, str_eq_refl, [], str_eq,
  Result, inl, inr, ◌⊎◌,
}
use upmessenger.Crypto.{agree}
use upmessenger.Handshake.Agreement.{agree_comm}
use upmessenger.Ratchet.{Library, DoubleRatchetSession, lookup, SessionError}
use upmessenger.Ratchet.Derivation.{LibraryLaws, chain_step, chain_after, root_step}
use upmessenger.Session.{is_some_eq, encrypt, decrypt}
use upmessenger.Session.Skipping.{stash}
use upmessenger.Session.Delivery.{next_header, encrypt-Carries, decrypt-ahead, received, sent}
use upmessenger.Session.Reordering.{Linked}
use upmessenger.Session.Turns.{Turned, stepped, decrypt-stepped}

module _ (lib : Library) where
  open lib use {primitives}

  -- A session that has put no key aside, and holds its own public key.
  pub record Tidy (s : DoubleRatchetSession) : Type 0 where
    pub own_public : s.dh_self_public ≡ primitives.x25519_public s.dh_self
    pub nothing_skipped : s.skipped ≡ []

  -- `a` holds a new key under which it has said nothing, and has heard all that `b` said.
  pub record Silent (a b : DoubleRatchetSession) : Type 0 where
    pub ck : Bytes
    pub rck : Bytes
    pub back : Bytes
    pub turned : Turned lib a b ck rck
    pub listens : a.receiving_chain_key ≡ some back
    pub remote : a.dh_remote_public ≡ some b.dh_self_public
    pub heard : a.recv_count ≡ b.send_count
    pub tidy : Tidy a × Tidy b

  -- `b` has heard all that `a` said, and may answer.
  pub record Speaking (a b : DoubleRatchetSession) : Type 0 where
    pub ck : Bytes
    pub linked : Linked lib 0 ck a b
    pub answer : Silent b a

  -- What the listener makes of what was sent.
  handed :
      Bytes
      → DoubleRatchetSession
      → Result SessionError Bytes × DoubleRatchetSession
      → Result SessionError Bytes × (DoubleRatchetSession × DoubleRatchetSession)
  handed g b (ok w, a) = let (heard, b') = decrypt lib g w b in (heard, (a, b'))
  handed g b (err e, a) = (err e, (a, b))

  -- One message that is sent and delivered: what the listener gets, and the two states.
  pub deliver :
      Bytes
      → Bytes
      → DoubleRatchetSession
      → DoubleRatchetSession
      → Result SessionError Bytes × (DoubleRatchetSession × DoubleRatchetSession)
  unfolding handed
  deliver g plaintext a b = handed g b (encrypt lib plaintext a)

  delivered-ok :
      (g : Bytes) {plaintext w : Bytes} (a b : DoubleRatchetSession) {a' b' : DoubleRatchetSession}
      → encrypt lib plaintext a ≡ (ok w, a')
      → decrypt lib g w b ≡ (ok plaintext, b')
      → deliver g plaintext a b ≡ (ok plaintext, (a', b'))
  unfolding deliver handed
  delivered-ok g a b e d = rw (e, handed, d) refl

  -- What a message does to the two counters and ratchet keys that later messages depend on.
  pub record Heard (g plaintext : Bytes) (a b : DoubleRatchetSession) : Type 0 where
    pub speaker : DoubleRatchetSession
    pub listener : DoubleRatchetSession
    pub delivered : deliver g plaintext a b ≡ (ok plaintext, (speaker, listener))
    pub speaking : Speaking speaker listener
    pub counted : speaker.send_count ≡ a.send_count + 1
    pub same_key : speaker.dh_self_public ≡ a.dh_self_public
    pub listener_key :
        ((listener.send_count ≡ b.send_count) × (listener.dh_self_public ≡ b.dh_self_public))
        ⊎ ((listener.send_count ≡ 0) × (listener.dh_self_public ≡ primitives.x25519_public g))

  module _ (laws : LibraryLaws lib) (g plaintext w : Bytes) (a b : DoubleRatchetSession)
      (sends : (encrypt lib plaintext a).0 ≡ ok w) (small : a.send_count + 1 < 2 ^ 32) where
    -- The first message under a new key, after which the listener has a new key too.
    pub hear_new :
        (dh' : Bytes)
        → Silent a b
        → agree primitives g a.dh_self_public ≡ ok dh'
        → str_eq b.dh_self_public (primitives.x25519_public g) ≡ false
        → b.send_count < 2 ^ 32
        → Heard g plaintext a b
    unfolding stepped stash is_some_eq chain_after lookup
    hear_new dh' s agreed fresh bound =
        let t = s.turned in
        let (e, d) = decrypt-stepped lib laws g dh' plaintext w a b t agreed sends in
        let (tidy_a, tidy_b) = s.tidy in
        let back : agree primitives a.dh_self (primitives.x25519_public g) ≡ ok dh' =
          agree_comm primitives laws.primitive_laws a.dh_self g ∙ rw (← tidy_a.own_public) agreed in
        record {
          speaker = sent lib s.ck a;
          listener =
              received lib a.dh_self_public 0 s.ck (stepped lib g a.dh_self_public t.secret dh' b);
          delivered = delivered-ok g a b e d;
          speaking = record {
            ck = chain_step lib s.ck;
            linked = record {
              sending = refl;
              receiving = refl;
              remote = str_eq_refl a.dh_self_public;
              number = omega (arith, t.first);
              unseen = λ m _. t.unseen m;
            };
            answer = record {
              ck = (root_step lib (root_step lib b.root_key t.secret).0 dh').1;
              rck = s.back;
              back = chain_step lib s.ck;
              turned = record {
                secret = dh';
                agreed = back;
                root = rw (t.root) refl;
                sending = refl;
                first = refl;
                receiving = s.listens;
                complete = s.heard;
                small = bound;
                new_key = rw (s.remote) fresh;
                unseen = λ m. rw (tidy_a.nothing_skipped) refl;
              };
              listens = refl;
              remote = refl;
              heard = omega (arith, t.first);
              tidy = (
                record { own_public = refl; nothing_skipped = tidy_b.nothing_skipped },
                record { own_public = tidy_a.own_public; nothing_skipped = tidy_a.nothing_skipped },
              );
            };
          };
          counted = omega arith;
          same_key = refl;
          listener_key = inr (refl, refl);
        }

    -- A further message under the same key.
    pub hear_next : Speaking a b → Heard g plaintext a b
    unfolding stash chain_after lookup
    hear_next s =
        let l = s.linked in
        let t = s.answer.turned in
        let (tidy_b, tidy_a) = s.answer.tidy in
        let (c, e) = encrypt-Carries lib laws plaintext w s.ck a l.sending sends in
        let d =
          decrypt-ahead lib laws g plaintext w s.ck (next_header lib a) b 0 l.receiving c l.remote
            (rw (tidy_b.nothing_skipped) refl) l.number (omega arith) small in
        record {
          speaker = sent lib s.ck a;
          listener = received lib a.dh_self_public 0 s.ck b;
          delivered = delivered-ok g a b e d;
          speaking = record {
            ck = chain_step lib s.ck;
            linked = record {
              sending = refl;
              receiving = refl;
              remote = l.remote;
              number = omega (arith, l.number);
              unseen = λ m _. rw (tidy_b.nothing_skipped) refl;
            };
            answer = record {
              ck = s.answer.ck;
              rck = s.answer.rck;
              back = chain_step lib s.ck;
              turned = record {
                secret = t.secret;
                agreed = t.agreed;
                root = t.root;
                sending = t.sending;
                first = t.first;
                receiving = t.receiving;
                complete = t.complete;
                small = t.small;
                new_key = t.new_key;
                unseen = t.unseen;
              };
              listens = refl;
              remote = s.answer.remote;
              heard = omega (arith, l.number);
              tidy = (
                record { own_public = tidy_b.own_public; nothing_skipped = tidy_b.nothing_skipped },
                record { own_public = tidy_a.own_public; nothing_skipped = tidy_a.nothing_skipped },
              );
            };
          };
          counted = omega arith;
          same_key = refl;
          listener_key = inl (refl, refl);
        }
