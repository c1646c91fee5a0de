-- ===== src/Session/Turns.antt =====
-- The ratchet step: a message under a new key of the sender, after which the receiver can answer.
use upmessenger.Base.{
  ℕ, ◌-◌, ◌^◌, ◌<◌, ◌≡◌, refl, ap, ◌∙◌, true, false, none, some, arith, Bytes, ok, str_eq_refl,
}
use upmessenger.Crypto.{agree}
use upmessenger.Ratchet.{Library, DoubleRatchetSession, lookup}
use upmessenger.Ratchet.Derivation.{LibraryLaws, chain_step, chain_after, root_step, kdf_rk-step}
use upmessenger.Session.{
  is_some_eq, is_some, unwrap_or, dh_ratchet_step, skip_receiving_keys, follow_ratchet,
  decrypt_current, decrypt_message, decrypt, encrypt, commit,
}
use upmessenger.Session.Skipping.{skip_receiving_keys-ahead, skip_ahead, skip_ahead-zero, stash}
use upmessenger.Session.Delivery.{
  next_header, encrypt-Carries, parse-Carries, decrypt_next-Carries, catch_up-ahead, received, sent,
}
use upmessenger.Session.Reordering.{Linked}

is_some-some : (k : Bytes) → is_some (some k) ≡ true
unfolding is_some
is_some-some k = refl

module _ (lib : Library) where
  open lib use {primitives}

  -- The session after a ratchet step to the peer's key `d`, with the agreed secrets of the old and of the
  -- new key.
  unfoldable pub stepped :
      Bytes → Bytes → Bytes → Bytes → DoubleRatchetSession → DoubleRatchetSession
  stepped g d dh dh' s =
      let (root, receiving) = root_step lib s.root_key dh in
      let (root', sending) = root_step lib root dh' in
      record s {
        root_key = root';
        dh_self = g;
        dh_self_public = primitives.x25519_public g;
        dh_remote_public = some d;
        sending_chain_key = some sending;
        receiving_chain_key = some receiving;
        send_count = 0;
        recv_count = 0;
        prev_chain_len = s.send_count;
      }

  -- The sender has drawn a new ratchet key and sent nothing under it; the receiver has all the messages of the
  -- sender's previous chain, holds the root key before the sender's step, and does not know the new key.
  pub record Turned (a b : DoubleRatchetSession) (ck rck : Bytes) : Type 0 where
    pub secret : Bytes
    pub agreed : agree primitives b.dh_self a.dh_self_public ≡ ok secret
    pub root : root_step lib b.root_key secret ≡ (a.root_key, ck)
    pub sending : a.sending_chain_key ≡ some ck
    pub first : a.send_count ≡ 0
    pub receiving : b.receiving_chain_key ≡ some rck
    pub complete : b.recv_count ≡ a.prev_chain_len
    pub small : a.prev_chain_len < 2 ^ 32
    pub new_key : is_some_eq b.dh_remote_public a.dh_self_public ≡ false
    pub unseen : (m : ℕ) → lookup (a.dh_self_public, m) b.skipped ≡ none

  module _ (laws : LibraryLaws lib) where
    dh_ratchet_step-stepped :
        (g d dh dh' : Bytes) (s : DoubleRatchetSession)
        → agree primitives s.dh_self d ≡ ok dh
        → agree primitives g d ≡ ok dh'
        → dh_ratchet_step lib g d s ≡ (ok tt, stepped g d dh dh' s)
    unfolding dh_ratchet_step stepped
    dh_ratchet_step-stepped g d dh dh' s e e' = rw (
      e,
      kdf_rk-step lib laws s.root_key dh,
      e',
      kdf_rk-step lib laws (root_step lib s.root_key dh).0 dh',
    )

    follow-Turned :
        (g dh' : Bytes) {ck rck : Bytes} (a b : DoubleRatchetSession) (t : Turned a b ck rck)
        → agree primitives g a.dh_self_public ≡ ok dh'
        → follow_ratchet lib g (next_header lib a) b
          ≡ (ok tt, stepped g a.dh_self_public t.secret dh' b)
    unfolding follow_ratchet
    follow-Turned g dh' {rck} a b t e' =
        let d : Bytes = unwrap_or b.dh_remote_public a.dh_self_public in
        let none_left : a.prev_chain_len - b.recv_count ≡ 0 = omega (arith, t.complete) in
        let skip : skip_receiving_keys lib d a.prev_chain_len b ≡ (ok tt, b) =
          skip_receiving_keys-ahead lib laws d a.prev_chain_len rck b t.receiving
            (omega (arith, t.complete)) t.small
          ∙ rw (none_left, skip_ahead-zero lib laws d rck b t.receiving) in
        let has : is_some b.receiving_chain_key ≡ true =
          ap is_some t.receiving ∙ is_some-some rck in
        let step = dh_ratchet_step-stepped g a.dh_self_public t.secret dh' b t.agreed e' in
        rw (t.new_key, has, skip, step)

    -- The states of both after the first message under the new key.
    pub decrypt-stepped :
        (g dh' plaintext w : Bytes) {ck rck : Bytes} (a b : DoubleRatchetSession)
        → (t : Turned a b ck rck) → agree primitives g a.dh_self_public ≡ ok dh'
        → (encrypt lib plaintext a).0 ≡ ok w
        → (encrypt lib plaintext a ≡ (ok w, sent lib ck a))
          × (decrypt lib g w b ≡ (
            ok plaintext,
            received lib a.dh_self_public 0 ck (stepped g a.dh_self_public t.secret dh' b),
          ))
    unfolding decrypt decrypt_message decrypt_current chain_after stepped stash
    decrypt-stepped g dh' plaintext w {ck} a b t e' h =
        let b' : DoubleRatchetSession = stepped g a.dh_self_public t.secret dh' b in
        let key : b'.receiving_chain_key ≡ some ck = ap (λ r. some r.1) t.root in
        let (c, e) = encrypt-Carries lib laws plaintext w ck a t.sending h in
        let here =
          catch_up-ahead lib laws (next_header lib a) b' 0 key (omega (arith, t.first))
            (omega arith) (omega (arith, t.first)) in
        (
          e,
          rw (
            parse-Carries lib laws g ck plaintext w (next_header lib a) c b,
            decrypt_message,
            t.unseen a.send_count,
            decrypt_current,
            follow-Turned g dh' a b t e',
            here,
            decrypt_next-Carries lib laws ck plaintext w (next_header lib a) c
                (skip_ahead lib a.dh_self_public 0 ck b') refl,
            commit,
          ),
        )

    -- For a sender that has drawn a new ratchet key and sent nothing under it, and a receiver that has
    -- every message of the chain before, where both key agreements succeed: the first message under
    -- the new key is decrypted to what was encrypted, and afterwards both stand at the same place of
    -- the new chain.
    pub decrypt-Turned :
        (g dh' plaintext w : Bytes) {ck rck : Bytes} (a b : DoubleRatchetSession)
        → Turned a b ck rck
        → agree primitives g a.dh_self_public ≡ ok dh'
        → (encrypt lib plaintext a).0 ≡ ok w
        → ((decrypt lib g w b).0 ≡ ok plaintext)
          × Linked lib 0 (chain_step lib ck) (encrypt lib plaintext a).1 (decrypt lib g w b).1
    unfolding is_some_eq chain_after stepped stash
    decrypt-Turned g dh' plaintext w a b t e' h =
        let (e, d) = decrypt-stepped g dh' plaintext w a b t e' h in
        rw (e, d)
          (
            refl,
            record {
              sending = refl;
              receiving = refl;
              remote = str_eq_refl a.dh_self_public;
              number = omega (arith, t.first);
              unseen = λ m _. t.unseen m;
            },
          )
