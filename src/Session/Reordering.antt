-- ===== src/Session/Reordering.antt =====
-- Two sessions on one chain: the sender is where the receiver expects it.
use upmessenger.Base.{
  ℕ, ◌+◌, ◌-◌, ◌^◌, ◌≤◌, ◌<◌, ◌≡◌, refl, ◌∙◌, true, false, none, some, arith, Bytes, ok, ltb, leb,
  str_eq_refl,
}
use upmessenger.Ratchet.{Library, DoubleRatchetSession, lookup, max_skip}
use upmessenger.Ratchet.Derivation.{LibraryLaws, chain_step, message_key_of, chain_after}
use upmessenger.Session.{wrapping_inc, is_some_eq, encrypt, decrypt}
use upmessenger.Session.Skipping.{stash, lookup-stash}
use upmessenger.Session.Delivery.{
  next_header, sent, received, encrypt-Carries, decrypt-ahead, decrypt-late,
}

module _ (lib : Library) where
  -- The receiver follows the sender's chain, which stands `k` messages ahead of it, and has put no key of the
  -- messages to come aside.
  pub record Linked (k : ℕ) (ck : Bytes) (a b : DoubleRatchetSession) : Type 0 where
    pub sending : a.sending_chain_key ≡ some (chain_after lib k ck)
    pub receiving : b.receiving_chain_key ≡ some ck
    pub remote : is_some_eq b.dh_remote_public a.dh_self_public ≡ true
    pub number : a.send_count ≡ b.recv_count + k
    pub unseen : (m : ℕ) → b.recv_count ≤ m → lookup (a.dh_self_public, m) b.skipped ≡ none

  module _ (laws : LibraryLaws lib) (g : Bytes) (ck : Bytes) (a b : DoubleRatchetSession) where
    unseen-stash :
        (k m : ℕ)
        → ((i : ℕ) → b.recv_count ≤ i → lookup (a.dh_self_public, i) b.skipped ≡ none)
        → b.recv_count + k ≤ m
        → lookup (a.dh_self_public, m) (stash lib a.dh_self_public b.recv_count k ck b.skipped)
          ≡ none
    unseen-stash k m unseen h =
        let over : ltb m (b.recv_count + k) ≡ false = ground arith in
        ground (
          arith,
          over,
          lookup-stash lib a.dh_self_public a.dh_self_public m b.recv_count k ck b.skipped,
          unseen m (omega arith),
        )

    -- For two sessions that are linked on one chain, the sender at most MAX_SKIP messages ahead and
    -- its counter below the last u32, and a library that keeps its laws: what encrypt gives is
    -- decrypted to the plaintext, and afterwards both stand at the same place of the chain.
    pub decrypt-encrypt :
        (k : ℕ) (plaintext w : Bytes)
        → Linked k ck a b
        → k ≤ max_skip
        → a.send_count + 1 < 2 ^ 32
        → (encrypt lib plaintext a).0 ≡ ok w
        → ((decrypt lib g w b).0 ≡ ok plaintext)
          × Linked 0
              (chain_step lib (chain_after lib k ck))
              (encrypt lib plaintext a).1
              (decrypt lib g w b).1
    unfolding chain_after
    decrypt-encrypt k plaintext w l near small h =
        let (c, e) = encrypt-Carries lib laws plaintext w (chain_after lib k ck) a l.sending h in
        let d =
          decrypt-ahead lib laws g plaintext w ck (next_header lib a) b k l.receiving c l.remote
            (l.unseen a.send_count (omega (arith, l.number))) l.number near small in
        rw (e, d)
          (
            refl,
            record {
              sending = refl;
              receiving = refl;
              remote = l.remote;
              number = omega (arith, l.number);
              unseen = λ m h. unseen-stash k m l.unseen (omega arith);
            },
          )

    stashed :
        Linked 0 ck a b
        → lookup
            (a.dh_self_public, a.send_count)
            (stash lib a.dh_self_public b.recv_count 1 ck b.skipped)
          ≡ some (message_key_of lib ck)
    unfolding chain_after
    stashed l =
        let here : a.send_count - b.recv_count ≡ 0 = omega (arith, l.number) in
        let low : leb b.recv_count a.send_count ≡ true = ground (arith, l.number) in
        let high : ltb a.send_count (b.recv_count + 1) ≡ true = ground (arith, l.number) in
        lookup-stash lib a.dh_self_public a.dh_self_public a.send_count b.recv_count 1 ck b.skipped
        ∙ rw (str_eq_refl a.dh_self_public, low, high, here)

    -- Two messages that are sent one after the other from sessions that are linked without a gap, with
    -- counters below the last u32, and arrive in the wrong order, are both decrypted, each to its own
    -- plaintext.
    pub decrypt_swapped :
        (first second w w' : Bytes)
        → Linked 0 ck a b
        → a.send_count + 2 < 2 ^ 32
        → (encrypt lib first a).0 ≡ ok w
        → (encrypt lib second (encrypt lib first a).1).0 ≡ ok w'
        → ((decrypt lib g w' b).0 ≡ ok second)
          × ((decrypt lib g w (decrypt lib g w' b).1).0 ≡ ok first)
    unfolding chain_after
    decrypt_swapped first second w w' l small h h' =
        let (c, e) = encrypt-Carries lib laws first w ck a l.sending h in
        let (c', e') =
          encrypt-Carries lib laws second w' (chain_step lib ck) (sent lib ck a) refl
            (rw e at h') in
        let ahead =
          decrypt-ahead lib laws g second w' ck (next_header lib (sent lib ck a)) b 1 l.receiving c'
            l.remote (l.unseen (wrapping_inc a.send_count) (omega (arith, l.number)))
            (omega (arith, l.number)) (omega arith) (omega arith) in
        let late =
          decrypt-late lib laws g first w ck (next_header lib a)
            (received lib a.dh_self_public 1 ck b) c (stashed l) in
        rw (ahead, late) (refl, refl)
