-- ===== src/Session/Safety.antt =====
-- What a peer, honest or not, cannot do to a session.
use upmessenger.Base.{
  ℕ, ◌+◌, ◌-◌, ◌^◌, ◌≤◌, ◌<◌, ◌≡◌, refl, ap, ◌∙◌, true, false, none, some, inl, inr, arith, Bytes,
  Result, ok, err, ltb, Option-cases, Bool-cases, ◌⊎◌,
}
use upmessenger.Base.State.{continue}
use upmessenger.Codec.{base64_decode}
use upmessenger.Ratchet.{
  Library, DoubleRatchetSession, RatchetHeader, WireMessage, lookup, remove, max_skip, SessionError,
  replay, too_many_skipped, wire, encoding,
}
use upmessenger.Ratchet.Keys.{lookup-remove, Distinct}
use upmessenger.Ratchet.Derivation.{LibraryLaws, chain_step, chain_after, kdf_ck-step}
use upmessenger.Session.{
  wrapping_inc, is_some_eq, follow_ratchet, catch_up, decrypt_next, decrypt_skipped,
  decrypt_current, decrypt_message, decrypt_inner, decrypt, commit,
}
use upmessenger.Session.Skipping.{
  skip_ahead, skip_ahead-zero, lookup-stash, skip_receiving_keys-ahead,
}

module _ (lib : Library) where
  abbrev Outcome : Type 0
  Outcome = Result SessionError Bytes × DoubleRatchetSession

  commit-err :
      (s : DoubleRatchetSession) (o : Outcome) {e : SessionError}
      → (commit lib s o).0 ≡ err e
      → (commit lib s o).1 ≡ s
  unfolding commit
  commit-err s (ok plaintext, candidate) h = cc
  commit-err s (err e, candidate) h = refl

  commit-ok :
      (s : DoubleRatchetSession) (o : Outcome) {plaintext : Bytes}
      → (commit lib s o).0 ≡ ok plaintext
      → (o.0 ≡ ok plaintext) × ((commit lib s o).1 ≡ o.1)
  unfolding commit
  commit-ok s (ok plaintext, candidate) h = (h, refl)
  commit-ok s (err e, candidate) h = cc

  -- A decryption that fails, for whatever reason, leaves the session as it was.
  pub decrypt-err :
      (g w : Bytes) (s : DoubleRatchetSession) (e : SessionError)
      → (decrypt lib g w s).0 ≡ err e
      → (decrypt lib g w s).1 ≡ s
  unfolding decrypt
  decrypt-err g w s e h = commit-err s (decrypt_inner lib g w s) h

  -- The session is on the chain of a header: it follows the header's ratchet key, and the keys that it has put
  -- aside from that chain are of messages before `recv_count`.
  pub record Follows (header : RatchetHeader) (ck : Bytes) (s : DoubleRatchetSession) : Type 0 where
    pub remote : is_some_eq s.dh_remote_public header.dh_pub ≡ true
    pub receiving : s.receiving_chain_key ≡ some ck
    pub distinct : Distinct s.skipped
    pub unseen : (m : ℕ) → s.recv_count ≤ m → lookup (header.dh_pub, m) s.skipped ≡ none

  -- A message of the current chain before `recv_count` whose key is not put aside is a replay.
  stale-replay :
      (g body : Bytes) (header : RatchetHeader) (s : DoubleRatchetSession)
      → is_some_eq s.dh_remote_public header.dh_pub ≡ true
      → lookup (header.dh_pub, header.n) s.skipped ≡ none
      → header.n < s.recv_count
      → decrypt_message lib g header body s ≡ (err replay, s)
  unfolding decrypt_message decrypt_current follow_ratchet catch_up
  stale-replay g body header s remote gone stale = ground arith

  skipped-ok :
      (body mk plaintext : Bytes) (header : RatchetHeader) (s : DoubleRatchetSession)
      → (decrypt_skipped lib header body mk s).0 ≡ ok plaintext
      → (decrypt_skipped lib header body mk s).1
        ≡ record s { skipped = remove (header.dh_pub, header.n) s.skipped }
  unfolding decrypt_skipped
  skipped-ok body mk plaintext header s h = ground arith

  module _ (laws : LibraryLaws lib) where
    next-ok :
        (body ck plaintext : Bytes) (header : RatchetHeader) (s : DoubleRatchetSession)
        → s.receiving_chain_key ≡ some ck
        → (decrypt_next lib header body s).0 ≡ ok plaintext
        → (decrypt_next lib header body s).1 ≡ record s {
          receiving_chain_key = some (chain_step lib ck);
          recv_count = wrapping_inc s.recv_count;
        }
    unfolding decrypt_next
    next-ok body ck plaintext header s e h = ground (arith, kdf_ck-step lib laws ck)

    module _ (g g' body ck plaintext : Bytes) (header : RatchetHeader) (s : DoubleRatchetSession)
        (f : Follows header ck s) (small : header.n + 1 < 2 ^ 32) where
      -- What a second delivery of the message finds.
      Rejects : Outcome → Type 0
      Rejects o = decrypt_message lib g' header body o.1 ≡ (err replay, o.1)

      late-Rejects :
          (mk : Bytes)
          → lookup (header.dh_pub, header.n) s.skipped ≡ some mk
          → (decrypt_skipped lib header body mk s).0 ≡ ok plaintext
          → Rejects (decrypt_skipped lib header body mk s)
      unfolding Rejects
      late-Rejects mk stored h = rw (skipped-ok body mk plaintext header s h) (
          stale-replay g' body header
            (record s { skipped = remove (header.dh_pub, header.n) s.skipped }) f.remote
            (lookup-remove (header.dh_pub, header.n) s.skipped f.distinct) stale)
        where
          stale : header.n < s.recv_count
          stale = ground (arith, f.unseen header.n)

      abbrev ahead : ℕ → DoubleRatchetSession
      ahead k = skip_ahead lib header.dh_pub k ck s

      next-Rejects :
          (k : ℕ)
          → header.n ≡ s.recv_count + k
          → (decrypt_next lib header body (ahead k)).0 ≡ ok plaintext
          → Rejects (decrypt_next lib header body (ahead k))
      unfolding Rejects
      next-Rejects k number h =
          rw (next-ok body (chain_after lib k ck) plaintext header (ahead k) refl h) (
            stale-replay g' body header
              (record (ahead k) {
                receiving_chain_key = some (chain_step lib (chain_after lib k ck));
                recv_count = wrapping_inc (s.recv_count + k);
              })
              f.remote gone (omega arith))
        where
          over : ltb header.n (s.recv_count + k) ≡ false
          over = ground arith

          gone : lookup (header.dh_pub, header.n) (ahead k).skipped ≡ none
          gone = ground (
            arith,
            over,
            lookup-stash lib header.dh_pub header.dh_pub header.n s.recv_count k ck s.skipped,
            f.unseen header.n,
          )

      catch_up-cases :
          ((e : SessionError) × (catch_up lib header s ≡ (err e, s)))
          ⊎ ((k : ℕ) × (header.n ≡ s.recv_count + k) × (catch_up lib header s ≡ (ok tt, ahead k)))
      unfolding catch_up
      catch_up-cases = elim (Bool-cases (ltb s.recv_count header.n)) [
        | inl later ↦
            let k : ℕ = header.n - s.recv_count in
            let skip =
              skip_receiving_keys-ahead lib laws header.dh_pub header.n ck s f.receiving
                (ground arith) (omega arith) in
            elim (Bool-cases (ltb max_skip k)) [
              | inl far ↦ inl (too_many_skipped, rw later (skip ∙ rw far))
              | inr near ↦ inr (k, ground arith, rw later (skip ∙ rw near))
            ]
        | inr not_later ↦ elim (Bool-cases (ltb header.n s.recv_count)) [
          | inl stale ↦ inl (replay, rw (not_later, stale))
          | inr here ↦ inr (
            0,
            ground arith,
            rw (not_later, here, skip_ahead-zero lib laws header.dh_pub ck s f.receiving),
          )
        ]
      ]

      current-after :
          (r : Result SessionError (Unit {0})) (t : DoubleRatchetSession)
          → catch_up lib header s ≡ (r, t)
          → decrypt_current lib g header body s ≡ continue r (λ _. decrypt_next lib header body) t
      unfolding decrypt_current follow_ratchet
      current-after r t e = rw (f.remote, e)

      current-Rejects :
          (decrypt_current lib g header body s).0 ≡ ok plaintext
          → Rejects (decrypt_current lib g header body s)
      current-Rejects h = elim catch_up-cases [
        | inl (e, failed) ↦ cc (ap (λ (o : Outcome). o.0) (current-after (err e) s failed), h)
        | inr (k, number, caught) ↦
            let same = current-after (ok tt) (ahead k) caught in
            rw same (next-Rejects k number (rw same at h))
      ]

      message-Rejects :
          (decrypt_message lib g header body s).0 ≡ ok plaintext
          → Rejects (decrypt_message lib g header body s)
      unfolding decrypt_message
      message-Rejects h = elim (Option-cases (lookup (header.dh_pub, header.n) s.skipped)) [
        | inl e ↦ rw (decrypt_message, e) (current-Rejects (rw (decrypt_message, e) at h))
        | inr (mk, e) ↦ rw (decrypt_message, e) (late-Rejects mk e (rw (decrypt_message, e) at h))
      ]

    malformed :
        (w : Bytes) (m : WireMessage)
        → lib.wire_from_slice w ≡ some m
        → base64_decode m.ciphertext_base64 ≡ none
        → (g : Bytes) (s : DoubleRatchetSession) → decrypt lib g w s ≡ (err (wire encoding), s)
    unfolding decrypt decrypt_inner commit
    malformed w m read e g s = rw (read, e)

    module _ (w body : Bytes) (m : WireMessage) (read : lib.wire_from_slice w ≡ some m)
        (decoded : base64_decode m.ciphertext_base64 ≡ some body) where
      decrypt-message :
          (g : Bytes) (s : DoubleRatchetSession)
          → decrypt lib g w s ≡ commit lib s (decrypt_message lib g m.header body s)
      unfolding decrypt decrypt_inner
      decrypt-message g s = rw (read, decoded)

      second_delivery :
          (g g' plaintext : Bytes) (s : DoubleRatchetSession)
          → (decrypt lib g w s).0 ≡ ok plaintext
          → ((decrypt_message lib g m.header body s).0 ≡ ok plaintext
              → let o = decrypt_message lib g m.header body s in
                decrypt_message lib g' m.header body o.1 ≡ (err replay, o.1))
          → let s' = (decrypt lib g w s).1 in decrypt lib g' w s' ≡ (err replay, s')
      unfolding commit
      second_delivery g g' plaintext s h again =
          let o : Outcome = decrypt_message lib g m.header body s in
          let (fine, moved) = commit-ok s o (rw (decrypt-message g s) at h) in
          rw (decrypt-message g s, moved, decrypt-message g' o.1, again fine)

    -- A ciphertext that was decrypted once, on the chain that the session follows and with a number
    -- below the last u32, is rejected as a replay when it comes again, and the rejection changes
    -- nothing. It holds whatever bytes a peer has sent.
    pub decrypt_replay :
        (g g' w ck plaintext : Bytes) (m : WireMessage) (s : DoubleRatchetSession)
        → lib.wire_from_slice w ≡ some m
        → Follows m.header ck s
        → m.header.n + 1 < 2 ^ 32
        → (decrypt lib g w s).0 ≡ ok plaintext
        → let s' = (decrypt lib g w s).1 in decrypt lib g' w s' ≡ (err replay, s')
    unfolding Rejects
    decrypt_replay g g' w ck plaintext m s read f small h =
        elim (Option-cases (base64_decode m.ciphertext_base64)) [
          | inl e ↦ absurd (undecoded e)
          | inr (body, e) ↦
              second_delivery w body m read e g g' plaintext s h
                (message-Rejects g g' body ck plaintext m.header s f small)
        ]
      where
        undecoded : base64_decode m.ciphertext_base64 ≡ none → ⊥
        undecoded e = cc (ap (λ (o : Outcome). o.0) (malformed w m read e g s), h)
