-- ===== src/Session/Storage.antt =====
-- How many keys a session puts aside, and what that means for its snapshot.
use upmessenger.Base.{
  ℕ, zero, suc, ◌+◌, ◌^◌, ◌≤◌, ◌<◌, ◌≡◌, refl, ◌∙◌, true, none, some, arith, Bytes, ok, err, length,
  lt→ltb,
}
use upmessenger.Ratchet.{
  Library, DoubleRatchetSession, RatchetHeader, SkippedKeys, id_eq, lookup, insert, max_skip,
  too_many_skipped, snapshot, from_snapshot,
}
use upmessenger.Ratchet.Keys.{lookup-insert, length-insert}
use upmessenger.Ratchet.Snapshots.{IsValid, from_snapshot-snapshot}
use upmessenger.Ratchet.Derivation.{LibraryLaws, chain_step, message_key_of, chain_after}
use upmessenger.Session.{is_some_eq, decrypt}
use upmessenger.Session.Skipping.{stash, Distinct-stash}
use upmessenger.Session.Delivery.{Carries, received, decrypt-ahead}

module _ (lib : Library) where
  -- No key of the messages from number `r` on is there.
  abbrev pub Unseen : Bytes → ℕ → SkippedKeys → Type 0
  Unseen d r m = (i : ℕ) → r ≤ i → lookup (d, i) m ≡ none

  Unseen-insert :
      (d : Bytes) (r : ℕ) (v : Bytes) (m : SkippedKeys)
      → Unseen d r m
      → Unseen d (r + 1) (insert (d, r) v m)
  unfolding id_eq
  Unseen-insert d r v m u i h = ground (arith, lookup-insert (d, r) (d, i) v m, u i)

  length-stash :
      (d : Bytes) (r k : ℕ) (ck : Bytes) (m : SkippedKeys)
      → Unseen d r m
      → length (stash lib d r k ck m) ≡ length m + k
  unfolding stash
  length-stash d r zero ck m u = omega arith
  length-stash d r (suc k) ck m u =
      let v : Bytes = message_key_of lib ck in
      omega (
        arith,
        length-stash d (r + 1) k (chain_step lib ck) (insert (d, r) v m) (Unseen-insert d r v m u),
        length-insert (d, r) v m (u r (omega arith)),
      )

  module _ (laws : LibraryLaws lib) where
    -- A valid session on the chain of an authentic message that comes at most MAX_SKIP places early,
    -- where the keys already put aside and those of the gap exceed MAX_SKIP together: the message is
    -- decrypted, the keys of the gap are added, and the snapshot of the session is then rejected by
    -- from_snapshot.
    pub unrestorable :
        (g plaintext w ck : Bytes) (header : RatchetHeader) (s : DoubleRatchetSession) (k : ℕ)
        → IsValid lib s
        → s.receiving_chain_key ≡ some ck
        → Carries lib (chain_after lib k ck) header plaintext w
        → is_some_eq s.dh_remote_public header.dh_pub ≡ true
        → Unseen header.dh_pub s.recv_count s.skipped
        → header.n ≡ s.recv_count + k
        → k ≤ max_skip
        → header.n + 1 < 2 ^ 32
        → max_skip < length s.skipped + k
        → ((decrypt lib g w s).0 ≡ ok plaintext)
          × (length (decrypt lib g w s).1.skipped ≡ length s.skipped + k)
          × (from_snapshot lib (snapshot (decrypt lib g w s).1) ≡ err too_many_skipped)
    unrestorable g plaintext w ck header s k v e c remote u number near small over =
        let s' : DoubleRatchetSession = received lib header.dh_pub k ck s in
        let d : decrypt lib g w s ≡ (ok plaintext, s') =
          decrypt-ahead lib laws g plaintext w ck header s k e c remote (u header.n (omega arith))
            number near small in
        let v' : IsValid lib s' = record {
          version = v.version;
          own_public = v.own_public;
          distinct = Distinct-stash lib header.dh_pub s.recv_count k ck s.skipped v.distinct;
        } in
        let size : length s'.skipped ≡ length s.skipped + k =
          length-stash header.dh_pub s.recv_count k ck s.skipped u in
        rw d (
          refl,
          size,
          from_snapshot-snapshot lib s' v'
              ∙ rw (lt→ltb max_skip (length s'.skipped) (omega (arith, size))),
        )
