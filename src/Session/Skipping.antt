-- ===== src/Session/Skipping.antt =====
-- Keys put aside for messages that have not arrived yet.
use upmessenger.Base.{
  ℕ, zero, suc, ◌+◌, ◌-◌, ◌^◌, ◌≤◌, ◌<◌, ◌≡◌, refl, sym, ap, ◌∙◌, false, ◌&&◌, some, arith, Bytes,
  length, Result, ok, err, str_eq, ltb, leb, if◌then◌else◌, lt→ltb,
}
use upmessenger.Ratchet.{
  Library, DoubleRatchetSession, SkippedKeys, id_eq, lookup, insert, max_skip, too_many_skipped,
  SessionError,
}
use upmessenger.Ratchet.Keys.{lookup-insert, length-insert-le, Distinct, Distinct-insert}
use upmessenger.Ratchet.Derivation.{
  LibraryLaws, chain_step, message_key_of, chain_after, kdf_ck-step,
}
use upmessenger.Session.{skip_one, skip_loop, skip_receiving_keys}

module _ (lib : Library) where
  -- The map after the keys of `k` messages from number `r` on were put aside, from chain key `ck`.
  unfoldable pub stash : Bytes → ℕ → ℕ → Bytes → SkippedKeys → SkippedKeys
  stash d r zero ck m = m
  stash d r (suc k) ck m =
      stash d (r + 1) k (chain_step lib ck) (insert (d, r) (message_key_of lib ck) m)

  -- The session that has skipped `k` messages.
  abbrev pub skip_ahead : Bytes → ℕ → Bytes → DoubleRatchetSession → DoubleRatchetSession
  skip_ahead d k ck s = record s {
    receiving_chain_key = some (chain_after lib k ck);
    recv_count = s.recv_count + k;
    skipped = stash d s.recv_count k ck s.skipped;
  }

  chain_after-next :
      (n r : ℕ) (ck : Bytes)
      → r < n
      → chain_after lib (n - r) ck ≡ chain_after lib (n - (r + 1)) (chain_step lib ck)
  unfolding chain_after
  chain_after-next n r ck h = let e : n - r ≡ suc (n - (r + 1)) = omega arith in rw e

  chain_after-same : (n r : ℕ) (ck : Bytes) → n ≡ r → chain_after lib (n - r) ck ≡ ck
  unfolding chain_after
  chain_after-same n r ck h = let e : n - r ≡ 0 = omega arith in rw e

  -- Put-aside keys are the message keys of the chain at their numbers, and other keys stay.
  pub lookup-stash :
      (d e : Bytes) (n r k : ℕ) (ck : Bytes) (m : SkippedKeys)
      → lookup (e, n) (stash d r k ck m) ≡ (
          if str_eq d e && (leb r n && ltb n (r + k))
          then some (message_key_of lib (chain_after lib (n - r) ck))
          else lookup (e, n) m)
  unfolding stash id_eq
  lookup-stash d e n r zero ck m = ground arith
  lookup-stash d e n r (suc k) ck m = ground (
    arith,
    lookup-stash d e n (r + 1) k (chain_step lib ck) (insert (d, r) (message_key_of lib ck) m),
    lookup-insert (d, r) (e, n) (message_key_of lib ck) m,
    chain_after-next n r ck,
    chain_after-same n r ck,
  )

  pub length-stash-le :
      (d : Bytes) (r k : ℕ) (ck : Bytes) (m : SkippedKeys)
      → length (stash d r k ck m) ≤ length m + k
  unfolding stash
  length-stash-le d r zero ck m = omega arith
  length-stash-le d r (suc k) ck m = omega (
    arith,
    length-stash-le d (r + 1) k (chain_step lib ck) (insert (d, r) (message_key_of lib ck) m),
    length-insert-le (d, r) (message_key_of lib ck) m,
  )

  pub Distinct-stash :
      (d : Bytes) (r k : ℕ) (ck : Bytes) (m : SkippedKeys)
      → Distinct m
      → Distinct (stash d r k ck m)
  unfolding stash
  Distinct-stash d r zero ck m h = h
  Distinct-stash d r (suc k) ck m h =
      Distinct-stash d (r + 1) k (chain_step lib ck) _ (Distinct-insert (d, r) _ m h)

  module _ (laws : LibraryLaws lib) where
    skip_one-step :
        (d : Bytes) (ck : Bytes) (s : DoubleRatchetSession)
        → s.receiving_chain_key ≡ some ck
        → s.recv_count + 1 < 2 ^ 32
        → skip_one lib d s ≡ (ok tt, skip_ahead d 1 ck s)
    unfolding skip_one stash chain_after
    skip_one-step d ck s e small = ground (arith, kdf_ck-step lib laws ck)

    pub skip_ahead-zero :
        (d ck : Bytes) (s : DoubleRatchetSession)
        → s.receiving_chain_key ≡ some ck
        → skip_ahead d 0 ck s ≡ s
    unfolding stash chain_after
    skip_ahead-zero d ck s e = ground arith

    skip_ahead-suc :
        (k : ℕ) (d ck : Bytes) (s : DoubleRatchetSession)
        → skip_ahead d k (chain_step lib ck) (skip_ahead d 1 ck s) ≡ skip_ahead d (suc k) ck s
    unfolding stash chain_after
    skip_ahead-suc k d ck s = ground arith

    abbrev done : DoubleRatchetSession → Result SessionError (Unit {0}) × DoubleRatchetSession
    done s = (ok tt, s)

    -- With fuel for the messages to skip, the loop ends at the message number that is wanted.
    skip_loop-ahead :
        (fuel k : ℕ) (d : Bytes) (until : ℕ) (ck : Bytes) (s : DoubleRatchetSession)
        → s.receiving_chain_key ≡ some ck
        → s.recv_count + k ≡ until
        → until < 2 ^ 32
        → k ≤ fuel
        → skip_loop lib fuel d until s ≡ (ok tt, skip_ahead d k ck s)
    unfolding skip_loop
    skip_loop-ahead zero zero d until ck s e r small fits = ap done (sym (skip_ahead-zero d ck s e))
    skip_loop-ahead zero (suc k) d until ck s e r small fits = absurd (omega arith)
    skip_loop-ahead (suc fuel) zero d until ck s e r small fits =
        let over : ltb s.recv_count until ≡ false = ground arith in
        rw over (ap done (sym (skip_ahead-zero d ck s e)))
    skip_loop-ahead (suc fuel) (suc k) d until ck s e r small fits =
        rw (lt→ltb s.recv_count until (omega arith), skip_one-step d ck s e (omega arith))
          (skip_loop-ahead fuel k d until (chain_step lib ck) (skip_ahead d 1 ck s)
              (unfold chain_after in refl) (omega arith) small (omega arith)
            ∙ ap done (skip_ahead-suc k d ck s))

    -- With a receiving chain, and up to a number that fits a u32 and is not behind: a gap beyond
    -- MAX_SKIP is refused and changes nothing; otherwise every key of the chain before `until` is put
    -- aside under its number, and the chain stands at `until`. The fuel of the model is enough.
    pub skip_receiving_keys-ahead :
        (d : Bytes) (until : ℕ) (ck : Bytes) (s : DoubleRatchetSession)
        → s.receiving_chain_key ≡ some ck
        → s.recv_count ≤ until
        → until < 2 ^ 32
        → skip_receiving_keys lib d until s ≡ (
            if ltb max_skip (until - s.recv_count)
            then (err too_many_skipped, s)
            else (ok tt, skip_ahead d (until - s.recv_count) ck s))
    unfolding skip_receiving_keys
    skip_receiving_keys-ahead d until ck s e le small = rw (
        skip_loop-ahead until (until - s.recv_count) d until ck s e (omega arith) small
          (omega arith))
