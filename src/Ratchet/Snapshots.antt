-- ===== src/Ratchet/Snapshots.antt =====
-- Restoring a session from its snapshot. The order of the snapshot's list, which is the iteration order of a
-- `HashMap`, is the order of the association list.
use mathlib.Core.List.{append-nil, append_assoc}
use upmessenger.Base.{
  ◌≡◌, refl, ◌∙◌, sym, none, [], ◌∷◌, ◌++◌, map, arith, Bytes, length, ok, err, ltb, if◌then◌else◌,
}
use upmessenger.Protocol.{current}
use upmessenger.Ratchet.{
  Library, DoubleRatchetSession, SkippedMessageKey, SkippedId, SkippedKeys, lookup, insert, collect,
  snapshot, from_snapshot, max_skip, too_many_skipped,
}
use upmessenger.Ratchet.Keys.{Distinct, id_eq_iff}

lookup-append_none :
    (k : SkippedId) (m m' : SkippedKeys)
    → lookup k (m ++ m') ≡ none
    → (lookup k m ≡ none) × (lookup k m' ≡ none)
unfolding lookup
lookup-append_none k [] m' e = (refl, e)
lookup-append_none k ((i, w) ∷ m) m' e = ground (arith, lookup-append_none k m m')

Distinct-middle :
    (k : SkippedId) (v : Bytes) (m m' : SkippedKeys)
    → Distinct (m ++ (k, v) ∷ m')
    → lookup k m ≡ none
unfolding lookup
Distinct-middle k v [] m' h = refl
Distinct-middle k v ((i, w) ∷ m) m' h = ground (
  arith,
  lookup-append_none i m ((k, v) ∷ m') h.0,
  id_eq_iff k i,
  id_eq_iff i k,
  Distinct-middle k v m m' h.1,
)

insert-new :
    (k : SkippedId) (v : Bytes) (m : SkippedKeys)
    → lookup k m ≡ none
    → insert k v m ≡ m ++ (k, v) ∷ []
unfolding lookup insert
insert-new k v [] e = refl
insert-new k v ((i, w) ∷ m) e = ground (arith, insert-new k v m)

abbrev entry : SkippedId × Bytes → SkippedMessageKey
entry e = record { dh_pub = e.0.0; message_number = e.0.1; message_key = e.1 }

collect-entries : (m acc : SkippedKeys) → Distinct (acc ++ m) → collect (map entry m) acc ≡ acc ++ m
unfolding collect
collect-entries [] acc h = sym (append-nil acc)
collect-entries ((k, v) ∷ m) acc h =
    rw (collect, insert-new k v acc (Distinct-middle k v acc m h))
      (collect-entries m (acc ++ (k, v) ∷ []) (rw append_assoc h)
        ∙ append_assoc acc ((k, v) ∷ []) m)

-- What every session of the program has: the current version, the public key of its own secret, and a map
-- with distinct keys.
pub record IsValid (lib : Library) (s : DoubleRatchetSession) : Type 0 where
  pub version : s.protocol_version ≡ current
  pub own_public : s.dh_self_public ≡ lib.primitives.x25519_public s.dh_self
  pub distinct : Distinct s.skipped

module _ (lib : Library) (s : DoubleRatchetSession) (v : IsValid lib s) where
  collect-snapshot : collect (snapshot s).skipped [] ≡ s.skipped
  unfolding snapshot
  collect-snapshot = collect-entries s.skipped [] v.distinct

  -- A snapshot of a valid session (of the current version, with the public key of its secret and no
  -- key put aside twice) restores exactly that session where at most MAX_SKIP keys are put aside, and
  -- is rejected where there are more.
  pub from_snapshot-snapshot :
      from_snapshot lib (snapshot s)
      ≡ (if ltb max_skip (length s.skipped) then err too_many_skipped else ok s)
  unfolding from_snapshot snapshot
  from_snapshot-snapshot = rw (collect-snapshot, v.version, ← v.own_public)
