-- ===== src/LocalStore/Examples.antt =====
-- A store over the sample library, and the theorems at one message.
use mathlib.Core.Option.{some-injective, none-ne-some}
use upmessenger.Base.{
  ℕ, zero, suc, ◌≡◌, refl, true, false, Option, none, some, List, [], ◌∷◌, ◌++◌, Bytes, Text, codes,
  ok, Result, str_eq, length, take, drop, take-length_append, drop-length_append,
}
use upmessenger.Base.Options.{◌>>=◌}
use upmessenger.Crypto.{encrypt}
use upmessenger.Ratchet.{DoubleRatchetSession, SessionSnapshot, SkippedMessageKey, snapshot}
use upmessenger.Ratchet.Snapshots.{IsValid}
use upmessenger.Samples.{zeros, library, library_laws}
use upmessenger.LocalStore.{
  LocalStore, Formats, LocalStoreError, load_session, sealed_message, sealed_session,
  encrypt_record,
}
use upmessenger.LocalStore.Records.{
  pin_or_verify_peer, is_message_processed, commit_incoming_message,
}
use upmessenger.LocalStore.Sessions.{FormatLaws, load_session-commit}
use upmessenger.LocalStore.Pins.{pins, pin_or_verify_peer-first}

-- A byte string with its length before it.
put : Bytes → Bytes → Bytes
put b rest = length b ∷ (b ++ rest)

get : Bytes → Option (Bytes × Bytes)
get [] = none
get (n ∷ t) = some (take n t, drop n t)

get-put : (b rest : Bytes) → get (put b rest) ≡ some (b, rest)
unfolding get put
get-put b rest = rw (take-length_append b rest, drop-length_append b rest)

put_option : Option Bytes → Bytes → Bytes
put_option none rest = 0 ∷ rest
put_option (some b) rest = 1 ∷ put b rest

get_option : Bytes → Option (Option Bytes × Bytes)
get_option [] = none
get_option (zero ∷ t) = some (none, t)
get_option (suc n ∷ t) = do (b, rest) ← get t; some (some b, rest)

get-put_option : (o : Option Bytes) (rest : Bytes) → get_option (put_option o rest) ≡ some (o, rest)
unfolding get_option put_option
get-put_option none rest = refl
get-put_option (some b) rest = rw (get_option, get-put b rest, ◌>>=◌)

-- The fields of a snapshot in which no key is put aside; any other snapshot is not written.
write : SessionSnapshot → Option Bytes
write snap = elim snap.skipped [
  | k ∷ ks ↦ none
  | [] ↦ some (
      snap.protocol_version
      ∷ snap.send_count
      ∷ snap.recv_count
      ∷ snap.prev_chain_len
      ∷ put snap.peer_device (
          put snap.root_key (
            put snap.dh_self_private (
              put_option snap.dh_remote_public
                (put_option snap.sending_chain_key (put_option snap.receiving_chain_key []))))))
]

read_keys : ℕ → ℕ → ℕ → ℕ → Bytes → Option SessionSnapshot
read_keys version sent received previous t = do
  (peer, t1) ← get t
  (root, t2) ← get t1
  (secret, t3) ← get t2
  (remote, t4) ← get_option t3
  (sending, t5) ← get_option t4
  (receiving, t6) ← get_option t5
  some (record {
    protocol_version = version;
    peer_device = peer;
    root_key = root;
    dh_self_private = secret;
    dh_remote_public = remote;
    sending_chain_key = sending;
    receiving_chain_key = receiving;
    send_count = sent;
    recv_count = received;
    prev_chain_len = previous;
    skipped = [];
  })

read : Bytes → Option SessionSnapshot
unfolding read_keys
read (version ∷ sent ∷ received ∷ previous ∷ t) = read_keys version sent received previous t
read _ = none

read-write : (snap : SessionSnapshot) (v : Bytes) → write snap ≡ some v → read v ≡ some snap
unfolding read read_keys write
read-write snap v h = go snap.skipped refl
  where
    go : (skipped : List SkippedMessageKey) → snap.skipped ≡ skipped → read v ≡ some snap
    go (k ∷ ks) e = absurd (none-ne-some v (rw e at h))
    go [] e =
        let t5 = put_option snap.receiving_chain_key [] in
        let t4 = put_option snap.sending_chain_key t5 in
        let t3 = put_option snap.dh_remote_public t4 in
        let t2 = put snap.dh_self_private t3 in
        let t1 = put snap.root_key t2 in
        rw (
          ← some-injective _ _ (rw e at h),
          get-put snap.peer_device t1,
          get-put snap.root_key t2,
          get-put snap.dh_self_private t3,
          get-put_option snap.dh_remote_public t4,
          get-put_option snap.sending_chain_key t5,
          get-put_option snap.receiving_chain_key [],
          ← e,
        )

abbrev formats : Formats
formats = record {
  library = library;
  message_to_vec = λ m. some m.text;
  message_from_slice = λ v. none;
  item_to_vec = λ item. none;
  item_from_slice = λ v. none;
  snapshot_to_vec = write;
  snapshot_from_slice = read;
}

formats_laws : FormatLaws formats
formats_laws = record { library_laws = library_laws; snapshot_from-to = read-write }

abbrev session : DoubleRatchetSession
session = record {
  protocol_version = 4;
  peer_device = 7 ∷ [];
  root_key = 1 ∷ 2 ∷ [];
  dh_self = 3 ∷ [];
  dh_self_public = 3 ∷ [];
  dh_remote_public = some (4 ∷ []);
  sending_chain_key = some (5 ∷ []);
  receiving_chain_key = none;
  send_count = 1;
  recv_count = 2;
  prev_chain_len = 0;
  skipped = [];
}

session-IsValid : IsValid library session
session-IsValid = record { version = refl; own_public = refl; distinct = tt }

abbrev empty_store : LocalStore
empty_store = record {
  messages = [];
  sessions = [];
  peer_identities = [];
  outbox = [];
  processed_messages = [];
}

abbrev bob : Text
bob = codes "peer"

abbrev text : Text
text = codes "hello"

abbrev committed : Result LocalStoreError (Unit {0}) × LocalStore
committed =
    commit_incoming_message formats [] (zeros 12) (zeros 12) bob (9 ∷ []) text session 100
      empty_store

committed-ok : committed.0 ≡ ok tt
unfolding commit_incoming_message sealed_message sealed_session encrypt_record encrypt snapshot
    write put put_option
committed-ok = refl

load_session-commit_example :
    ((load_session formats [] bob committed.1).0 ≡ ok (some session))
    × ((is_message_processed (9 ∷ []) bob committed.1).0 ≡ ok true)
load_session-commit_example =
    load_session-commit formats formats_laws [] (zeros 12) (zeros 12) bob text (9 ∷ []) session 100
      empty_store refl session-IsValid refl committed-ok

pin_or_verify_peer-first_example :
    ((pin_or_verify_peer 1 bob (codes "key") empty_store).0 ≡ ok true)
    × (let s =
          pins
            ((2, (codes "other", codes "key")) ∷ (3, (bob, codes "forged")) ∷ [])
            (pin_or_verify_peer 1 bob (codes "key") empty_store).1 in
        pin_or_verify_peer 4 bob (codes "kex") s ≡ (ok false, s))
unfolding str_eq
pin_or_verify_peer-first_example =
    pin_or_verify_peer-first 1 4 bob (codes "key") (codes "kex")
      ((2, (codes "other", codes "key")) ∷ (3, (bob, codes "forged")) ∷ []) empty_store refl
