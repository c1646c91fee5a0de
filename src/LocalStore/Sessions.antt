-- ===== src/LocalStore/Sessions.antt =====
-- A session that was stored with the message that it decrypted, and the pinned keys.
use upmessenger.Base.{
  ℕ, ◌≡◌, sym, ap, true, Option, none, some, List, [], ◌∷◌, ◌++◌, arith, Bytes, Text, codes, str_eq,
  str_eq_refl, ok, err, find_first, find_first-append, length, ltb, if◌then◌else◌, Bool-cases,
  Option-cases, Result-cases, inl, inr,
}
use upmessenger.Blobs.{split_nonce}
use upmessenger.Crypto.{encrypt, decrypt}
use upmessenger.Protocol.{MessageId, encode_hex}
use upmessenger.Ratchet.{DoubleRatchetSession, SessionSnapshot, snapshot, from_snapshot, max_skip}
use upmessenger.Ratchet.Derivation.{LibraryLaws}
use upmessenger.Ratchet.Snapshots.{IsValid, from_snapshot-snapshot}
use upmessenger.LocalStore.{
  LocalStore, Formats, SessionRow, Processed, StoredMessage, upsert_session, insert_processed,
  encrypt_record, decrypt_record, sealed_message, sealed_session, read_session, load_session,
}
use upmessenger.LocalStore.Records.{is_message_processed, commit_incoming_message}

-- What the store relies on: the laws of the session's libraries, and that serde_json reads back a snapshot.
pub record FormatLaws (formats : Formats) : Type 0 where
  pub library_laws : LibraryLaws formats.library
  pub snapshot_from-to :
      (snap : SessionSnapshot) (v : Bytes)
      → formats.snapshot_to_vec snap ≡ some v
      → formats.snapshot_from_slice v ≡ some snap

find_first-upsert :
    (r : SessionRow) (rows : List SessionRow)
    → find_first (λ x. str_eq x.peer_device_id r.peer_device_id) (upsert_session r rows) ≡ some r
unfolding upsert_session
find_first-upsert r [] = rw (str_eq_refl r.peer_device_id)
find_first-upsert r (x ∷ rows) =
    ground (arith, str_eq_refl r.peer_device_id, find_first-upsert r rows)

find_first-processed :
    (r : Processed) (rows : List Processed)
    → find_first (λ x. str_eq x.message_id r.message_id) rows ≡ none
    → find_first (λ x. str_eq x.message_id r.message_id) (insert_processed r rows) ≡ some r
unfolding insert_processed
find_first-processed r rows e =
    rw (insert_processed, e)
      (find_first-append (λ x. str_eq x.message_id r.message_id) rows r e
        (str_eq_refl r.message_id))

module _ (formats : Formats) (laws : FormatLaws formats) (key : Bytes) where
  open formats use {library, snapshot_to_vec, snapshot_from_slice}

  decrypt_record-encrypt :
      (nonce plaintext blob : Bytes)
      → length nonce ≡ 12
      → encrypt_record formats key nonce plaintext ≡ ok blob
      → decrypt_record formats key blob ≡ ok plaintext
  unfolding encrypt_record decrypt_record encrypt decrypt
  decrypt_record-encrypt nonce plaintext blob n h =
      elim (Option-cases
        (library.primitives.seal key nonce plaintext (codes "UPM/local-store/v1"))) [
          | inl e ↦ absurd (ground (arith, e, h))
          | inr (c, e) ↦
              let is : nonce ++ c ≡ blob = ground (arith, e, h) in
              let (long, nonce', c') = split_nonce nonce c n in
              rw (
                sym is,
                long,
                nonce',
                c',
                laws.library_laws.unseal-seal key nonce plaintext (codes "UPM/local-store/v1") c e,
              )
        ]

  -- What a session is restored to.
  abbrev pub restored : DoubleRatchetSession → Option DoubleRatchetSession
  restored session = if ltb max_skip (length session.skipped) then none else some session

  read_session-snapshot :
      (session : DoubleRatchetSession)
      → IsValid library session
      → elim (from_snapshot library (snapshot session)) [ ok r ↦ some r | err e ↦ none ]
        ≡ restored session
  read_session-snapshot session v = elim (Bool-cases (ltb max_skip (length session.skipped))) [
    | inl many ↦ rw (from_snapshot-snapshot library session v, many)
    | inr few ↦ rw (from_snapshot-snapshot library session v, few)
  ]

  sealed_session-read :
      (nonce blob : Bytes) (session : DoubleRatchetSession) (s : LocalStore)
      → length nonce ≡ 12
      → IsValid library session
      → (sealed_session formats key nonce session s).0 ≡ ok blob
      → read_session formats key blob ≡ restored session
  unfolding sealed_session read_session
  sealed_session-read nonce blob session s n v h =
      elim (Option-cases (snapshot_to_vec (snapshot session))) [
        | inl e ↦ absurd (ground (arith, e, h))
        | inr (plaintext, e) ↦
            let sealed : encrypt_record formats key nonce plaintext ≡ ok blob =
              ground (arith, e, h) in
            rw
              (
                read_session,
                decrypt_record-encrypt nonce plaintext blob n sealed,
                laws.snapshot_from-to (snapshot session) plaintext e,
              )
              (read_session-snapshot session v)
      ]

  sealed_session-same :
      (nonce : Bytes) (session : DoubleRatchetSession) (s : LocalStore)
      → (sealed_session formats key nonce session s).1 ≡ s
  unfolding sealed_session
  sealed_session-same nonce session s = elim (Option-cases (snapshot_to_vec (snapshot session))) [
    | inl e ↦ rw e
    | inr (v, e) ↦ rw e
  ]

  sealed_message-same :
      (nonce : Bytes) (m : StoredMessage) (s : LocalStore)
      → (sealed_message formats key nonce m s).1 ≡ s
  unfolding sealed_message
  sealed_message-same nonce m s = elim (Option-cases (formats.message_to_vec m)) [
    | inl e ↦ rw e
    | inr (v, e) ↦ rw e
  ]

  -- Once a received message is stored, which is under an identifier that was not recorded before, with the
  -- session that decrypted it: the message counts as processed for its sender, and the session is
  -- loaded again exactly as it was where it has put aside at most MAX_SKIP keys. Where it has put aside
  -- more, no session is loaded, as if there had never been one.
  pub load_session-commit :
      (nonce nonce' : Bytes) (peer text : Text) (id : MessageId) (session : DoubleRatchetSession)
      (created_at : ℕ) (s : LocalStore)
      → length nonce' ≡ 12
      → IsValid library session
      → find_first (λ r. str_eq r.message_id (encode_hex id)) s.processed_messages ≡ none
      → (commit_incoming_message formats key nonce nonce' peer id text session created_at s).0
        ≡ ok tt
      → let s' =
          (commit_incoming_message formats key nonce nonce' peer id text session created_at s).1 in
        ((load_session formats key peer s').0 ≡ ok (restored session))
        × ((is_message_processed id peer s').0 ≡ ok true)
  unfolding commit_incoming_message load_session is_message_processed
  load_session-commit nonce nonce' peer text id session created_at s n v fresh h =
      let stored : StoredMessage = record {
        peer_device_id = peer;
        direction = 1;
        text = text;
        created_at = created_at;
      } in
      elim (Result-cases (sealed_message formats key nonce stored s).0) [
        | inr (e, em) ↦ absurd (ground (arith, em, h))
        | inl (blob, em) ↦
            let message : sealed_message formats key nonce stored s ≡ (ok blob, s) =
              ground (arith, em, sealed_message-same nonce stored s) in
            elim (Result-cases (sealed_session formats key nonce' session s).0) [
              | inr (e, es) ↦
                  absurd (ground (arith, message, es, sealed_session-same nonce' session s, h))
              | inl (blob', es) ↦
                  let sealed : sealed_session formats key nonce' session s ≡ (ok blob', s) =
                    ground (arith, es, sealed_session-same nonce' session s) in
                  let row : SessionRow = record {
                    peer_device_id = peer;
                    encrypted_state = blob';
                    updated_at = created_at;
                  } in
                  let seen : Processed = record {
                    message_id = encode_hex id;
                    peer_device_id = peer;
                    processed_at = created_at;
                  } in
                  (
                    rw (message, sealed, find_first-upsert row s.sessions)
                        (ap ok (sealed_session-read nonce' blob' session s n v es)),
                    rw (message, sealed, find_first-processed seen s.processed_messages fresh)
                        (ap ok (str_eq_refl peer)),
                  )
            ]
      ]
