-- ===== src/LocalStore.antt =====
-- clients/upm-windows/src/local_store.rs: the encrypted database of a client. A table is the list of its rows
-- in the order of their insertion. The nonce of each record and the clock are arguments; serde_json on the
-- stored formats is the record `Formats`.
pub mod Records
pub mod Outbox
pub mod Sessions
pub mod Pins
mod Examples
use upmessenger.Base.{
  ℕ, ◌≡◌, Bool, true, false, not, Option, none, some, List, [], ◌∷◌, ◌++◌, Bytes, Text, codes,
  str_eq, Result, ok, err, ok_or, map_err, find_first, select, length, take, drop, ltb, ◌==◌,
  if◌then◌else◌,
}
use upmessenger.Base.State.{Exec, lift, pure, gets, modify, ◌>>=◌, ◌>>◌}
use upmessenger.Crypto.{encrypt, decrypt}
use upmessenger.Protocol.{MessageId, MessageEnvelope, encode_hex}
use upmessenger.Ratchet.{Library, DoubleRatchetSession, SessionSnapshot, snapshot, from_snapshot}

pub data LocalStoreError : Type 0 where
  credential database serialization invalid_record session_error : LocalStoreError

pub record StoredMessage : Type 0 where
  pub peer_device_id : Text
  pub direction : ℕ
  pub text : Text
  pub created_at : ℕ

pub record OutboxItem : Type 0 where
  pub message_id : MessageId
  pub peer_device_id : Text
  pub envelope : MessageEnvelope
  pub session_after : SessionSnapshot
  pub text : Text

-- The rows of the tables `messages`, `sessions`, `peer_identities`, `outbox` and `processed_messages`.
pub record MessageRow : Type 0 where
  pub peer_device_id : Text
  pub direction : ℕ
  pub created_at : ℕ
  pub encrypted_text : Bytes

pub record SessionRow : Type 0 where
  pub peer_device_id : Text
  pub encrypted_state : Bytes
  pub updated_at : ℕ

pub record PeerIdentity : Type 0 where
  pub peer_device_id : Text
  pub identity_public_key : Text
  pub pinned_at : ℕ

pub record OutboxRow : Type 0 where
  pub message_id : Text
  pub encrypted_record : Bytes
  pub created_at : ℕ

pub record Processed : Type 0 where
  pub message_id : Text
  pub peer_device_id : Text
  pub processed_at : ℕ

pub record LocalStore : Type 0 where
  pub messages : List MessageRow
  pub sessions : List SessionRow
  pub peer_identities : List PeerIdentity
  pub outbox : List OutboxRow
  pub processed_messages : List Processed

-- serde_json on the stored formats, beside what the session itself uses
pub record Formats : Type 0 where
  pub library : Library
  pub message_to_vec : StoredMessage → Option Bytes
  pub message_from_slice : Bytes → Option StoredMessage
  pub item_to_vec : OutboxItem → Option Bytes
  pub item_from_slice : Bytes → Option OutboxItem
  pub snapshot_to_vec : SessionSnapshot → Option Bytes
  pub snapshot_from_slice : Bytes → Option SessionSnapshot

abbrev pub Action : Type 0 → Type 0
Action A = Exec LocalStore LocalStoreError A

-- `INSERT ... ON CONFLICT(peer_device_id) DO UPDATE`
unfoldable pub upsert_session : SessionRow → List SessionRow → List SessionRow
upsert_session r [] = r ∷ []
upsert_session r (x ∷ xs) =
    let rest = upsert_session r xs in
    if str_eq x.peer_device_id r.peer_device_id then r ∷ xs else x ∷ rest

-- `INSERT OR IGNORE`
unfoldable pub insert_processed : Processed → List Processed → List Processed
insert_processed r rows = elim (find_first (λ x. str_eq x.message_id r.message_id) rows) [
  | some x ↦ rows
  | none ↦ rows ++ (r ∷ [])
]

module _ (formats : Formats) (key : Bytes) where
  open formats use {
    library, message_to_vec, message_from_slice, item_to_vec, item_from_slice, snapshot_to_vec,
    snapshot_from_slice,
  }

  -- `encrypt_record_with_key` and `encrypt_record`
  unfoldable pub encrypt_record : Bytes → Bytes → Result LocalStoreError Bytes
  encrypt_record nonce plaintext =
      elim (encrypt library.primitives key nonce plaintext (codes "UPM/local-store/v1")) [
        | ok ciphertext ↦ ok (nonce ++ ciphertext)
        | err e ↦ err invalid_record
      ]

  unfoldable pub decrypt_record : Bytes → Result LocalStoreError Bytes
  decrypt_record blob =
      if ltb (length blob) 12
      then err invalid_record
      else map_err (λ _. invalid_record)
          (decrypt library.primitives key (take 12 blob) (drop 12 blob)
            (codes "UPM/local-store/v1"))

  -- The body of the loop in `load_messages`: a row that cannot be read is skipped.
  unfoldable pub read_message : Bytes → Option StoredMessage
  read_message blob = elim (decrypt_record blob) [
    | err e ↦ none
    | ok plaintext ↦ message_from_slice plaintext
  ]

  unfoldable pub read_messages : List MessageRow → List (Bool × (Text × ℕ))
  read_messages [] = []
  read_messages (r ∷ rows) =
      let rest = read_messages rows in
      elim (read_message r.encrypted_text) [
        | none ↦ rest
        | some stored ↦ (r.direction == 1, (stored.text, r.created_at)) ∷ rest
      ]

  unfoldable pub load_messages : Text → Action (List (Bool × (Text × ℕ)))
  load_messages peer =
      gets λ s. ok (read_messages (select (λ r. str_eq r.peer_device_id peer) s.messages))

  -- The two records that both commits write: the message, and the snapshot of the session.
  unfoldable pub sealed_message : Bytes → StoredMessage → Action Bytes
  sealed_message nonce stored = do
    plaintext ← lift (ok_or (message_to_vec stored) serialization)
    lift (encrypt_record nonce plaintext)

  unfoldable pub sealed_session : Bytes → DoubleRatchetSession → Action Bytes
  sealed_session nonce session = do
    plaintext ← lift (ok_or (snapshot_to_vec (snapshot session)) serialization)
    lift (encrypt_record nonce plaintext)

  unfoldable pub append_message : Bytes → Text → Bool → Text → ℕ → Action (Unit {0})
  append_message nonce peer incoming text created_at = do
    let direction = if incoming then 1 else 0
    blob ← sealed_message nonce (record {
      peer_device_id = peer;
      direction = direction;
      text = text;
      created_at = created_at;
    })
    modify λ s. record s {
      messages =
          s.messages
          ++ (record {
            peer_device_id = peer;
            direction = direction;
            created_at = created_at;
            encrypted_text = blob;
          }
              ∷ []);
    }

  unfoldable pub save_session : Bytes → Text → DoubleRatchetSession → ℕ → Action (Unit {0})
  save_session nonce peer session updated_at = do
    blob ← sealed_session nonce session
    modify λ s. record s {
      sessions =
          upsert_session
            (record { peer_device_id = peer; encrypted_state = blob; updated_at = updated_at })
            s.sessions;
    }

  -- What follows the lookup of the row in `load_session`.
  unfoldable pub read_session : Bytes → Option DoubleRatchetSession
  read_session blob = elim (decrypt_record blob) [
    | err e ↦ none
    | ok plaintext ↦ elim (snapshot_from_slice plaintext) [
      | none ↦ none
      | some snap ↦ elim (from_snapshot library snap) [ ok session ↦ some session | err e ↦ none ]
    ]
  ]

  unfoldable pub load_session : Text → Action (Option DoubleRatchetSession)
  load_session peer = gets λ s.
      ok (elim (find_first (λ r. str_eq r.peer_device_id peer) s.sessions) [
        | none ↦ none
        | some r ↦ read_session r.encrypted_state
      ])
