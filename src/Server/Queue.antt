-- ===== src/Server/Queue.antt =====
-- server/upm-server/src/db.rs: the message queue. The order of rows with one `created_at` is the order in
-- which they were inserted.
pub mod Quota
pub mod Delivery
pub mod Acknowledgement
pub mod Retries
use upmessenger.Base.{
  ℕ, ◌+◌, ◌%◌, ◌^◌, ◌≡◌, Bool, true, false, not, ◌&&◌, ◌||◌, Option, none, some, List, [], ◌∷◌,
  ◌++◌, map, Bytes, Text, codes, str_eq, Result, ok, err, find_first, select, count_of, length, leb,
  ◌==◌, if◌then◌else◌,
}
use upmessenger.Base.State.{Exec, lift, pure, gets, modify, ◌>>=◌, ◌>>◌}
use upmessenger.Protocol.{MessageEnvelope, encode_hex}
use upmessenger.Server.{
  Database, Envelope, DbError, invalid_envelope, device_not_found, queue_quota_exceeded, Action,
  device_exists, before,
}

abbrev pub queued : Text
queued = codes "queued"

abbrev pub is_queued : Envelope → Bool
is_queued e = str_eq e.delivery_state queued

abbrev pub waits_for : Text → Envelope → Bool
waits_for device e = str_eq e.recipient_device_id device && is_queued e

-- The row that an envelope is stored as.
abbrev pub row : MessageEnvelope → Envelope
row e = record {
  message_id = encode_hex e.message_id;
  sender_device_id = encode_hex e.sender_device_id;
  recipient_device_id = encode_hex e.recipient_device_id;
  ciphertext_blob = e.ciphertext;
  created_at = e.server_timestamp;
  expires_at = e.expires_at;
  delivery_state = queued;
  protocol_version = e.protocol_version;
}

-- The comparison of a stored row with an envelope that is sent again.
pub is_duplicate : Envelope → Envelope → Bool
is_duplicate existing r =
    str_eq existing.sender_device_id r.sender_device_id
    && str_eq existing.recipient_device_id r.recipient_device_id
    && (existing.protocol_version == r.protocol_version)
    && str_eq existing.ciphertext_blob r.ciphertext_blob

-- The quotas and the INSERT.
unfoldable pub insert_message : Envelope → Action Text
insert_message r db =
    if leb 10_000 (count_of (waits_for r.recipient_device_id) db.message_envelopes)
      || leb 100_000 (count_of is_queued db.message_envelopes)
    then (err queue_quota_exceeded, db)
    else (ok r.message_id, record db { message_envelopes = db.message_envelopes ++ (r ∷ []) })

unfoldable pub enqueue_message : MessageEnvelope → Action Text
enqueue_message envelope db =
    let r = row envelope in
    if not (before r.created_at r.expires_at)
    then (err invalid_envelope, db)
    else if not (device_exists r.recipient_device_id db)
    then (err device_not_found, db)
    else if not (device_exists r.sender_device_id db)
    then (err device_not_found, db)
    else elim (find_first (λ e. str_eq e.message_id r.message_id) db.message_envelopes) [
      | some existing ↦
          if is_duplicate existing r then (ok r.message_id, db) else (err invalid_envelope, db)
      | none ↦ insert_message r db
    ]

pub record QueuedEnvelope : Type 0 where
  pub message_id : Text
  pub sender_device_id : Text
  pub ciphertext_blob : Bytes
  pub created_at : ℕ
  pub expires_at : ℕ
  pub protocol_version : ℕ

abbrev pub queued_envelope : Envelope → QueuedEnvelope
queued_envelope e = record {
  message_id = e.message_id;
  sender_device_id = e.sender_device_id;
  ciphertext_blob = e.ciphertext_blob;
  created_at = e.created_at;
  expires_at = e.expires_at;
  protocol_version = e.protocol_version;
}

-- `ORDER BY created_at ASC`
pub by_creation : Envelope → List Envelope → List Envelope
by_creation e [] = e ∷ []
by_creation e (x ∷ xs) =
    if before x.created_at e.created_at then x ∷ by_creation e xs else e ∷ x ∷ xs

pub order_by_creation : List Envelope → List Envelope
unfolding by_creation
order_by_creation [] = []
order_by_creation (e ∷ es) = by_creation e (order_by_creation es)

pub pull_messages : ℕ → Text → Action (List QueuedEnvelope)
pull_messages now device_id db =
    let kept = select (λ e. not (before e.expires_at now)) db.message_envelopes in
    (
      ok (map queued_envelope (order_by_creation (select (waits_for device_id) kept))),
      record db { message_envelopes = kept },
    )

abbrev pub addressed : Text → Text → Envelope → Bool
addressed id device e = str_eq e.message_id id && str_eq e.recipient_device_id device

-- The number of rows that were deleted, over all identifiers.
pub ack_messages : Text → List Text → Action ℕ
ack_messages device [] db = (ok 0, db)
ack_messages device (id ∷ message_ids) db =
    let kept = select (λ e. not (addressed id device e)) db.message_envelopes in
    let count = count_of (addressed id device) db.message_envelopes in
    (do rest ← ack_messages device message_ids; pure (count + rest))
      (record db { message_envelopes = kept })
