-- ===== src/Server/Queue/Retries.antt =====
-- A client that sends a message again, since it saw no answer, stores it once.
use upmessenger.Base.{
  ◌≡◌, refl, sym, ap, ◌∙◌, true, false, none, some, [], ◌∷◌, ◌++◌, inl, inr, arith, Text, str_eq,
  str_eq_refl, ok, err, find_first, find_first-append, ◌==◌, if◌then◌else◌, Bool-cases,
}
use upmessenger.Protocol.{MessageEnvelope, encode_hex}
use upmessenger.Server.{
  Database, Envelope, DbError, invalid_envelope, device_not_found, device_exists, before,
}
use upmessenger.Server.Queue.{row, is_duplicate, insert_message, enqueue_message}

is_duplicate_refl : (r : Envelope) → is_duplicate r r ≡ true
unfolding is_duplicate
is_duplicate_refl r =
    let version : (r.protocol_version == r.protocol_version) ≡ true = ground arith in
    rw (
      str_eq_refl r.sender_device_id,
      str_eq_refl r.recipient_device_id,
      version,
      str_eq_refl r.ciphertext_blob,
    )

is_duplicate-differs :
    (r s : Envelope) → str_eq r.ciphertext_blob s.ciphertext_blob ≡ false → is_duplicate r s ≡ false
unfolding is_duplicate
is_duplicate-differs r s h = ground (arith, h)

enqueue_message-present :
    (envelope : MessageEnvelope) (db : Database) (existing : Envelope)
    → before envelope.server_timestamp envelope.expires_at ≡ true
    → device_exists (encode_hex envelope.recipient_device_id) db ≡ true
    → device_exists (encode_hex envelope.sender_device_id) db ≡ true
    → find_first (λ e. str_eq e.message_id (encode_hex envelope.message_id)) db.message_envelopes
      ≡ some existing
    → enqueue_message envelope db ≡ (
        if is_duplicate existing (row envelope)
        then (ok (encode_hex envelope.message_id), db)
        else (err invalid_envelope, db))
unfolding enqueue_message
enqueue_message-present envelope db existing live recipient sender found =
    rw (live, recipient, sender, found)

-- A message whose identifier is taken by another ciphertext is refused.
enqueue_message-taken :
    (envelope : MessageEnvelope) (db : Database) (existing : Envelope)
    → find_first (λ e. str_eq e.message_id (encode_hex envelope.message_id)) db.message_envelopes
      ≡ some existing
    → is_duplicate existing (row envelope) ≡ false
    → (e : DbError) × (enqueue_message envelope db ≡ (err e, db))
unfolding enqueue_message
enqueue_message-taken envelope db existing found differs =
    elim (Bool-cases (before envelope.server_timestamp envelope.expires_at)) [
      | inr e ↦ (invalid_envelope, rw e)
      | inl e ↦ elim (Bool-cases (device_exists (encode_hex envelope.recipient_device_id) db)) [
        | inr f ↦ (device_not_found, rw (e, f))
        | inl f ↦ elim (Bool-cases (device_exists (encode_hex envelope.sender_device_id) db)) [
          | inr k ↦ (device_not_found, rw (e, f, k))
          | inl k ↦ (invalid_envelope, rw (e, f, k, found, differs))
        ]
      ]
    ]

module _ (envelope : MessageEnvelope) (db : Database) (id : Text)
    (fresh : find_first
        (λ e. str_eq e.message_id (encode_hex envelope.message_id))
        db.message_envelopes
      ≡ none)
    (h : (enqueue_message envelope db).0 ≡ ok id) where
  accepted : Database
  accepted = record db { message_envelopes = db.message_envelopes ++ (row envelope ∷ []) }

  -- What an accepted envelope has passed.
  enqueue_message-accepted :
      (before envelope.server_timestamp envelope.expires_at ≡ true)
      × (device_exists (encode_hex envelope.recipient_device_id) db ≡ true)
      × (device_exists (encode_hex envelope.sender_device_id) db ≡ true)
      × (enqueue_message envelope db ≡ (ok (encode_hex envelope.message_id), accepted))
  unfolding enqueue_message insert_message accepted
  enqueue_message-accepted =
      (ground (arith, fresh), ground (arith, fresh), ground (arith, fresh), ground (arith, fresh))

  found_again :
      (other : MessageEnvelope)
      → other.message_id ≡ envelope.message_id
      → find_first
          (λ e. str_eq e.message_id (encode_hex other.message_id))
          accepted.message_envelopes
        ≡ some (row envelope)
  unfolding accepted
  found_again other same = rw same (
      find_first-append (λ e. str_eq e.message_id (encode_hex envelope.message_id))
        db.message_envelopes (row envelope) fresh (str_eq_refl (encode_hex envelope.message_id)))

  -- Sending an envelope again that was accepted under an identifier that was not in the queue gives
  -- the same answer and changes nothing.
  pub enqueue_message_again :
      enqueue_message envelope (enqueue_message envelope db).1
      ≡ (ok id, (enqueue_message envelope db).1)
  unfolding accepted
  enqueue_message_again =
      let (live, recipient, sender, e) = enqueue_message-accepted in
      let same : ok (encode_hex envelope.message_id) ≡ ok id = sym (ap (λ r. r.0) e) ∙ h in
      let present =
        enqueue_message-present envelope accepted (row envelope) live recipient sender
          (found_again envelope refl) in
      rw e (present ∙ rw (is_duplicate_refl (row envelope)) (ap (λ r. (r, accepted)) same))

  -- After an envelope was accepted under an identifier that was not in the queue, an envelope with
  -- that identifier and another ciphertext is refused and changes nothing.
  pub enqueue_message_forged :
      (other : MessageEnvelope)
      → other.message_id ≡ envelope.message_id
      → str_eq envelope.ciphertext other.ciphertext ≡ false
      → (e : DbError) × (enqueue_message other (enqueue_message envelope db).1
          ≡ (err e, (enqueue_message envelope db).1))
  enqueue_message_forged other same differs =
      let (live, recipient, sender, e) = enqueue_message-accepted in
      rw e (
        enqueue_message-taken other accepted (row envelope) (found_again other same)
          (is_duplicate-differs (row envelope) (row other) differs))
