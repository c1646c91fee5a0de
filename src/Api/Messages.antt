-- ===== src/Api/Messages.antt =====
-- server/upm-server/src/api.rs: sending, pulling and acknowledging messages.
use upmessenger.Base.{
  ℕ, ◌+◌, ◌-◌, ◌*◌, ◌^◌, Bool, true, false, not, ◌||◌, Option, none, some, List, [], ◌∷◌, Text,
  codes, str_eq, ok_or, ensure, find_first, ltb, ◌==◌, min,
}
use upmessenger.Base.State.{lift, pure, gets, ◌>>=◌, ◌>>◌}
use upmessenger.Codec.{base64_encode, base64_decode}
use upmessenger.Protocol.{MessageEnvelope, current, decode_hex_16}
use upmessenger.Server.{Database, DbError, device_not_found, device_named}
use upmessenger.Server.Accounts.{active}
use upmessenger.Server.Queue.{QueuedEnvelope, enqueue_message, pull_messages, ack_messages}
use upmessenger.Api.{
  Services, Draws, Handler, Response, SendRequest, ℤ, pos, negsuc, Items, nil, item, object, array,
  field, with_db, any_error, error, answer, text_field, number_field, end,
}
use upmessenger.Api.Paths.{query_param}

abbrev pub default_message_ttl_seconds : ℕ
default_message_ttl_seconds = 14 * 24 * 3600

-- `value <= 0 || value > bound` on an i64
unfoldable pub out_of_range : ℕ → ℤ → Bool
out_of_range bound (pos n) = (n == 0) || ltb bound n
out_of_range bound (negsuc n) = true

-- `value as u64`
unfoldable pub as_u64 : ℤ → ℕ
as_u64 (pos n) = n
as_u64 (negsuc n) = 2 ^ 64 - 1 - n

-- u64::saturating_add
abbrev pub saturating_add : ℕ → ℕ → ℕ
saturating_add a b = min (a + b) (2 ^ 64 - 1)

-- Option::unwrap_or
unfoldable pub ttl_or_default : Option ℤ → ℤ
ttl_or_default none = pos default_message_ttl_seconds
ttl_or_default (some ttl) = ttl

-- `SELECT u.status = 'active' FROM users u JOIN devices d ON d.user_id = u.user_id WHERE d.device_id = ?1`
unfoldable pub sender_active : Text → Database → Bool
sender_active device_id db = elim (find_first (device_named device_id) db.devices) [
  | none ↦ false
  | some d ↦ elim (find_first (λ u. str_eq d.user_id u.user_id) db.users) [
    | none ↦ false
    | some u ↦ str_eq u.status active
  ]
]

unfoldable pub send_failed : DbError → Response
send_failed device_not_found = error 404 "device_not_found" "unknown recipient_device_id"
send_failed _ = error 500 "internal_error" "send failed"

-- The JSON value of an envelope that is pulled, and of all of them.
unfoldable pub shown : QueuedEnvelope → Items → Items
shown e = item (
    object (
      text_field "message_id" e.message_id (
        text_field "sender_device_id" e.sender_device_id (
          text_field "ciphertext_base64" (base64_encode e.ciphertext_blob) (
            number_field "created_at" e.created_at (
              number_field "expires_at" e.expires_at
                (number_field "protocol_version" e.protocol_version end)))))))

unfoldable pub shown_all : List QueuedEnvelope → Items
shown_all [] = nil
shown_all (e ∷ es) = shown e (shown_all es)

module _ (services : Services) (draws : Draws) where
  open services use {read_send, read_ack}

  -- The checks of the request, and the envelope that it asks for.
  unfoldable pub parse_envelope : SendRequest → Text → Handler MessageEnvelope
  parse_envelope req authenticated_sender = do
    lift (
        ensure (req.protocol_version == current)
          (error 426 "unsupported_protocol" "unsupported protocol version"))
    message_id ← lift (
        ok_or (decode_hex_16 req.message_id) (
          error 400 "invalid_message_id"
            "message_id must be 16 random bytes encoded as 32 hex characters"))
    recipient_device_id ← lift (
        ok_or (decode_hex_16 req.recipient_device_id) (
          error 400 "invalid_device_id"
            "recipient_device_id must be 16 random bytes encoded as 32 hex characters"))
    ciphertext ← lift (
        ok_or (base64_decode req.ciphertext_base64)
          (error 400 "bad_ciphertext" "ciphertext_base64 is not valid base64"))
    lift (
        ensure (not (out_of_range default_message_ttl_seconds (ttl_or_default req.ttl_seconds)))
          (error 400 "invalid_ttl" "ttl_seconds is outside the allowed retention window"))
    sender_device_id ← lift (
        ok_or (decode_hex_16 authenticated_sender)
          (error 500 "internal_error" "authenticated device identity is invalid"))
    pure (record {
      protocol_version = req.protocol_version;
      message_id = message_id;
      sender_device_id = sender_device_id;
      recipient_device_id = recipient_device_id;
      ciphertext = ciphertext;
      server_timestamp = draws.handled_at;
      expires_at = saturating_add draws.handled_at (as_u64 (ttl_or_default req.ttl_seconds));
    })

  unfoldable pub handle_send : Text → Text → Handler Response
  handle_send body authenticated_sender = do
    req ← lift (ok_or (read_send body) (error 400 "bad_request" "invalid envelope payload"))
    envelope ← parse_envelope req authenticated_sender
    gets (λ s.
        ensure (sender_active authenticated_sender s.db)
          (error 403 "forbidden" "authenticated device is not active"))
    message_id ← with_db send_failed (enqueue_message envelope)
    pure (
        answer 202 (
          number_field "protocol_version" req.protocol_version (
            text_field "message_id" message_id (
              number_field "server_timestamp" draws.handled_at
                (number_field "expires_at" envelope.expires_at end)))))

  unfoldable pub handle_pull : Text → Text → Handler Response
  handle_pull url authenticated_device = do
    requested_device ← lift (
        ok_or (query_param url "device_id")
          (error 400 "bad_request" "device_id query parameter is required"))
    lift (
        ensure (str_eq requested_device authenticated_device)
          (error 403 "forbidden" "cannot pull another device's queue"))
    envelopes ←
        with_db (any_error (error 500 "internal_error" "pull failed"))
          (pull_messages draws.handled_at authenticated_device)
    pure (answer 200 (field (codes "envelopes") (array (shown_all envelopes)) end))

  unfoldable pub handle_ack : Text → Text → Handler Response
  handle_ack body authenticated_device = do
    message_ids ← lift (ok_or (read_ack body) (error 400 "bad_request" "invalid ack payload"))
    count ←
        with_db (any_error (error 500 "internal_error" "ack failed"))
          (ack_messages authenticated_device message_ids)
    pure (answer 200 (number_field "acknowledged" count end))
