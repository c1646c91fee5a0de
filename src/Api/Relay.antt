-- ===== src/Api/Relay.antt =====
-- A message from the sender's request to the recipient's.
use mathlib.Core.List.{Memᴰ}
use upmessenger.Base.{
  ◌<◌, ◌≡◌, refl, ap, true, false, none, some, List, [], ◌∷◌, ◌++◌, arith, Text, codes, str_eq,
  str_eq_refl, ok, find_first, count_of, leb, ◌==◌,
}
use upmessenger.Codec.{base64_decode}
use upmessenger.Protocol.{MessageEnvelope, current, encode_hex, decode_hex_16}
use upmessenger.Server.{device_exists, before}
use upmessenger.Server.Queue.{
  is_queued, waits_for, row, QueuedEnvelope, queued_envelope, insert_message, enqueue_message,
}
use upmessenger.Server.Queue.Delivery.{pull_messages-enqueue}
use upmessenger.Api.{
  Services, Draws, AppState, SendRequest, answer, number_field, text_field, field, array, end,
  with_db,
}
use upmessenger.Api.Paths.{query_param}
use upmessenger.Api.Messages.{
  out_of_range, as_u64, ttl_or_default, saturating_add, default_message_ttl_seconds, sender_active,
  shown_all, parse_envelope, handle_send, handle_pull,
}

-- A request to send that the server accepts: its fields parse, its sender is active, both devices are known,
-- its identifier is new, and the queues have room.
pub record Accepted (services : Services) (draws : Draws) (body sender : Text) (s : AppState)
    (envelope : MessageEnvelope) : Type 0 where
  pub req : SendRequest
  pub read : services.read_send body ≡ some req
  pub version : req.protocol_version ≡ current
  pub same_version : envelope.protocol_version ≡ req.protocol_version
  pub message_id : decode_hex_16 req.message_id ≡ some envelope.message_id
  pub recipient : decode_hex_16 req.recipient_device_id ≡ some envelope.recipient_device_id
  pub ciphertext : base64_decode req.ciphertext_base64 ≡ some envelope.ciphertext
  pub ttl : out_of_range default_message_ttl_seconds (ttl_or_default req.ttl_seconds) ≡ false
  pub authenticated : decode_hex_16 sender ≡ some envelope.sender_device_id
  pub sent_at : envelope.server_timestamp ≡ draws.handled_at
  pub until :
      envelope.expires_at
      ≡ saturating_add draws.handled_at (as_u64 (ttl_or_default req.ttl_seconds))
  pub active : sender_active sender s.db ≡ true
  pub lives : before envelope.server_timestamp envelope.expires_at ≡ true
  pub known : device_exists (encode_hex envelope.recipient_device_id) s.db ≡ true
  pub known_sender : device_exists (encode_hex envelope.sender_device_id) s.db ≡ true
  pub fresh :
      find_first (λ e. str_eq e.message_id (encode_hex envelope.message_id)) s.db.message_envelopes
      ≡ none
  pub room :
      count_of (waits_for (encode_hex envelope.recipient_device_id)) s.db.message_envelopes < 10_000
  pub room_overall : count_of is_queued s.db.message_envelopes < 100_000

module _ (services : Services) (draws : Draws) (body sender : Text) (s : AppState)
    (envelope : MessageEnvelope) (a : Accepted services draws body sender s envelope) where
  parse_envelope-Accepted : parse_envelope services draws a.req sender s ≡ (ok envelope, s)
  unfolding parse_envelope
  parse_envelope-Accepted =
      let versions : (a.req.protocol_version == current) ≡ true = ground (arith, a.version) in
      rw (versions, a.message_id, a.recipient, a.ciphertext, a.ttl, a.authenticated)
        (ground (arith, a.same_version, a.sent_at, a.until))

  enqueue_message-Accepted : enqueue_message envelope s.db ≡ (
    ok (encode_hex envelope.message_id),
    record s.db { message_envelopes = s.db.message_envelopes ++ (row envelope ∷ []) },
  )
  unfolding enqueue_message insert_message
  enqueue_message-Accepted =
      let one : leb 10_000
            (count_of (waits_for (encode_hex envelope.recipient_device_id)) s.db.message_envelopes)
          ≡ false =
        ground (arith, a.room) in
      let all : leb 100_000 (count_of is_queued s.db.message_envelopes) ≡ false =
        ground (arith, a.room_overall) in
      rw (a.lives, a.known, a.known_sender, a.fresh, one, all)

  -- The state after the request.
  queued_state : AppState
  queued_state = record s { db = (enqueue_message envelope s.db).1 }

  handle_send-Accepted : handle_send services draws body sender s ≡ (
    ok (
        answer 202 (
          number_field "protocol_version" a.req.protocol_version (
            text_field "message_id" (encode_hex envelope.message_id) (
              number_field "server_timestamp" draws.handled_at
                (number_field "expires_at" envelope.expires_at end))))),
    queued_state,
  )
  unfolding handle_send with_db queued_state
  handle_send-Accepted =
      rw (a.read, parse_envelope-Accepted, a.active, ap (λ r. r.0) enqueue_message-Accepted)

  -- A request to send that meets the conditions is answered 202, and when the recipient next asks for its
  -- own queue before the message expires, it gets the message among the envelopes, with the
  -- ciphertext that was sent and the authenticated device as the sender, whatever the request said.
  pub pull-send :
      (later : Draws) (url : Text)
      → query_param url "device_id" ≡ some (encode_hex envelope.recipient_device_id)
      → before envelope.expires_at later.handled_at ≡ false
      → let (sent, s') = handle_send services draws body sender s in
        (ms : List QueuedEnvelope) × (sent
          ≡ ok (
              answer 202 (
                number_field "protocol_version" a.req.protocol_version (
                  text_field "message_id" (encode_hex envelope.message_id) (
                    number_field "server_timestamp" draws.handled_at
                      (number_field "expires_at" envelope.expires_at end))))))
        × ((handle_pull services later url (encode_hex envelope.recipient_device_id) s').0
            ≡ ok (answer 200 (field (codes "envelopes") (array (shown_all ms)) end)))
        × Memᴰ (queued_envelope (row envelope)) ms
  unfolding handle_pull with_db queued_state
  pull-send later url asks alive =
      let device : Text = encode_hex envelope.recipient_device_id in
      let (ms, e, found) =
        pull_messages-enqueue envelope later.handled_at s.db (encode_hex envelope.message_id)
          a.fresh (ap (λ r. r.0) enqueue_message-Accepted) alive in
      rw handle_send-Accepted (ms, refl, rw (asks, str_eq_refl device, e), found)
