-- ===== src/Api/Examples/Requests.antt =====
-- The theorems on requests, at one request each.
use mathlib.Core.List.{Memᴰ}
use mathlib.Core.Option.{none-ne-some}
use upmessenger.Base.{◌≡◌, refl, true, some, [], ◌∷◌, List, Text, codes, ok, arith, str_eq}
use upmessenger.Codec.Base64.{base64_decode-encode}
use upmessenger.Protocol.{encode_hex}
use upmessenger.Protocol.Identifiers.{decode_hex_16-encode}
use upmessenger.Samples.{zeros}
use upmessenger.Server.{Database}
use upmessenger.Server.Queue.{row, queued_envelope, QueuedEnvelope}
use upmessenger.Server.Examples.Tables.{hello, alice_device, bob_id}
use upmessenger.Api.{answer, text_field, number_field, field, array, end}
use upmessenger.Api.Paths.{
  matches, bound, path_of, segments, query_of, query_param, split, push_first, first_or_empty,
  is_empty, trim_start_matches, trim_end_matches, split_pair, find_param,
}
use upmessenger.Api.Requests.{get, post, Request, extract_bearer}
use upmessenger.Api.Routes.{endpoint, same_method}
use upmessenger.Api.Service.{reply, handle}
use upmessenger.Api.Access.{is_open, Refused}
use upmessenger.Api.Rejection.{IsRejected, needs_token, reply-IsRejected}
use upmessenger.Api.Keys.{handle_publish_keys}
use upmessenger.Api.Messages.{
  out_of_range, ttl_or_default, as_u64, sender_active, shown_all, handle_send, handle_pull,
}
use upmessenger.Api.Relay.{Accepted, pull-send}
use upmessenger.Api.Redaction.{logged_for, handle-logged}
use upmessenger.Api.Examples.Setting.{services, at_time, disk, server, send_request}

-- A message to be sent, under a token that the server has not issued.
abbrev forged : Request
forged = record {
  method = post;
  url = codes "/v1/messages/send";
  headers = (codes "authorization", codes "Bearer 00ff") ∷ [];
  remote_addr = some (codes "10.0.0.1");
  body = some (codes "{}");
}

forged_needs : needs_token forged ≡ true
unfolding needs_token matches path_of segments split push_first first_or_empty is_empty
    trim_start_matches trim_end_matches endpoint same_method bound is_open str_eq
forged_needs = refl

no_session : Refused services (at_time 1500) disk (extract_bearer forged) server
unfolding Refused
no_session token e x f = absurd (none-ne-some x f)

reply-IsRejected_example : IsRejected server (reply services (at_time 1500) disk forged server)
reply-IsRejected_example =
    reply-IsRejected services (at_time 1500) disk forged server forged_needs no_session

-- A request for the file of an attachment, with no token.
abbrev fetch : Request
fetch = record forged { method = get; url = codes "/v1/attachments/0F0F/blob"; headers = [] }

fetches :
    logged_for get (segments (path_of (codes "/v1/attachments/0F0F/blob")))
    ≡ some "/v1/attachments/:param/blob"
unfolding logged_for matches segments path_of first_or_empty split push_first is_empty
    trim_start_matches trim_end_matches str_eq
fetches = refl

handle-logged_example :
    (handle services (at_time 1000) disk fetch server).0.1.path
    ≡ codes "/v1/attachments/:param/blob"
handle-logged_example =
    handle-logged services (at_time 1000) disk fetch server "/v1/attachments/:param/blob" fetches

abbrev alice_sender : Text
alice_sender = encode_hex (zeros 16)

accepted : Accepted services (at_time 1000) (codes "{}") alice_sender server hello
unfolding out_of_range ttl_or_default as_u64 sender_active encode_hex str_eq
accepted = record {
  req = send_request;
  read = refl;
  version = refl;
  same_version = refl;
  message_id = decode_hex_16-encode (zeros 16) (ground arith) refl;
  recipient = decode_hex_16-encode bob_id (ground arith) refl;
  ciphertext = base64_decode-encode hello.ciphertext (ground arith);
  ttl = refl;
  authenticated = decode_hex_16-encode (zeros 16) (ground arith) refl;
  sent_at = refl;
  until = refl;
  active = refl;
  lives = refl;
  known = refl;
  known_sender = refl;
  fresh = refl;
  room = omega arith;
  room_overall = omega arith;
}

asks :
    query_param (codes "/v1/messages/pull?device_id=01000000000000000000000000000000") "device_id"
    ≡ some (encode_hex bob_id)
unfolding query_param query_of split push_first find_param split_pair encode_hex str_eq
asks = refl

pull-send_example :
    (ms : List QueuedEnvelope) × ((handle_send services
        (at_time 1000)
        (codes "{}")
        alice_sender
        server).0
      ≡ ok (
          answer 202 (
            number_field "protocol_version" 4 (
              text_field "message_id"
                (encode_hex (zeros 16))
                (number_field "server_timestamp" 1000 (number_field "expires_at" 2000 end))))))
    × ((handle_pull services
          (at_time 1500)
          (codes "/v1/messages/pull?device_id=01000000000000000000000000000000")
          (encode_hex bob_id)
          (handle_send services (at_time 1000) (codes "{}") alice_sender server).1).0
        ≡ ok (answer 200 (field (codes "envelopes") (array (shown_all ms)) end)))
    × Memᴰ (queued_envelope (row hello)) ms
unfolding accepted
pull-send_example =
    pull-send services (at_time 1000) (codes "{}") alice_sender server hello accepted (at_time 1500)
      (codes "/v1/messages/pull?device_id=01000000000000000000000000000000") asks refl

-- The tables some time later, when all messages are gone.
abbrev later_tables : Database
later_tables =
    record (handle_publish_keys services (at_time 1000) (codes "{}") alice_device server).1.db {
      message_envelopes = [];
    }
