-- ===== src/Server/Examples/Messages.antt =====
-- The theorems on the queue, at one message from Alice to Bob.
use upmessenger.Base.{◌≡◌, refl, false, List, [], ◌∷◌, str_eq, ok, err, arith, select}
use mathlib.Core.List.{Memᴰ}
use upmessenger.Protocol.{encode_hex}
use upmessenger.Server.{Database, DbError}
use upmessenger.Server.Queue.{
  row, queued_envelope, QueuedEnvelope, enqueue_message, insert_message, pull_messages,
  ack_messages,
}
use upmessenger.Server.Queue.Quota.{IsWithinQuota, Reaches, Step, Reaches-IsWithinQuota}
use upmessenger.Server.Queue.Delivery.{Pulled, pull_messages_iff, pull_messages-enqueue}
use upmessenger.Server.Queue.Acknowledgement.{ack_messages_others}
use upmessenger.Server.Queue.Retries.{enqueue_message_again, enqueue_message_forged}
use upmessenger.Server.Examples.Tables.{tables, hello, alice_device, bob_device}

abbrev after : Database
after = record tables { message_envelopes = row hello ∷ [] }

accepts : (enqueue_message hello tables).0 ≡ ok alice_device
unfolding enqueue_message insert_message encode_hex str_eq
accepts = refl

names_bob : encode_hex hello.recipient_device_id ≡ bob_device
unfolding encode_hex
names_bob = refl

pull_messages-enqueue_example :
    (ms : List QueuedEnvelope) × ((pull_messages 1500
        (encode_hex hello.recipient_device_id)
        (enqueue_message hello tables).1).0
      ≡ ok ms)
    × Memᴰ (queued_envelope (row hello)) ms
pull_messages-enqueue_example =
    pull_messages-enqueue hello 1500 tables alice_device refl accepts (ground arith)

pull_messages_iff_example :
    (ms : List QueuedEnvelope) × ((pull_messages 1500 bob_device after).0 ≡ ok ms)
    × ((q : QueuedEnvelope)
        → (Memᴰ q ms → Pulled 1500 bob_device after.message_envelopes q)
          × (Pulled 1500 bob_device after.message_envelopes q → Memᴰ q ms))
pull_messages_iff_example = pull_messages_iff 1500 bob_device after

empty-IsWithinQuota : IsWithinQuota tables.message_envelopes
empty-IsWithinQuota = record { device = λ d. omega arith; total = omega arith }

Reaches-IsWithinQuota_example :
    IsWithinQuota
      (ack_messages bob_device
        (alice_device ∷ [])
        (enqueue_message hello tables).1).1.message_envelopes
Reaches-IsWithinQuota_example =
    Reaches-IsWithinQuota
      (Reaches.next (Reaches.next (Reaches.here tables) (Step.send hello tables))
        (Step.ack bob_device (alice_device ∷ []) (enqueue_message hello tables).1))
      empty-IsWithinQuota

enqueue_message_again_example :
    enqueue_message hello (enqueue_message hello tables).1
    ≡ (ok alice_device, (enqueue_message hello tables).1)
enqueue_message_again_example = enqueue_message_again hello tables alice_device refl accepts

differs : str_eq hello.ciphertext (1 ∷ []) ≡ false
unfolding str_eq
differs = refl

enqueue_message_forged_example :
    (e : DbError) × (enqueue_message
        (record hello { ciphertext = 1 ∷ [] })
        (enqueue_message hello tables).1
      ≡ (err e, (enqueue_message hello tables).1))
enqueue_message_forged_example =
    enqueue_message_forged hello tables alice_device refl accepts
      (record hello { ciphertext = 1 ∷ [] }) refl differs

not_alice : str_eq bob_device alice_device ≡ false
unfolding str_eq
not_alice = refl

ack_messages_others_example :
    select
      (λ e. str_eq e.recipient_device_id bob_device)
      (ack_messages alice_device (alice_device ∷ []) after).1.message_envelopes
    ≡ select (λ e. str_eq e.recipient_device_id bob_device) after.message_envelopes
ack_messages_others_example =
    ack_messages_others alice_device bob_device (alice_device ∷ []) after not_alice
