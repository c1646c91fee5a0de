-- ===== src/LocalStore/Records.antt =====
-- clients/upm-windows/src/local_store.rs: the pinned identities of peers, and the messages that were processed.
use upmessenger.Base.{
  ℕ, Bool, true, false, none, some, [], ◌∷◌, ◌++◌, Bytes, Text, str_eq, ok, find_first, select, not,
}
use upmessenger.Base.State.{gets, modify, ◌>>=◌}
use upmessenger.Protocol.{MessageId, encode_hex}
use upmessenger.Ratchet.{DoubleRatchetSession}
use upmessenger.LocalStore.{
  Formats, Action, OutboxItem, upsert_session, insert_processed, sealed_message, sealed_session,
}

unfoldable pub pin_or_verify_peer : ℕ → Text → Text → Action Bool
pin_or_verify_peer now peer_device_id identity_public_key s =
    elim (find_first (λ r. str_eq r.peer_device_id peer_device_id) s.peer_identities) [
      | none ↦ (
        ok true,
        record s {
          peer_identities =
              s.peer_identities
              ++ (record {
                peer_device_id = peer_device_id;
                identity_public_key = identity_public_key;
                pinned_at = now;
              }
                  ∷ []);
        },
      )
      | some existing ↦ (ok (str_eq existing.identity_public_key identity_public_key), s)
    ]

unfoldable pub is_message_processed : MessageId → Text → Action Bool
is_message_processed message_id peer_device_id = gets λ s.
    ok (elim (find_first (λ r. str_eq r.message_id (encode_hex message_id)) s.processed_messages) [
      | none ↦ false
      | some r ↦ str_eq r.peer_device_id peer_device_id
    ])

module _ (formats : Formats) (key : Bytes) where
  -- The statements of the transaction follow once both records are sealed, and none of them can fail.
  unfoldable pub commit_incoming_message :
      Bytes → Bytes → Text → MessageId → Text → DoubleRatchetSession → ℕ → Action (Unit {0})
  commit_incoming_message nonce nonce' peer message_id text session created_at = do
    message_blob ←
        sealed_message formats key nonce
          (record { peer_device_id = peer; direction = 1; text = text; created_at = created_at })
    snapshot_blob ← sealed_session formats key nonce' session
    modify λ s. record s {
      messages =
          s.messages
          ++ (record {
            peer_device_id = peer;
            direction = 1;
            created_at = created_at;
            encrypted_text = message_blob;
          }
              ∷ []);
      sessions =
          upsert_session
            (record {
              peer_device_id = peer;
              encrypted_state = snapshot_blob;
              updated_at = created_at;
            })
            s.sessions;
      processed_messages =
          insert_processed
            (record {
              message_id = encode_hex message_id;
              peer_device_id = peer;
              processed_at = created_at;
            })
            s.processed_messages;
    }

  unfoldable pub commit_outgoing_delivery :
      Bytes → Bytes → OutboxItem → DoubleRatchetSession → ℕ → Action (Unit {0})
  commit_outgoing_delivery nonce nonce' item session created_at = do
    message_blob ← sealed_message formats key nonce (record {
      peer_device_id = item.peer_device_id;
      direction = 0;
      text = item.text;
      created_at = created_at;
    })
    snapshot_blob ← sealed_session formats key nonce' session
    modify λ s. record s {
      messages =
          s.messages
          ++ (record {
            peer_device_id = item.peer_device_id;
            direction = 0;
            created_at = created_at;
            encrypted_text = message_blob;
          }
              ∷ []);
      sessions =
          upsert_session
            (record {
              peer_device_id = item.peer_device_id;
              encrypted_state = snapshot_blob;
              updated_at = created_at;
            })
            s.sessions;
      outbox = select (λ r. not (str_eq r.message_id (encode_hex item.message_id))) s.outbox;
    }
