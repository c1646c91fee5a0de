-- ===== src/LocalStore/Outbox.antt =====
-- clients/upm-windows/src/local_store.rs: the messages that wait for their delivery.
use upmessenger.Base.{
  ℕ, not, List, [], ◌∷◌, ◌++◌, Bytes, str_eq, Result, ok, err, ok_or, select, ltb, ◌>>=◌,
  if◌then◌else◌,
}
use upmessenger.Protocol.{MessageId, encode_hex}
use upmessenger.LocalStore.{
  LocalStoreError, serialization, Formats, Action, OutboxItem, OutboxRow, encrypt_record,
  decrypt_record,
}

-- `ORDER BY created_at ASC`
unfoldable pub by_time : OutboxRow → List OutboxRow → List OutboxRow
by_time r [] = r ∷ []
by_time r (x ∷ xs) =
    let rest = by_time r xs in if ltb x.created_at r.created_at then x ∷ rest else r ∷ x ∷ xs

unfoldable pub order_by_time : List OutboxRow → List OutboxRow
order_by_time [] = []
order_by_time (r ∷ rows) = by_time r (order_by_time rows)

unfoldable pub delete_outbox : MessageId → Action (Unit {0})
delete_outbox message_id s = (
  ok tt,
  record s { outbox = select (λ r. not (str_eq r.message_id (encode_hex message_id))) s.outbox },
)

module _ (formats : Formats) (key : Bytes) where
  -- The record of an item.
  unfoldable pub sealed_item : Bytes → OutboxItem → Result LocalStoreError Bytes
  sealed_item nonce item = do
    plaintext ← ok_or (formats.item_to_vec item) serialization
    encrypt_record formats key nonce plaintext

  -- `INSERT OR REPLACE`: a row with the same key goes, and the new row comes last.
  unfoldable pub save_outbox : Bytes → ℕ → OutboxItem → Action (Unit {0})
  save_outbox nonce now item s = elim (sealed_item nonce item) [
    | err e ↦ (err e, s)
    | ok blob ↦ (
      ok tt,
      record s {
        outbox =
            select (λ r. not (str_eq r.message_id (encode_hex item.message_id))) s.outbox
            ++ (record {
              message_id = encode_hex item.message_id;
              encrypted_record = blob;
              created_at = now;
            }
                ∷ []);
      },
    )
  ]

  unfoldable pub read_item : Bytes → Result LocalStoreError OutboxItem
  read_item blob = do
    plaintext ← decrypt_record formats key blob
    ok_or (formats.item_from_slice plaintext) serialization

  -- The loop of `load_outbox`, which ends at the first row that cannot be read.
  unfoldable pub read_items : List OutboxRow → Result LocalStoreError (List OutboxItem)
  read_items [] = ok []
  read_items (r ∷ rows) = do
    item ← read_item r.encrypted_record
    rest ← read_items rows
    ok (item ∷ rest)

  unfoldable pub load_outbox : Action (List OutboxItem)
  load_outbox s = (read_items (order_by_time s.outbox), s)
