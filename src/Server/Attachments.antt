-- ===== src/Server/Attachments.antt =====
-- server/upm-server/src/db.rs: the slots of the encrypted attachments. `opaque_size` is a positive i64, as the
-- HTTP API checks before it calls `create_attachment`. The random identifiers, the clock and SHA-256 are
-- arguments.
pub mod Storage
pub mod Uploads
use upmessenger.Base.{
  ℕ, ◌+◌, ◌-◌, ◌*◌, ◌^◌, ◌≡◌, Bool, true, false, not, ◌&&◌, Option, none, some, List, [], ◌∷◌, ◌++◌,
  map, min, Bytes, Text, str_eq, Result, ok, err, find_first, select, count_of, ltb, if◌then◌else◌,
}
use upmessenger.Base.State.{gets}
use upmessenger.Codec.{hex_encode}
use upmessenger.Server.{
  Database, Attachment, DbError, device_not_found, attachment_quota_exceeded, sqlite,
  constraint_violation, Action, device_exists,
}

abbrev pub default_attachment_ttl_seconds : ℕ
default_attachment_ttl_seconds = 30 * 24 * 3600

abbrev pub max_device_attachment_bytes : ℕ
max_device_attachment_bytes = 500 * 1024 * 1024

pub record AttachmentSlot : Type 0 where
  pub attachment_id : Text
  pub storage_key : Text
  pub capability : Text

pub record AttachmentRecord : Type 0 where
  pub attachment_id : Text
  pub owner_device_id : Text
  pub opaque_size : ℕ
  pub storage_key : Text
  pub capability_hash : Text
  pub expires_at : ℕ
  pub uploaded : Bool

-- `column = ?` for a column that may be NULL
unfoldable pub is_some_text : Text → Option Text → Bool
is_some_text t none = false
is_some_text t (some x) = str_eq x t

abbrev pub owned_by : Text → Attachment → Bool
owned_by device a = is_some_text device a.owner_device_id

abbrev pub attachment_named : Text → Attachment → Bool
attachment_named id a = str_eq a.attachment_id id

-- `COALESCE(SUM(opaque_size), 0)` over the rows that pass a test
unfoldable pub sum_where : (Attachment → Bool) → List Attachment → ℕ
sum_where test [] = 0
sum_where test (a ∷ rest) =
    if test a then a.opaque_size + sum_where test rest else sum_where test rest

-- The rows that the quota of a device counts at a time.
abbrev pub is_committed : Text → ℕ → Attachment → Bool
is_committed device now a = owned_by device a && ltb now a.expires_at

-- i64::saturating_add, for values that are not negative
abbrev pub saturating_add : ℕ → ℕ → ℕ
saturating_add a b = min (a + b) (2 ^ 63 - 1)

-- The INSERT, whose key is `attachment_id`.
unfoldable pub insert_attachment : Attachment → AttachmentSlot → Action AttachmentSlot
insert_attachment a slot db = elim (find_first (attachment_named a.attachment_id) db.attachments) [
  | some r ↦ (err (sqlite constraint_violation), db)
  | none ↦ (ok slot, record db { attachments = db.attachments ++ (a ∷ []) })
]

module _ (sha256 : Bytes → Bytes) where
  unfoldable pub hash_capability : Text → Text
  hash_capability capability = hex_encode false (sha256 capability)

  unfoldable pub is_empty : Text → Bool
  is_empty [] = true
  is_empty (c ∷ t) = false

  unfoldable pub attachment_capability_matches : AttachmentRecord → Text → Bool
  attachment_capability_matches r capability =
      if is_empty r.capability_hash
      then false
      else str_eq (hash_capability capability) r.capability_hash

  unfoldable pub create_attachment : AttachmentSlot → ℕ → ℕ → Text → ℕ → Action AttachmentSlot
  create_attachment slot now later owner_device_id opaque_size db =
      if not (device_exists owner_device_id db)
      then (err device_not_found, db)
      else if ltb max_device_attachment_bytes
          (saturating_add (sum_where (is_committed owner_device_id now) db.attachments) opaque_size)
      then (err attachment_quota_exceeded, db)
      else insert_attachment
          (record {
            attachment_id = slot.attachment_id;
            owner_message_id = none;
            owner_device_id = some owner_device_id;
            opaque_size = opaque_size;
            storage_key = slot.storage_key;
            capability_hash = hash_capability slot.capability;
            expires_at = later + default_attachment_ttl_seconds;
            uploaded_at = none;
          })
          slot db

unfoldable pub text_or_default : Option Text → Text
text_or_default none = []
text_or_default (some t) = t

unfoldable pub is_uploaded : Option ℕ → Bool
is_uploaded none = false
is_uploaded (some t) = true

unfoldable pub get_attachment : Text → Action (Option AttachmentRecord)
get_attachment attachment_id = gets λ db.
    ok (elim (find_first (attachment_named attachment_id) db.attachments) [
      | none ↦ none
      | some a ↦ some (record {
        attachment_id = a.attachment_id;
        owner_device_id = text_or_default a.owner_device_id;
        opaque_size = a.opaque_size;
        storage_key = a.storage_key;
        capability_hash = a.capability_hash;
        expires_at = a.expires_at;
        uploaded = is_uploaded a.uploaded_at;
      })
    ])

-- The row that the UPDATE of an upload changes.
unfoldable pub is_pending : Text → Text → Attachment → Bool
is_pending id owner a = attachment_named id a && owned_by owner a && not (is_uploaded a.uploaded_at)

unfoldable pub mark_attachment_uploaded : ℕ → Text → Text → Action Bool
mark_attachment_uploaded now attachment_id owner_device_id db =
    let changed = count_of (is_pending attachment_id owner_device_id) db.attachments in
    let updated =
      map
        (λ a.
          if is_pending attachment_id owner_device_id a
          then record a { uploaded_at = some now }
          else a)
        db.attachments in
    (ok (ltb 0 changed), record db { attachments = updated })

pub delete_attachment : Text → Text → Action Bool
delete_attachment owner_device_id attachment_id db =
    let deleted : Attachment → Bool =
      λ a. attachment_named attachment_id a && owned_by owner_device_id a in
    (
      ok (ltb 0 (count_of deleted db.attachments)),
      record db { attachments = select (λ a. not (deleted a)) db.attachments },
    )
