-- ===== src/Server/Examples/Accounts.antt =====
-- The theorems on accounts, prekeys and attachments.
use upmessenger.Base.{
  leb, ◌&&◌, ◌+◌, if◌then◌else◌, ◌≡◌, ◌≤◌, refl, false, none, some, [], ◌∷◌, ◌*◌, Bytes, Text,
  codes, str_eq, ok, find_first,
}
use upmessenger.Samples.{zeros}
use upmessenger.Server.{transaction}
use upmessenger.Server.Accounts.{
  RegisteredAccount, register_account, insert_user, insert_device, conflicts, resolve_username,
  device_of,
}
use upmessenger.Server.Accounts.Registration.{resolve_username-register}
use upmessenger.Server.Attachments.{
  AttachmentSlot, create_attachment, insert_attachment, sum_where, is_committed,
  max_device_attachment_bytes,
}
use upmessenger.Server.Attachments.Storage.{create_attachment_quota}
use upmessenger.Server.Prekeys.{
  OneTimePreKeyRecord, claim_one_time_prekey, oldest, is_candidate, is_unclaimed, is_claimed_by,
  mark_claimed,
}
use upmessenger.Server.Prekeys.Claims.{claims, claim_one_time_prekey_once}
use upmessenger.Server.Examples.Tables.{tables, bob_device, alice_device}

-- Lower case of ASCII letters.
abbrev lower : Text → Text
lower [] = []
lower (c ∷ name) = (if leb 65 c && leb c 90 then c + 32 else c) ∷ lower name

abbrev carol : RegisteredAccount
carol = record { user_id = codes "C"; upm_id = codes "7F3A-91D2-4C2P"; device_id = codes "D" }

registers : (register_account lower carol 500 (codes "Carol") (codes "key") tables).0 ≡ ok carol
unfolding register_account insert_user insert_device conflicts transaction str_eq
registers = refl

no_device : find_first (device_of (codes "C")) tables.devices ≡ none
unfolding str_eq
no_device = refl

resolve_username-register_example :
    (resolve_username lower
      (codes "carol")
      (register_account lower carol 500 (codes "Carol") (codes "key") tables).1).0
    ≡ ok (
        some (record {
          upm_id = codes "7F3A-91D2-4C2P";
          username = codes "Carol";
          device_id = codes "D";
          identity_public_key = codes "key";
        }))
resolve_username-register_example =
    resolve_username-register lower carol 500 (codes "Carol") (codes "key") tables carol registers
      (codes "carol") refl no_device

abbrev slot : AttachmentSlot
slot = record { attachment_id = codes "F"; storage_key = codes "G"; capability = codes "H" }

abbrev digest : Bytes → Bytes
digest message = zeros 32

creates : (create_attachment digest slot 500 501 bob_device (100 * 1024 * 1024) tables).0 ≡ ok slot
unfolding create_attachment insert_attachment sum_where str_eq
creates = refl

create_attachment_quota_example :
    sum_where
      (is_committed bob_device 500)
      (create_attachment digest slot 500 501 bob_device (100 * 1024 * 1024) tables).1.attachments
    ≤ max_device_attachment_bytes
create_attachment_quota_example =
    create_attachment_quota digest slot slot 500 501 bob_device (100 * 1024 * 1024) tables creates

abbrev first : OneTimePreKeyRecord
first = record { prekey_id = codes "Q"; public_key = codes "K"; signature = codes "S" }

abbrev second : OneTimePreKeyRecord
second = record first { prekey_id = codes "P" }

first_claim : (claim_one_time_prekey 400 bob_device tables).0 ≡ ok (some first)
unfolding claim_one_time_prekey oldest is_candidate is_unclaimed is_claimed_by mark_claimed str_eq
first_claim = refl

second_claim :
    (claim_one_time_prekey 402 bob_device
      (claims ((401, alice_device) ∷ []) (claim_one_time_prekey 400 bob_device tables).1)).0
    ≡ ok (some second)
unfolding claim_one_time_prekey oldest is_candidate is_unclaimed is_claimed_by mark_claimed str_eq
    claims
second_claim = refl

claim_one_time_prekey_once_example : str_eq (codes "P") (codes "Q") ≡ false
claim_one_time_prekey_once_example =
    claim_one_time_prekey_once 400 402 bob_device ((401, alice_device) ∷ []) tables first second
      first_claim second_claim
