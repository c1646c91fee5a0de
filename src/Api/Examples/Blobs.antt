-- ===== src/Api/Examples/Blobs.antt =====
-- The theorems on uploads and downloads, at a slot of Alice.
use upmessenger.Base.{
  ◌≡◌, refl, true, none, some, [], ◌∷◌, Bytes, Text, codes, Result, ok, err, arith, str_eq,
}
use upmessenger.Codec.{hex_encode}
use upmessenger.Protocol.{encode_hex}
use upmessenger.Protocol.Identifiers.{decode_hex_16-encode}
use upmessenger.Samples.{zeros}
use upmessenger.Server.{Attachment}
use upmessenger.Server.Attachments.{attachment_capability_matches, hash_capability, is_empty}
use upmessenger.Server.Attachments.Uploads.{record_of}
use upmessenger.Server.Examples.Tables.{tables, alice_device}
use upmessenger.Api.{AppState}
use upmessenger.Api.Folder.{read_file, attachment_path}
use upmessenger.Api.Files.{
  FileResponse, message, handle_attachment_upload, handle_attachment_download,
}
use upmessenger.Api.Transfers.{Sound, Reserved, download-upload}
use upmessenger.Api.Repeated.{upload_again}
use upmessenger.Api.Examples.Setting.{digest, services, at_time, disk, server}

abbrev id : Text
id = encode_hex (zeros 16)

abbrev slot : Attachment
slot = record {
  attachment_id = id;
  owner_message_id = none;
  owner_device_id = some alice_device;
  opaque_size = 3;
  storage_key = codes "F0";
  capability_hash = hex_encode true (zeros 32);
  expires_at = 5000;
  uploaded_at = none;
}

abbrev holding : AppState
holding = record server { db = record tables { attachments = slot ∷ [] } }

works : Sound disk
works = record {
  directory_made = refl;
  written = refl;
  renamed = refl;
  removed = refl;
  readable = refl;
}

abbrev body : Bytes
body = 7 ∷ 8 ∷ 9 ∷ []

reserved : Reserved id alice_device body 1000 holding
unfolding str_eq encode_hex
reserved = record {
  row = slot;
  parsed = zeros 16;
  well_formed = decode_hex_16-encode (zeros 16) (ground arith) refl;
  found = refl;
  owner = refl;
  pending = refl;
  size = refl;
  size_fits = omega arith;
  in_time = omega arith;
}

opens : attachment_capability_matches digest (record_of slot) (codes "key") ≡ true
unfolding attachment_capability_matches hash_capability is_empty hex_encode str_eq
opens = refl

-- The upload, and the server after it, when another file has come.
abbrev sent : Result FileResponse FileResponse × AppState
sent = handle_attachment_upload services (at_time 1000) disk id alice_device (some body) holding

abbrev since : AppState
since = record sent.1 { attachment_dir = (codes "F1.blob", []) ∷ sent.1.attachment_dir }

same_file :
    read_file (attachment_path (codes "F0")) since.attachment_dir
    ≡ read_file (attachment_path (codes "F0")) sent.1.attachment_dir
unfolding read_file attachment_path str_eq
same_file = refl

download-upload_example :
    (sent.0 ≡ ok (204, []))
    × (handle_attachment_download services (at_time 4000) disk id (some (codes "key")) since
        ≡ (ok (200, body), since))
unfolding reserved
download-upload_example =
    download-upload services disk works (at_time 1000) id alice_device body holding reserved
      (at_time 4000) (codes "key") opens since (omega arith) refl same_file

upload_again_example :
    let first =
      handle_attachment_upload services (at_time 1000) disk id alice_device (some body) holding in
    let second =
      handle_attachment_upload services (at_time 2000) disk id alice_device (some body) first.1 in
    (first.0 ≡ ok (204, []))
    × (second.0 ≡ err (message 404 "attachment state changed"))
    × (handle_attachment_download services (at_time 4000) disk id (some (codes "key")) second.1
        ≡ (err (message 404 "attachment blob not found"), second.1))
unfolding reserved
upload_again_example =
    upload_again services disk works (at_time 1000) id alice_device body holding reserved
      (at_time 2000) (at_time 4000) (codes "key") opens (omega arith) (omega arith)
