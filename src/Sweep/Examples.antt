-- ===== src/Sweep/Examples.antt =====
-- A sweep of a server with one attachment that has expired and one that has not.
use upmessenger.Base.{◌<◌, ◌≡◌, refl, true, none, some, [], ◌∷◌, codes, str_eq, All}
use upmessenger.Server.{Attachment}
use upmessenger.Server.Examples.Tables.{tables, alice_device}
use upmessenger.Api.{AppState}
use upmessenger.Api.Folder.{read_file, attachment_path}
use upmessenger.Api.Examples.Setting.{server}
use upmessenger.Sweep.{run_sweep}
use upmessenger.Sweep.Files.{expired_keys, run_sweep-expired}

abbrev old : Attachment
old = record {
  attachment_id = codes "A0";
  owner_message_id = none;
  owner_device_id = some alice_device;
  opaque_size = 3;
  storage_key = codes "F0";
  capability_hash = codes "H";
  expires_at = 5000;
  uploaded_at = some 4000;
}

abbrev recent : Attachment
recent = record old { attachment_id = codes "A1"; storage_key = codes "F1"; expires_at = 9000 }

abbrev holding : AppState
holding = record server {
  db = record tables { attachments = old ∷ recent ∷ [] };
  attachment_dir = (codes "F0.blob", 7 ∷ 8 ∷ 9 ∷ []) ∷ (codes "F1.blob", 1 ∷ 2 ∷ 3 ∷ []) ∷ [];
}

run_sweep-expired_example :
    All (λ a. 5000 < a.expires_at) (run_sweep 5000 (λ key. true) holding).db.attachments
    × All
        (λ key.
          read_file (attachment_path key) (run_sweep 5000 (λ k. true) holding).attachment_dir
          ≡ none)
        (expired_keys 5000 holding.db)
    × (read_file (codes "F1.blob") (run_sweep 5000 (λ key. true) holding).attachment_dir
        ≡ some (1 ∷ 2 ∷ 3 ∷ []))
unfolding read_file str_eq attachment_path
run_sweep-expired_example =
    run_sweep-expired 5000 (λ key. true) (codes "F1.blob") holding (λ key. refl) (refl, tt)
