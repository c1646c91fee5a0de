-- ===== src/Api/Examples/Setting.antt =====
-- A server with two accounts, and libraries that read one fixed request of each kind.
use upmessenger.Base.{ℕ, true, none, some, [], Bytes}
use upmessenger.Codec.{base64_encode}
use upmessenger.Crypto.{Primitives}
use upmessenger.Protocol.{encode_hex}
use upmessenger.Samples.{zeros, primitives}
use upmessenger.Server.Examples.Tables.{tables, hello, bob_id}
use upmessenger.Api.{Services, Draws, AppState, SendRequest, PublishKeysRequest, pos}
use upmessenger.Api.Folder.{Disk}

abbrev pub digest : Bytes → Bytes
digest message = zeros 32

-- A library under which every signature verifies.
abbrev pub lenient : Primitives
lenient = record primitives { ed25519_verifies = λ key message signature. true }

abbrev pub send_request : SendRequest
send_request = record {
  protocol_version = 4;
  message_id = encode_hex (zeros 16);
  recipient_device_id = encode_hex bob_id;
  ciphertext_base64 = base64_encode hello.ciphertext;
  ttl_seconds = some (pos 1000);
}

abbrev pub keys_request : PublishKeysRequest
keys_request = record {
  identity_exchange_public = base64_encode (zeros 32);
  signed_prekey_public = base64_encode (zeros 32);
  signed_prekey_signature = base64_encode (zeros 64);
}

abbrev pub services : Services
services = record {
  primitives = lenient;
  sha256 = digest;
  to_lowercase = λ t. t;
  read_register = λ body. none;
  read_challenge = λ body. none;
  read_verify = λ body. none;
  read_privacy = λ body. none;
  read_keys = λ body. some keys_request;
  read_prekeys = λ body. none;
  read_claim = λ body. none;
  read_send = λ body. some send_request;
  read_ack = λ body. none;
  read_attachment = λ body. none;
  device_id_field = λ body. none;
}

abbrev pub at_time : ℕ → Draws
at_time now = record {
  limited_at = now;
  limited_again_at = now;
  authenticated_at = now;
  handled_at = now;
  stored_at = now;
  logged_at = now;
  account = record { user_id = []; upm_id = []; device_id = [] };
  challenge = [];
  token = [];
  slot = record { attachment_id = []; storage_key = []; capability = [] };
}

abbrev pub disk : Disk
disk = record {
  directory_made = true;
  written = true;
  left_by_failure = [];
  renamed = true;
  removed = true;
  readable = true;
}

abbrev pub server : AppState
server = record {
  db = tables;
  attachment_dir = [];
  ip_limiter = record { limit = 100; window_secs = 60; max_tracked_keys = 10; state = [] };
  register_limiter = record { limit = 5; window_secs = 3600; max_tracked_keys = 10; state = [] };
  auth_limiter = record { limit = 20; window_secs = 60; max_tracked_keys = 10; state = [] };
}
