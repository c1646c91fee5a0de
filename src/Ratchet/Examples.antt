-- ===== src/Ratchet/Examples.antt =====
-- The theorems at a concrete session, over the sample library.
use upmessenger.Base.{◌≡◌, refl, none, some, [], ◌∷◌, ok}
use upmessenger.Ratchet.{DoubleRatchetSession, snapshot, from_snapshot, lookup, id_eq}
use upmessenger.Base.{str_eq}
use upmessenger.Ratchet.Snapshots.{IsValid, from_snapshot-snapshot}
use upmessenger.Samples.{zeros, library}

abbrev stored : DoubleRatchetSession
stored = record {
  protocol_version = 4;
  peer_device = zeros 16;
  root_key = zeros 32;
  dh_self = 66 ∷ [];
  dh_self_public = 66 ∷ [];
  dh_remote_public = some (65 ∷ []);
  sending_chain_key = none;
  receiving_chain_key = some (zeros 32);
  send_count = 0;
  recv_count = 3;
  prev_chain_len = 0;
  skipped = ((65 ∷ [], 0), 1 ∷ []) ∷ ((65 ∷ [], 1), 2 ∷ []) ∷ [];
}

stored-IsValid : IsValid library stored
unfolding lookup id_eq str_eq
stored-IsValid = record { version = refl; own_public = refl; distinct = (refl, (refl, tt)) }

from_snapshot-snapshot_example : from_snapshot library (snapshot stored) ≡ ok stored
from_snapshot-snapshot_example = from_snapshot-snapshot library stored stored-IsValid
