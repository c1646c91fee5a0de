-- ===== src/Session/Examples.antt =====
-- The theorems at two concrete sessions, over the sample library.
use upmessenger.Base.{
  ℕ, ◌+◌, ◌≤◌, ◌≡◌, refl, true, none, some, [], ◌∷◌, Bytes, arith, ok, err, str_eq, length,
}
use upmessenger.Codec.{base64_encode}
use upmessenger.Crypto.{encrypt as aead_encrypt}
use upmessenger.Ratchet.{
  DoubleRatchetSession, RatchetHeader, WireMessage, lookup, id_eq, replay, snapshot, from_snapshot,
  too_many_skipped, wire, encoding,
}
use upmessenger.Ratchet.Snapshots.{IsValid}
use upmessenger.Ratchet.Derivation.{chain_step, chain_after, kdf_ck-step}
use upmessenger.Samples.{zeros, encode, library, library_laws}
use upmessenger.Session.{is_some_eq, encrypt, decrypt, decrypt_inner, commit, skip_receiving_keys}
use upmessenger.Session.Skipping.{skip_receiving_keys-ahead}
use upmessenger.Session.Delivery.{Carries}
use upmessenger.Session.Reordering.{Linked, decrypt-encrypt, decrypt_swapped}
use upmessenger.Session.Safety.{Follows, decrypt-err, decrypt_replay}
use upmessenger.Session.Storage.{unrestorable}

abbrev alice_key : Bytes
alice_key = 65 ∷ []

abbrev ck : Bytes
ck = zeros 32

abbrev alice : DoubleRatchetSession
alice = record {
  protocol_version = 4;
  peer_device = [];
  root_key = zeros 32;
  dh_self = alice_key;
  dh_self_public = alice_key;
  dh_remote_public = some (66 ∷ []);
  sending_chain_key = some ck;
  receiving_chain_key = some (zeros 32);
  send_count = 7;
  recv_count = 0;
  prev_chain_len = 0;
  skipped = [];
}

abbrev bob : DoubleRatchetSession
bob = record alice {
  dh_self = 66 ∷ [];
  dh_self_public = 66 ∷ [];
  dh_remote_public = some alice_key;
  recv_count = 7;
  send_count = 0;
}

abbrev hello : Bytes
hello = 104 ∷ 105 ∷ []

abbrev bye : Bytes
bye = 98 ∷ 121 ∷ 101 ∷ []

-- Message `n` of a chain of Alice, as she puts it on the wire.
abbrev wire_of : ℕ → Bytes → Bytes
wire_of n plaintext = encode (record {
  header = record { dh_pub = alice_key; pn = 0; n = n };
  ciphertext_base64 = base64_encode plaintext;
})

hello_sent : (encrypt library hello alice).0 ≡ ok (wire_of 7 hello)
unfolding encrypt aead_encrypt
hello_sent = rw (kdf_ck-step library library_laws ck) refl

bye_sent : (encrypt library bye (encrypt library hello alice).1).0 ≡ ok (wire_of 8 bye)
unfolding encrypt aead_encrypt
bye_sent =
    rw
      (
        kdf_ck-step library library_laws ck,
        kdf_ck-step library library_laws (chain_step library ck),
      )
      refl

linked : Linked library 0 ck alice bob
unfolding is_some_eq str_eq lookup chain_after
linked = record {
  sending = refl;
  receiving = refl;
  remote = refl;
  number = refl;
  unseen = λ m h. refl;
}

decrypt-encrypt_example :
    ((decrypt library [] (wire_of 7 hello) bob).0 ≡ ok hello)
    × Linked library 0
        (chain_step library (chain_after library 0 ck))
        (encrypt library hello alice).1
        (decrypt library [] (wire_of 7 hello) bob).1
decrypt-encrypt_example =
    decrypt-encrypt library library_laws [] ck alice bob 0 hello (wire_of 7 hello) linked
      (omega arith) (omega arith) hello_sent

decrypt_swapped_example :
    ((decrypt library [] (wire_of 8 bye) bob).0 ≡ ok bye)
    × ((decrypt library [] (wire_of 7 hello) (decrypt library [] (wire_of 8 bye) bob).1).0
        ≡ ok hello)
decrypt_swapped_example =
    decrypt_swapped library library_laws [] ck alice bob hello bye (wire_of 7 hello) (wire_of 8 bye)
      linked (omega arith) hello_sent bye_sent

malformed : (decrypt library [] [] bob).0 ≡ err (wire encoding)
unfolding decrypt decrypt_inner commit
malformed = refl

decrypt-err_example : (decrypt library [] [] bob).1 ≡ bob
decrypt-err_example = decrypt-err library [] [] bob (wire encoding) malformed

hello_message : WireMessage
hello_message = record {
  header = record { dh_pub = alice_key; pn = 0; n = 7 };
  ciphertext_base64 = base64_encode hello;
}

follows : Follows library hello_message.header ck bob
unfolding is_some_eq str_eq lookup hello_message
follows = record { remote = refl; receiving = refl; distinct = tt; unseen = λ m h. refl }

read_hello : library.wire_from_slice (wire_of 7 hello) ≡ some hello_message
unfolding hello_message
read_hello = refl

decrypt_replay_example :
    let s' = (decrypt library [] (wire_of 7 hello) bob).1 in
    decrypt library [] (wire_of 7 hello) s' ≡ (err replay, s')
unfolding hello_message
decrypt_replay_example =
    decrypt_replay library library_laws [] [] (wire_of 7 hello) ck hello hello_message bob
      read_hello follows (omega arith)
      (decrypt-encrypt library library_laws [] ck alice bob 0 hello (wire_of 7 hello) linked
        (omega arith) (omega arith) hello_sent).0

skip_receiving_keys-ahead_example :
    skip_receiving_keys library alice_key 1009 bob ≡ (err too_many_skipped, bob)
skip_receiving_keys-ahead_example =
    skip_receiving_keys-ahead library library_laws alice_key 1009 ck bob refl (omega arith)
      (omega arith)

-- Bob has put one key aside, of another chain.
abbrev crowded : DoubleRatchetSession
crowded = record bob { skipped = ((1 ∷ [], 3), zeros 32) ∷ [] }

abbrev far_header : RatchetHeader
far_header = record { dh_pub = alice_key; pn = 0; n = 1007 }

crowded-IsValid : IsValid library crowded
unfolding lookup
crowded-IsValid = record { version = refl; own_public = refl; distinct = (refl, tt) }

far-Carries : Carries library (chain_after library 1000 ck) far_header hello (wire_of 1007 hello)
far-Carries = record {
  body = hello;
  aad = 0 ∷ 1007 ∷ alice_key;
  read = refl;
  aad_of = refl;
  sealed = refl;
}

is_remote : is_some_eq crowded.dh_remote_public alice_key ≡ true
unfolding is_some_eq str_eq
is_remote = refl

none_ahead : (i : ℕ) → 7 ≤ i → lookup (alice_key, i) crowded.skipped ≡ none
unfolding lookup id_eq str_eq
none_ahead i h = refl

unrestorable_example :
    ((decrypt library [] (wire_of 1007 hello) crowded).0 ≡ ok hello)
    × (length (decrypt library [] (wire_of 1007 hello) crowded).1.skipped ≡ 1 + 1000)
    × (from_snapshot library (snapshot (decrypt library [] (wire_of 1007 hello) crowded).1)
        ≡ err too_many_skipped)
unrestorable_example =
    unrestorable library library_laws [] hello (wire_of 1007 hello) ck far_header crowded 1000
      crowded-IsValid refl far-Carries is_remote none_ahead refl (omega arith) (omega arith)
      (omega arith)
