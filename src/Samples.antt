-- ===== src/Samples.antt =====
-- A library that satisfies the laws of the cryptographic libraries and of serde_json, for runs of the model.
use upmessenger.Base.{
  ℕ, zero, suc, ◌+◌, ◌<◌, ◌≡◌, refl, sym, ap, true, Option, none, some, [], ◌∷◌, ◌++◌, Bytes,
  AreBytes, str_eq, length, take, drop, all_of, ltb, arith, if◌then◌else◌, take-length_append,
  drop-length_append,
}
use mathlib.Core.Option.{some-injective}
use upmessenger.Crypto.{Primitives, Laws}
use upmessenger.Ratchet.{Library, WireMessage}
use upmessenger.Ratchet.Derivation.{LibraryLaws}

abbrev pub zeros : ℕ → Bytes
zeros zero = []
zeros (suc n) = 0 ∷ zeros n

length-zeros : (n : ℕ) → length (zeros n) ≡ n
length-zeros zero = refl
length-zeros (suc n) = omega (arith, length-zeros n)

abbrev seal_bytes : Bytes → Option Bytes
seal_bytes message = if all_of (λ b. ltb b 256) message then some message else none

abbrev pub primitives : Primitives
primitives = record {
  x25519_public = λ secret. secret;
  diffie_hellman = λ a b. (length a + length b) ∷ [];
  was_contributory = λ _. true;
  hkdf_expand = λ salt ikm info n. some (zeros n);
  is_verifying_key = λ _. true;
  ed25519_verifies = λ key message signature. str_eq message signature;
  seal = λ key nonce message aad. seal_bytes message;
  unseal = λ key nonce message aad. some message;
}

all_of-AreBytes : (m : Bytes) → all_of (λ b. ltb b 256) m ≡ true → AreBytes m
all_of-AreBytes [] h = tt
all_of-AreBytes (b ∷ m) h =
    let first : b < 256 = ground arith in
    let rest : all_of (λ x. ltb x 256) m ≡ true = ground arith in (first, all_of-AreBytes m rest)

AreBytes-all_of : (m : Bytes) → AreBytes m → all_of (λ b. ltb b 256) m ≡ true
AreBytes-all_of [] h = refl
AreBytes-all_of (b ∷ m) (first, rest) = ground (arith, AreBytes-all_of m rest)

seal_bytes-some :
    (m v : Bytes) → seal_bytes m ≡ some v → (all_of (λ b. ltb b 256) m ≡ true) × (m ≡ v)
seal_bytes-some m v h = ground arith

pub primitive_laws : Laws primitives
primitive_laws = record {
  dh_comm = λ a b. ap (λ n. n ∷ []) (omega arith);
  hkdf_length = λ salt ikm info n _. (zeros n, refl, length-zeros n);
  unseal-seal = λ key nonce message aad v h. ap some (sym (seal_bytes-some message v h).1);
  seal-AreBytes = λ key nonce message aad v h.
      let (bytes, same) = seal_bytes-some message v h in
      rw (sym same) (all_of-AreBytes message bytes);
}

-- Any bytes can be sealed.
pub seal_bytes-AreBytes : (m : Bytes) → AreBytes m → seal_bytes m ≡ some m
seal_bytes-AreBytes m h = rw (AreBytes-all_of m h) refl

-- A wire message: the length of the ratchet key, the key, the two numbers, and the text.
abbrev pub encode : WireMessage → Bytes
encode m =
    length m.header.dh_pub ∷ (m.header.dh_pub ++ (m.header.pn ∷ m.header.n ∷ m.ciphertext_base64))

abbrev decode_tail : Bytes → Bytes → Option WireMessage
decode_tail key [] = none
decode_tail key (pn ∷ []) = none
decode_tail key (pn ∷ n ∷ text) =
    some (record { header = record { dh_pub = key; pn = pn; n = n }; ciphertext_base64 = text })

abbrev decode : Bytes → Option WireMessage
decode [] = none
decode (size ∷ rest) = decode_tail (take size rest) (drop size rest)

abbrev pub library : Library
library = record {
  primitives = primitives;
  header_to_vec = λ h. some (h.pn ∷ h.n ∷ h.dh_pub);
  wire_to_vec = λ m. some (encode m);
  wire_from_slice = decode;
}

decode-encode : (m : WireMessage) → decode (encode m) ≡ some m
decode-encode m =
    let tail : Bytes = m.header.pn ∷ m.header.n ∷ m.ciphertext_base64 in
    rw (take-length_append m.header.dh_pub tail, drop-length_append m.header.dh_pub tail)

pub library_laws : LibraryLaws library
library_laws = record {
  primitive_laws = primitive_laws;
  wire_from-to = λ m v h. rw (sym (some-injective _ _ h)) (decode-encode m);
}
