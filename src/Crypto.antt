-- ===== src/Crypto.antt =====
-- crates/upm-crypto/src/lib.rs: the wrappers around the cryptographic libraries. The libraries
-- themselves (x25519-dalek, ed25519-dalek, hkdf, chacha20poly1305) are the record `Primitives`, and what
-- their documentation promises is the record `Laws`. A key or a secret is the list of its bytes.
use upmessenger.Base.{
  ℕ, ◌≤◌, ◌≡◌, Bool, Option, some, Bytes, AreBytes, Result, ok, err, ok_or, length, if◌then◌else◌,
}

pub data CryptoError : Type 0 where
  invalid_signature non_contributory_key_agreement key_derivation aead : CryptoError

pub record Primitives : Type 0 where
  -- PublicKey::from(&secret), and secret.diffie_hellman(&public)
  pub x25519_public : Bytes → Bytes
  pub diffie_hellman : Bytes → Bytes → Bytes
  pub was_contributory : Bytes → Bool
  -- Hkdf::<Sha256>::new(Some(salt), ikm).expand(info, output), for the length of `output`
  pub hkdf_expand : Bytes → Bytes → Bytes → ℕ → Option Bytes
  -- VerifyingKey::from_bytes(key).is_ok(), and key.verify(message, signature).is_ok()
  pub is_verifying_key : Bytes → Bool
  pub ed25519_verifies : Bytes → Bytes → Bytes → Bool
  -- ChaCha20Poly1305: key, nonce, message, associated data
  pub seal : Bytes → Bytes → Bytes → Bytes → Option Bytes
  pub unseal : Bytes → Bytes → Bytes → Bytes → Option Bytes

-- Both sides of a key agreement get one secret; HKDF-SHA-256 has 8160 bytes of output; what was sealed is
-- unsealed under the same key, nonce and associated data, and consists of bytes.
pub record Laws (p : Primitives) : Type 0 where
  pub dh_comm :
      (a b : Bytes)
      → p.diffie_hellman a (p.x25519_public b) ≡ p.diffie_hellman b (p.x25519_public a)
  pub hkdf_length :
      (salt ikm info : Bytes) (n : ℕ)
      → n ≤ 8160
      → (okm : Bytes) × (p.hkdf_expand salt ikm info n ≡ some okm) × (length okm ≡ n)
  pub unseal-seal :
      (key nonce message aad sealed : Bytes)
      → p.seal key nonce message aad ≡ some sealed
      → p.unseal key nonce sealed aad ≡ some message
  pub seal-AreBytes :
      (key nonce message aad sealed : Bytes)
      → p.seal key nonce message aad ≡ some sealed
      → AreBytes sealed

module _ (p : Primitives) where
  open p use {
    diffie_hellman, was_contributory, hkdf_expand, is_verifying_key, ed25519_verifies, seal, unseal,
  }

  unfoldable pub verify : Bytes → Bytes → Bytes → Result CryptoError (Unit {0})
  verify public_key message signature =
      if is_verifying_key public_key
      then (if ed25519_verifies public_key message signature then ok tt else err invalid_signature)
      else err invalid_signature

  -- AgreementSecret::agree
  unfoldable pub agree : Bytes → Bytes → Result CryptoError Bytes
  agree secret their_public =
      let shared = diffie_hellman secret their_public in
      if was_contributory shared then ok shared else err non_contributory_key_agreement

  -- `derive`, for an output of `n` bytes
  unfoldable pub derive : Bytes → Bytes → Bytes → ℕ → Result CryptoError Bytes
  derive salt ikm info n = ok_or (hkdf_expand salt ikm info n) key_derivation

  unfoldable pub encrypt : Bytes → Bytes → Bytes → Bytes → Result CryptoError Bytes
  encrypt key nonce plaintext aad = ok_or (seal key nonce plaintext aad) aead

  unfoldable pub decrypt : Bytes → Bytes → Bytes → Bytes → Result CryptoError Bytes
  decrypt key nonce ciphertext aad = ok_or (unseal key nonce ciphertext aad) aead
