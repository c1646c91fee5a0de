-- ===== src/Blobs.antt =====
-- crates/upm-core/src/attachments.rs: the encrypted blob of an attachment, a nonce and then the ciphertext.
-- The nonce that `encrypt` draws is an argument.
mod Examples
use upmessenger.Base.{
  ℕ, ◌≡◌, refl, Bool, true, false, some, List, [], ◌∷◌, ◌++◌, Bytes, Result, ok, err, length, take,
  drop, ltb, if◌then◌else◌, ◌>>=◌, >>=-eq-ok, arith, zero, suc, ◌+◌, length-append,
  take-length_append, drop-length_append, sym, ap, ◌∙◌, Option-cases, inl, inr,
}
use upmessenger.Crypto.{
  Primitives, Laws, CryptoError, aead, encrypt as aead_encrypt, decrypt as aead_decrypt,
}
use upmessenger.Protocol.{MessageId}

abbrev pub nonce_len : ℕ
nonce_len = 12

-- A nonce of 12 bytes and what follows it come apart again.
pub split_nonce :
    (nonce c : Bytes)
    → length nonce ≡ 12
    → (ltb (length (nonce ++ c)) 12 ≡ false)
      × (take 12 (nonce ++ c) ≡ nonce)
      × (drop 12 (nonce ++ c) ≡ c)
split_nonce nonce c l = (
  ground (arith, length-append nonce c),
  ap (λ n. take n (nonce ++ c)) (sym l) ∙ take-length_append nonce c,
  ap (λ n. drop n (nonce ++ c)) (sym l) ∙ drop-length_append nonce c,
)

module _ (p : Primitives) where
  pub encrypt : Bytes → Bytes → MessageId → Bytes → Result CryptoError Bytes
  encrypt nonce key attachment_id plaintext = do
    ciphertext ← aead_encrypt p key nonce plaintext attachment_id
    ok (nonce ++ ciphertext)

  pub decrypt : Bytes → MessageId → Bytes → Result CryptoError Bytes
  decrypt key attachment_id blob =
      if ltb (length blob) nonce_len
      then err aead
      else aead_decrypt p key (take nonce_len blob) (drop nonce_len blob) attachment_id

  -- A blob that was made from an attachment with a nonce of 12 bytes, under a key and an identifier,
  -- is opened to the attachment under the same key and identifier.
  pub decrypt-encrypt_blob :
      (laws : Laws p) (nonce key plaintext blob : Bytes) (id : MessageId)
      → length nonce ≡ 12
      → encrypt nonce key id plaintext ≡ ok blob
      → decrypt key id blob ≡ ok plaintext
  unfolding encrypt decrypt aead_encrypt aead_decrypt
  decrypt-encrypt_blob laws nonce key plaintext blob id l h =
      elim (Option-cases (p.seal key nonce plaintext id)) [
        | inl e ↦ absurd (ground (arith, e))
        | inr (c, e) ↦
            let is : nonce ++ c ≡ blob = ground (arith, e) in
            let (long, nonce', c') = split_nonce nonce c l in
            rw (sym is, long, nonce', c', laws.unseal-seal key nonce plaintext id c e)
      ]
