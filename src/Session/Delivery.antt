-- ===== src/Session/Delivery.antt =====
-- Messages on one chain: what `encrypt` produces is what `decrypt` accepts.
use upmessenger.Base.{
  ℕ, zero, suc, ◌+◌, ◌-◌, ◌%◌, ◌^◌, ◌≤◌, ◌<◌, ◌≡◌, refl, ap, ◌∙◌, true, false, none, some, inl, inr,
  arith, Bytes, ok, ltb, Option-cases, lt→ltb,
}
use upmessenger.Codec.{base64_encode}
use upmessenger.Codec.Base64.{base64_decode-encode}
use upmessenger.Crypto.{encrypt as aead_encrypt, decrypt as aead_decrypt}
use upmessenger.Ratchet.{
  Library, DoubleRatchetSession, RatchetHeader, WireMessage, lookup, remove, max_skip,
}
use upmessenger.Ratchet.Derivation.{
  LibraryLaws, chain_step, message_key_of, chain_after, kdf_ck-step,
}
use upmessenger.Session.{
  zero_nonce, wrapping_inc, is_some_eq, follow_ratchet, catch_up, decrypt_next, decrypt_skipped,
  decrypt_current, decrypt_message, decrypt_inner, encrypt, decrypt, commit,
}
use upmessenger.Session.Skipping.{skip_ahead, skip_ahead-zero, skip_receiving_keys-ahead}

module _ (lib : Library) where
  -- A wire message that carries a plaintext under the message key at a chain key.
  pub record Carries (ck : Bytes) (header : RatchetHeader) (plaintext w : Bytes) : Type 0 where
    pub body : Bytes
    pub aad : Bytes
    pub read :
        lib.wire_from_slice w
        ≡ some (record { header = header; ciphertext_base64 = base64_encode body })
    pub aad_of : lib.header_to_vec header ≡ some aad
    pub sealed : lib.primitives.seal (message_key_of lib ck) zero_nonce plaintext aad ≡ some body

  -- The header of the next message that a session sends.
  abbrev pub next_header : DoubleRatchetSession → RatchetHeader
  next_header s = record { dh_pub = s.dh_self_public; pn = s.prev_chain_len; n = s.send_count }

  -- The session after it has sent a message.
  abbrev pub sent : Bytes → DoubleRatchetSession → DoubleRatchetSession
  sent ck s = record s {
    sending_chain_key = some (chain_step lib ck);
    send_count = wrapping_inc s.send_count;
  }

  -- The session after it has received message `n` of the chain, `k` messages ahead.
  abbrev pub received : Bytes → ℕ → Bytes → DoubleRatchetSession → DoubleRatchetSession
  received d k ck s = record (skip_ahead lib d k ck s) {
    receiving_chain_key = some (chain_step lib (chain_after lib k ck));
    recv_count = s.recv_count + k + 1;
  }

  module _ (laws : LibraryLaws lib) where
    pub encrypt-Carries :
        (plaintext w ck : Bytes) (s : DoubleRatchetSession)
        → s.sending_chain_key ≡ some ck
        → (encrypt lib plaintext s).0 ≡ ok w
        → Carries ck (next_header s) plaintext w × (encrypt lib plaintext s ≡ (ok w, sent ck s))
    unfolding encrypt aead_encrypt
    encrypt-Carries plaintext w ck s e h = elim (Option-cases (lib.header_to_vec (next_header s))) [
      | inl ea ↦ absurd (ground (arith, kdf_ck-step lib laws ck))
      | inr (aad, ea) ↦
          elim (Option-cases
            (lib.primitives.seal (message_key_of lib ck) zero_nonce plaintext aad)) [
              | inl eb ↦ absurd (ground (arith, kdf_ck-step lib laws ck))
              | inr (body, eb) ↦
                  let m : WireMessage = record {
                    header = next_header s;
                    ciphertext_base64 = base64_encode body;
                  } in
                  elim (Option-cases (lib.wire_to_vec m)) [
                    | inl ew ↦ absurd (ground (arith, kdf_ck-step lib laws ck))
                    | inr (v, ew) ↦
                        let e' : v ≡ w = ground (arith, kdf_ck-step lib laws ck) in
                        (
                          record {
                            body = body;
                            aad = aad;
                            read = laws.wire_from-to m w (ew ∙ ap some e');
                            aad_of = ea;
                            sealed = eb;
                          },
                          ground (arith, kdf_ck-step lib laws ck),
                        )
                  ]
            ]
    ]

    pub parse-Carries :
        (g ck plaintext w : Bytes) (header : RatchetHeader) (c : Carries ck header plaintext w)
        (s : DoubleRatchetSession)
        → decrypt_inner lib g w s ≡ decrypt_message lib g header c.body s
    unfolding decrypt_inner
    parse-Carries g ck plaintext w header c s =
        rw (c.read, base64_decode-encode c.body (laws.seal-AreBytes _ _ _ _ _ c.sealed))

    pub decrypt_next-Carries :
        (ck plaintext w : Bytes) (header : RatchetHeader) (c : Carries ck header plaintext w)
        (s : DoubleRatchetSession)
        → s.receiving_chain_key ≡ some ck
        → decrypt_next lib header c.body s ≡ (
          ok plaintext,
          record s {
            receiving_chain_key = some (chain_step lib ck);
            recv_count = wrapping_inc s.recv_count;
          },
        )
    unfolding decrypt_next aead_decrypt
    decrypt_next-Carries ck plaintext w header c s e =
        ground (arith, kdf_ck-step lib laws ck, c.aad_of, laws.unseal-seal _ _ _ _ _ c.sealed)

    pub catch_up-ahead :
        {rck : Bytes} (header : RatchetHeader) (s : DoubleRatchetSession) (k : ℕ)
        → s.receiving_chain_key ≡ some rck
        → header.n ≡ s.recv_count + k
        → k ≤ max_skip
        → header.n + 1 < 2 ^ 32
        → catch_up lib header s ≡ (ok tt, skip_ahead lib header.dh_pub k rck s)
    unfolding catch_up
    catch_up-ahead {rck} header s zero e number near small =
        let here : header.n ≡ s.recv_count = omega arith in
        ground (arith, here, skip_ahead-zero lib laws header.dh_pub rck s e)
    catch_up-ahead {rck} header s (suc k) e number near small =
        let ahead : header.n - s.recv_count ≡ suc k = omega arith in
        let fits : ltb max_skip (suc k) ≡ false = ground arith in
        rw (lt→ltb s.recv_count header.n (omega arith)) (
          skip_receiving_keys-ahead lib laws header.dh_pub header.n rck s e (omega arith)
            (omega arith)
          ∙ rw (ahead, fits))

    module _ (g plaintext w rck : Bytes) (header : RatchetHeader) (s : DoubleRatchetSession) (k : ℕ)
        (e : s.receiving_chain_key ≡ some rck) where
      -- A message of the chain that the session follows, at most MAX_SKIP ahead of the last one received, is
      -- decrypted; the keys of the messages before it are put aside.
      pub decrypt-ahead :
          Carries (chain_after lib k rck) header plaintext w
          → is_some_eq s.dh_remote_public header.dh_pub ≡ true
          → lookup (header.dh_pub, header.n) s.skipped ≡ none
          → header.n ≡ s.recv_count + k
          → k ≤ max_skip
          → header.n + 1 < 2 ^ 32
          → decrypt lib g w s ≡ (ok plaintext, received header.dh_pub k rck s)
      unfolding decrypt decrypt_message decrypt_current follow_ratchet
      decrypt-ahead c same unseen number near small =
          let small' : (s.recv_count + k + 1) % 2 ^ 32 ≡ s.recv_count + k + 1 = omega arith in
          rw (
            parse-Carries g (chain_after lib k rck) plaintext w header c s,
            decrypt_message,
            unseen,
            decrypt_current,
            follow_ratchet,
            same,
            catch_up-ahead header s k e number near small,
            decrypt_next-Carries (chain_after lib k rck) plaintext w header c
                (skip_ahead lib header.dh_pub k rck s) refl,
            commit,
            small',
          )

    -- A message whose key was put aside is decrypted whenever it comes, and its key is used up.
    pub decrypt-late :
        (g plaintext w ck : Bytes) (header : RatchetHeader) (s : DoubleRatchetSession)
        → Carries ck header plaintext w
        → lookup (header.dh_pub, header.n) s.skipped ≡ some (message_key_of lib ck)
        → decrypt lib g w s
          ≡ (ok plaintext, record s { skipped = remove (header.dh_pub, header.n) s.skipped })
    unfolding decrypt decrypt_message decrypt_skipped aead_decrypt
    decrypt-late g plaintext w ck header s c stored =
        rw (parse-Carries g ck plaintext w header c s, decrypt_message, stored)
          (ground (arith, c.aad_of, laws.unseal-seal _ _ _ _ _ c.sealed))
