-- ===== src/Handshake/Bundles.antt =====
-- What the initiator has checked before it derives any key.
use upmessenger.Base.{
  ◌≡◌, refl, Option, none, some, arith, Bytes, Result, ok, err, map_err, >>=-eq-ok,
}
use upmessenger.Crypto.{Primitives, verify}
use upmessenger.Protocol.{PreKeyId}
use upmessenger.Handshake.{
  PreKeyBundle, InitiatorHandshake, invalid_prekey_signature, verify_bundle, verify_one_time_prekey,
  signed_prekey_signature_message, one_time_prekey_signature_message, initiate,
}

module _ (p : Primitives) where
  -- The one-time fields are all absent, or all present with a signature that verifies.
  pub data IsSigned (signing : Bytes) : Option PreKeyId → Option Bytes → Option Bytes → Type 0 where
    absent : IsSigned signing none none none
    signed :
        (id : PreKeyId) (public_key signature : Bytes)
        → verify p signing (one_time_prekey_signature_message id public_key) signature ≡ ok tt
        → IsSigned signing (some id) (some public_key) (some signature)

  map_err-ok :
      {E F : Type 0} (f : E → F) (r : Result E (Unit {0})) {u : Unit {0}}
      → map_err f r ≡ ok u
      → r ≡ ok tt
  map_err-ok f (ok tt) h = refl
  map_err-ok f (err e) h = cc

  one_time-IsSigned :
      (signing : Bytes) (id : Option PreKeyId) (public_key signature : Option Bytes) {u : Unit {0}}
      → verify_one_time_prekey p signing id public_key signature ≡ ok u
      → IsSigned signing id public_key signature
  unfolding verify_one_time_prekey
  one_time-IsSigned signing none none none h = absent
  one_time-IsSigned signing (some id) (some public_key) (some signature) h =
      signed id public_key signature (map_err-ok _ _ h)
  one_time-IsSigned signing none none (some _) h = cc
  one_time-IsSigned signing none (some _) none h = cc
  one_time-IsSigned signing none (some _) (some _) h = cc
  one_time-IsSigned signing (some _) none none h = cc
  one_time-IsSigned signing (some _) none (some _) h = cc
  one_time-IsSigned signing (some _) (some _) none h = cc

  -- An initiator derives keys only from a bundle whose signed prekey verifies under the identity key, and
  -- whose one-time prekey is absent or verifies too, bound to its identifier.
  pub initiate-verified :
      (my_identity_exchange ephemeral : Bytes) (b : PreKeyBundle) (h : InitiatorHandshake)
      → initiate p my_identity_exchange ephemeral b ≡ ok h
      → (verify p b.identity_signing_public
            (signed_prekey_signature_message b.identity_exchange_public b.signed_prekey_public)
            b.signed_prekey_signature
          ≡ ok tt)
        × IsSigned b.identity_signing_public b.one_time_prekey_id b.one_time_prekey_public
            b.one_time_prekey_signature
        × (h.one_time_prekey_id ≡ b.one_time_prekey_id)
  unfolding initiate verify_bundle
  initiate-verified my_identity_exchange ephemeral b h e =
      let (u, ev, e1) = >>=-eq-ok (verify_bundle p b) _ e in
      let (v, es, eo) =
        >>=-eq-ok
          (map_err (λ e. invalid_prekey_signature)
            (verify p b.identity_signing_public
              (signed_prekey_signature_message b.identity_exchange_public b.signed_prekey_public)
              b.signed_prekey_signature))
          _ ev in
      (map_err-ok _ _ es, one_time-IsSigned _ _ _ _ eo, ground (arith, e1))
