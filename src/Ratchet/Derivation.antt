-- ===== src/Ratchet/Derivation.antt =====
-- The symmetric chain as plain functions, and `kdf_ck` and `kdf_rk` against them.
use mathlib.Core.Option.{get_or}
use upmessenger.Base.{ℕ, zero, suc, ◌≤◌, ◌≡◌, refl, arith, Bytes, codes, some, [], ok, take, drop}
use upmessenger.Crypto.{Laws, derive}
use upmessenger.Ratchet.{Library, WireMessage, kdf_ck, kdf_rk}

-- What the session relies on: the laws of the primitives, and that serde_json reads back what it wrote.
pub record LibraryLaws (lib : Library) : Type 0 where
  pub primitive_laws : Laws lib.primitives
  pub open primitive_laws use *
  pub wire_from-to :
      (m : WireMessage) (v : Bytes) → lib.wire_to_vec m ≡ some v → lib.wire_from_slice v ≡ some m

module _ (lib : Library) where
  -- HKDF with an empty salt input, as a function.
  expand : Bytes → Bytes → Bytes → ℕ → Bytes
  expand salt ikm info n = get_or (lib.primitives.hkdf_expand salt ikm info n) []

  -- The next key of a chain, and the message key at a chain key.
  pub chain_step : Bytes → Bytes
  chain_step ck = expand ck [] (codes "upm/v4/ratchet/chain-key") 32

  pub message_key_of : Bytes → Bytes
  message_key_of ck = expand ck [] (codes "upm/v4/ratchet/message-key") 32

  -- The chain key after a number of steps.
  unfoldable pub chain_after : ℕ → Bytes → Bytes
  chain_after zero ck = ck
  chain_after (suc k) ck = chain_after k (chain_step ck)

  -- The root key and the chain key that a root step gives.
  pub root_step : Bytes → Bytes → Bytes × Bytes
  root_step root dh =
      let okm = expand root dh (codes "upm/v4/ratchet/root-step") 64 in (take 32 okm, drop 32 okm)

  module _ (laws : LibraryLaws lib) where
    derive-expand :
        (salt ikm info : Bytes) (n : ℕ)
        → n ≤ 8160
        → derive lib.primitives salt ikm info n ≡ ok (expand salt ikm info n)
    unfolding derive expand
    derive-expand salt ikm info n h =
        let (okm, e, _) = laws.primitive_laws.hkdf_length salt ikm info n h in rw e

    pub kdf_ck-step : (ck : Bytes) → kdf_ck lib ck ≡ ok (chain_step ck, message_key_of ck)
    unfolding kdf_ck chain_step message_key_of
    kdf_ck-step ck = rw (
      derive-expand ck [] (codes "upm/v4/ratchet/chain-key") 32 (omega arith),
      derive-expand ck [] (codes "upm/v4/ratchet/message-key") 32 (omega arith),
    )

    pub kdf_rk-step : (root dh : Bytes) → kdf_rk lib root dh ≡ ok (root_step root dh)
    unfolding kdf_rk root_step
    kdf_rk-step root dh =
        rw (derive-expand root dh (codes "upm/v4/ratchet/root-step") 64 (omega arith))

  pub chain_after-step :
      (k : ℕ) (ck : Bytes) → chain_after (suc k) ck ≡ chain_step (chain_after k ck)
  unfolding chain_after
  chain_after-step zero ck = refl
  chain_after-step (suc k) ck = chain_after-step k (chain_step ck)
