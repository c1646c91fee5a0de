-- ===== src/Protocol/Negotiation.antt =====
-- What negotiation promises: the highest version that both sides support, and a failure only where
-- there is none.
use upmessenger.Base.{◌≤◌, ◌≡◌, true, false, ok, err, arith}
use upmessenger.Protocol.{
  ProtocolVersion, CompatibilityRange, contains, negotiate, no_overlap, NegotiationError,
}

-- An agreed version is supported by both sides, and no version that both support is higher.
pub negotiate-highest :
    (here there : CompatibilityRange) (v : ProtocolVersion)
    → negotiate here there ≡ ok v
    → (contains here v ≡ true)
      × (contains there v ≡ true)
      × ((w : ProtocolVersion) → contains here w ≡ true → contains there w ≡ true → w ≤ v)
unfolding negotiate contains
negotiate-highest here there v h = (ground arith, ground arith, λ w p q. ground arith)

-- Negotiation fails only where no version is supported by both sides, and the error names both ranges.
pub negotiate-none :
    (here there : CompatibilityRange) (e : NegotiationError)
    → negotiate here there ≡ err e
    → (e ≡ no_overlap here there)
      × ((w : ProtocolVersion) → contains here w ≡ true → contains there w ≡ false)
unfolding negotiate contains
negotiate-none here there e h = (ground arith, λ w p. ground arith)
