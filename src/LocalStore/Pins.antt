-- ===== src/LocalStore/Pins.antt =====
-- The identity key of a peer, from the first time that it is seen.
use upmessenger.Base.{
  ℕ, ◌≡◌, refl, Bool, true, none, some, List, [], ◌∷◌, ◌++◌, arith, Text, str_eq, str_eq_refl, ok,
  find_first, find_first-append, Option-cases, inl, inr,
}
use upmessenger.LocalStore.{LocalStore, PeerIdentity}
use upmessenger.LocalStore.Records.{pin_or_verify_peer}

abbrev of_peer : Text → PeerIdentity → Bool
of_peer peer r = str_eq r.peer_device_id peer

-- Calls of `pin_or_verify_peer`, each with its time, peer and key.
unfoldable pub pins : List (ℕ × (Text × Text)) → LocalStore → LocalStore
pins [] s = s
pins ((now, (peer, identity)) ∷ calls) s = pins calls (pin_or_verify_peer now peer identity s).1

find_first-append_some :
    (p : PeerIdentity → Bool) (rows : List PeerIdentity) (r x : PeerIdentity)
    → find_first p rows ≡ some r
    → find_first p (rows ++ (x ∷ [])) ≡ some r
find_first-append_some p [] r x e = absurd (ground (arith, e))
find_first-append_some p (y ∷ rows) r x e = ground (arith, e, find_first-append_some p rows r x)

pin-new :
    (now : ℕ) (peer identity : Text) (s : LocalStore)
    → find_first (of_peer peer) s.peer_identities ≡ none
    → pin_or_verify_peer now peer identity s ≡ (
      ok true,
      record s {
        peer_identities =
            s.peer_identities
            ++ (record { peer_device_id = peer; identity_public_key = identity; pinned_at = now }
                ∷ []);
      },
    )
unfolding pin_or_verify_peer
pin-new now peer identity s e = rw (pin_or_verify_peer, e)

pin-known :
    (now : ℕ) (peer identity : Text) (r : PeerIdentity) (s : LocalStore)
    → find_first (of_peer peer) s.peer_identities ≡ some r
    → pin_or_verify_peer now peer identity s ≡ (ok (str_eq r.identity_public_key identity), s)
unfolding pin_or_verify_peer
pin-known now peer identity r s e = rw (pin_or_verify_peer, e)

pin-keeps :
    (now : ℕ) (peer other identity : Text) (r : PeerIdentity) (s : LocalStore)
    → find_first (of_peer peer) s.peer_identities ≡ some r
    → find_first (of_peer peer) (pin_or_verify_peer now other identity s).1.peer_identities ≡ some r
pin-keeps now peer other identity r s e =
    elim (Option-cases (find_first (of_peer other) s.peer_identities)) [
      | inl new ↦
          rw (pin-new now other identity s new)
            (find_first-append_some (of_peer peer) s.peer_identities r _ e)
      | inr (x, old) ↦ rw (pin-known now other identity x s old) e
    ]

pins-keeps :
    (calls : List (ℕ × (Text × Text))) (peer : Text) (r : PeerIdentity) (s : LocalStore)
    → find_first (of_peer peer) s.peer_identities ≡ some r
    → find_first (of_peer peer) (pins calls s).peer_identities ≡ some r
unfolding pins
pins-keeps [] peer r s e = e
pins-keeps ((now, (other, identity)) ∷ calls) peer r s e =
    pins-keeps calls peer r (pin_or_verify_peer now other identity s).1
      (pin-keeps now peer other identity r s e)

-- The first key that is seen of a peer is taken and pinned; whatever keys of whatever peers come in between, a
-- later key of that peer is then accepted exactly if it is that first key, and nothing is changed.
pub pin_or_verify_peer-first :
    (now later : ℕ) (peer first identity : Text) (calls : List (ℕ × (Text × Text))) (s : LocalStore)
    → find_first (of_peer peer) s.peer_identities ≡ none
    → ((pin_or_verify_peer now peer first s).0 ≡ ok true)
      × (let s' = pins calls (pin_or_verify_peer now peer first s).1 in
          pin_or_verify_peer later peer identity s' ≡ (ok (str_eq first identity), s'))
pin_or_verify_peer-first now later peer first identity calls s e =
    let r : PeerIdentity = record {
      peer_device_id = peer;
      identity_public_key = first;
      pinned_at = now;
    } in
    let added = find_first-append (of_peer peer) s.peer_identities r e (str_eq_refl peer) in
    let kept =
      pins-keeps calls peer r (record s { peer_identities = s.peer_identities ++ (r ∷ []) })
        added in
    rw (pin-new now peer first s e) (refl, pin-known later peer identity r _ kept)
