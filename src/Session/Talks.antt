-- ===== src/Session/Talks.antt =====
-- A conversation over the sample library.
use upmessenger.Base.{◌≡◌, refl, some, [], ◌∷◌, List, ok, str_eq, arith}
use upmessenger.Crypto.{agree}
use upmessenger.Handshake.{HandshakeResult, respond}
use upmessenger.Handshake.Examples.{exchange, prekey, one_time, bundle, begun, initiates}
use upmessenger.Handshake.Agreement.{Publishes}
use upmessenger.Ratchet.{DoubleRatchetSession, init_responder}
use upmessenger.Ratchet.Start.{initiated, init_initiator-initiated}
use upmessenger.Samples.{primitives, library, library_laws, seal_bytes-AreBytes}
use upmessenger.Session.Dialogue.{Said, initiator, responder, Works, Apart, Fresh, run}
use upmessenger.Session.Beginning.{understood}

works : Works library
works = record {
  header_written = λ h. (_, refl);
  wire_written = λ m. (_, refl);
  sealed = λ key nonce m aad h _. (m, seal_bytes-AreBytes m h);
  contributory = λ a b. refl;
}

abbrev talk : List Said
talk = initiator (71 ∷ []) (104 ∷ []) ∷ responder (72 ∷ []) (105 ∷ []) ∷ responder (73 ∷ []) [] ∷ []

fresh : Fresh library talk
unfolding Fresh Apart str_eq
fresh = (
  ((omega arith, tt), omega arith),
  (
    (refl, (refl, tt)),
    (((omega arith, tt), omega arith), ((refl, tt), ((tt, omega arith), (tt, tt)))),
  ),
)

published : Publishes primitives library_laws.primitive_laws exchange prekey (some one_time) bundle
published = record { exchange_public = refl; signed_prekey_public = refl; one_time_public = refl }

agreed : agree primitives (67 ∷ []) prekey ≡ ok (2 ∷ [])
unfolding agree
agreed = refl

abbrev alice : DoubleRatchetSession
alice = initiated library library_laws [] begun.result prekey (67 ∷ []) (2 ∷ [])

apart : Apart library (67 ∷ []) talk × Apart library prekey talk
unfolding Apart str_eq
apart = ((refl, (refl, (refl, tt))), (refl, (refl, (refl, tt))))

understood_example :
    (r : HandshakeResult) × (respond primitives exchange prekey (4 ∷ []) (5 ∷ []) (some one_time)
      ≡ ok r)
    × (run library talk alice (init_responder library [] r prekey)
        ≡ ok (104 ∷ []) ∷ ok (105 ∷ []) ∷ ok [] ∷ [])
understood_example =
    understood library library_laws works (4 ∷ []) (5 ∷ []) exchange prekey (some one_time) bundle
      begun [] [] (67 ∷ []) alice (71 ∷ []) (104 ∷ [])
      (responder (72 ∷ []) (105 ∷ []) ∷ responder (73 ∷ []) [] ∷ []) published initiates
      (init_initiator-initiated library library_laws [] begun.result prekey (67 ∷ []) (2 ∷ [])
        agreed)
      fresh apart.0 apart.1 (omega arith)
