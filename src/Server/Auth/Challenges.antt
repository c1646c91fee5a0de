-- ===== src/Server/Auth/Challenges.antt =====
-- A challenge is answered at most once, and only by a signature under the registered identity key.
use upmessenger.Base.{
  ℕ, ◌≤◌, ◌≡◌, refl, sym, ap, ◌∙◌, not, none, some, inl, inr, arith, Bytes, Text, ok, err, ok_or,
  ensure, find_first, find_first-select-none, select, ltb, Option-cases, >>=-eq-ok, Result-cases,
}
use upmessenger.Codec.{decode_fixed}
use upmessenger.Crypto.{Primitives, verify}
use upmessenger.Server.{Database, Device, Challenge, Session, device_named}
use upmessenger.Server.Identity.{
  no_challenge, unknown_device, challenge_expired, malformed, check_signature,
}
use upmessenger.Server.Auth.{challenge_of, insert_session, issue_session, verify_and_issue_session}

module _ (sha256 : Bytes → Bytes) (p : Primitives) where
  insert_session-challenges :
      (s : Session) (db : Database)
      → (insert_session sha256 s db).1.auth_challenges ≡ db.auth_challenges
  unfolding insert_session
  insert_session-challenges s db = ground arith

  issue_session-challenges :
      (random : Bytes) (now later : ℕ) (d s : Text) (c : Challenge) (db : Database)
      → (issue_session sha256 p random now later d s c db).1.auth_challenges ≡ db.auth_challenges
  unfolding issue_session insert_session
  issue_session-challenges random now later d s c db =
      elim (Result-cases (check_signature p now d s c db)) [
        | inr (e, failed) ↦ rw failed
        | inl (u, passed) ↦ rw passed (ground arith)
      ]

  -- The signature that a session was issued for.
  pub record Signed (now : ℕ) (d s : Text) (db : Database) : Type 0 where
    pub issued : Challenge
    pub device : Device
    pub public_key : Bytes
    pub signature : Bytes
    pub found : find_first (challenge_of d) db.auth_challenges ≡ some issued
    pub in_time : now ≤ issued.expires_at
    pub registered : find_first (device_named d) db.devices ≡ some device
    pub key : decode_fixed 32 device.identity_public_key ≡ some public_key
    pub sent : decode_fixed 64 s ≡ some signature
    pub verified : verify p public_key issued.challenge signature ≡ ok tt

  check_signature-ok :
      (now : ℕ) (d s : Text) (c : Challenge) (db : Database)
      → find_first (challenge_of d) db.auth_challenges ≡ some c
      → check_signature p now d s c db ≡ ok tt
      → Signed now d s db
  unfolding check_signature
  check_signature-ok now d s c db found h =
      let (_, on_time, rest) =
        >>=-eq-ok (ensure (not (ltb c.expires_at now)) challenge_expired) _ h in
      let (device, registered, rest') =
        >>=-eq-ok (ok_or (find_first (device_named d) db.devices) unknown_device) _ rest in
      let (public_key, key, rest'') =
        >>=-eq-ok (ok_or (decode_fixed 32 device.identity_public_key) malformed) _ rest' in
      let (signature, sent, verified) = >>=-eq-ok (ok_or (decode_fixed 64 s) malformed) _ rest'' in
      record {
        issued = c;
        device = device;
        public_key = public_key;
        signature = signature;
        found = found;
        in_time = ground arith;
        registered = ground (arith, registered);
        key = ground (arith, key);
        sent = ground (arith, sent);
        verified = ground (arith, verified);
      }

  module _ (random : Bytes) (now later : ℕ) (d s : Text) (db : Database) where
    abbrev pub used : Database
    used = record db { auth_challenges = select (λ x. not (challenge_of d x)) db.auth_challenges }

    check_signature-used :
        (c : Challenge) → check_signature p now d s c used ≡ check_signature p now d s c db
    unfolding check_signature
    check_signature-used c = refl

    pub verify_and_issue_session-found :
        (c : Challenge)
        → find_first (challenge_of d) db.auth_challenges ≡ some c
        → verify_and_issue_session sha256 p random now later d s db
          ≡ issue_session sha256 p random now later d s c used
    unfolding verify_and_issue_session
    verify_and_issue_session-found c e = rw e

    pub verify_and_issue_session-none :
        find_first (challenge_of d) db.auth_challenges ≡ none
        → verify_and_issue_session sha256 p random now later d s db ≡ (err no_challenge, db)
    unfolding verify_and_issue_session
    verify_and_issue_session-none e = rw e

  issue_session-ok :
      (random : Bytes) (now later : ℕ) (d s : Text) (c : Challenge) (db : Database)
      (issued : Text × ℕ)
      → (issue_session sha256 p random now later d s c db).0 ≡ ok issued
      → check_signature p now d s c db ≡ ok tt
  unfolding issue_session
  issue_session-ok random now later d s c db issued h =
      elim (Result-cases (check_signature p now d s c db)) [
        | inr (e, failed) ↦ absurd (ground (arith, failed))
        | inl (u, passed) ↦ passed
      ]

  module _ (random : Bytes) (now later : ℕ) (d s : Text) (db : Database) where
    -- A session is issued only for a signature over the outstanding challenge of the device, no later
    -- than the expiry of the challenge, that verifies under the identity key stored for the device.
    pub verify_and_issue_session-Signed :
        (issued : Text × ℕ)
        → (verify_and_issue_session sha256 p random now later d s db).0 ≡ ok issued
        → Signed now d s db
    verify_and_issue_session-Signed issued h =
        elim (Option-cases (find_first (challenge_of d) db.auth_challenges)) [
          | inl e ↦ absurd (ground (arith, verify_and_issue_session-none random now later d s db e))
          | inr (c, e) ↦
              let same = verify_and_issue_session-found random now later d s db c e in
              let passed =
                issue_session-ok random now later d s c (used random now later d s db) issued
                  (rw same at h) in
              check_signature-ok now d s c db e
                (sym (check_signature-used random now later d s db c) ∙ passed)
        ]

    -- Whatever comes of an answer to a challenge, the next answer of the device without a new
    -- challenge gets NoChallenge.
    pub verify_and_issue_session_again :
        (random' : Bytes) (now' later' : ℕ) (s' : Text)
        → (verify_and_issue_session sha256 p random' now' later' d s'
            (verify_and_issue_session sha256 p random now later d s db).1).0
          ≡ err no_challenge
    verify_and_issue_session_again random' now' later' s' =
        let db' : Database = (verify_and_issue_session sha256 p random now later d s db).1 in
        let gone : find_first (challenge_of d) db'.auth_challenges ≡ none =
          elim (Option-cases (find_first (challenge_of d) db.auth_challenges)) [
            | inl e ↦ rw (verify_and_issue_session-none random now later d s db e) e
            | inr (c, e) ↦
                rw
                  (
                    verify_and_issue_session-found random now later d s db c e,
                    issue_session-challenges random now later d s c (used random now later d s db),
                  )
                  (find_first-select-none (challenge_of d) db.auth_challenges)
          ] in
        ap (λ r. r.0) (verify_and_issue_session-none random' now' later' d s' db' gone)
