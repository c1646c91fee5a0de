-- ===== src/Server/Auth/Tokens.antt =====
-- The life of a bearer token: it authenticates its device from its issue to its expiry or revocation.
use upmessenger.Base.{
  ℕ, ◌+◌, ◌*◌, ◌/◌, ◌%◌, ◌≤◌, ◌<◌, ◌≡◌, refl, ◌∙◌, true, false, some, [], ◌∷◌, inl, inr, arith,
  Bytes, AreBytes, Text, ok, err, find_first, find_first-select-none, find_first-append, ltb,
  length, all_of, Bool-cases, Option-cases, Result-cases, str_eq_refl, List, lt→ltb, not, select,
}
use upmessenger.Codec.{hex_encode, hex_digit}
use upmessenger.Crypto.{Primitives}
use upmessenger.Protocol.{is_ascii_hexdigit}
use upmessenger.Server.{Database, Challenge, Session}
use upmessenger.Server.Identity.{invalid_session, check_signature}
use upmessenger.Server.Auth.{
  challenge_of, token_digest, session_of, insert_session, issue_session, verify_and_issue_session,
  is_token, authenticate, revoke_session, session_ttl_seconds,
}
use upmessenger.Server.Auth.Challenges.{
  used, verify_and_issue_session-found, verify_and_issue_session-none,
}

hex_digit-IsHex : (d : ℕ) → d < 16 → is_ascii_hexdigit (hex_digit false d) ≡ true
unfolding is_ascii_hexdigit hex_digit
hex_digit-IsHex d h = ground arith

length-hex_encode : (bytes : Bytes) → length (hex_encode false bytes) ≡ 2 * length bytes
unfolding hex_encode
length-hex_encode [] = refl
length-hex_encode (b ∷ bytes) = omega (arith, length-hex_encode bytes)

hex_encode-IsHex :
    (bytes : Bytes) → AreBytes bytes → all_of is_ascii_hexdigit (hex_encode false bytes) ≡ true
unfolding hex_encode
hex_encode-IsHex [] h = refl
hex_encode-IsHex (b ∷ bytes) (h, hs) = rw (
  hex_digit-IsHex (b / 16) (omega arith),
  hex_digit-IsHex (b % 16) (omega arith),
  hex_encode-IsHex bytes hs,
)

hex_encode-is_token :
    (bytes : Bytes) → AreBytes bytes → length bytes ≡ 32 → is_token (hex_encode false bytes) ≡ true
unfolding is_token
hex_encode-is_token bytes h l = rw (length-hex_encode bytes, l, hex_encode-IsHex bytes h)

module _ (sha256 : Bytes → Bytes) where
  authenticate-found :
      (now : ℕ) (token : Text) (s : Session) (db : Database)
      → is_token token ≡ true
      → find_first (session_of sha256 token) db.sessions ≡ some s
      → now ≤ s.expires_at
      → authenticate sha256 now token db ≡ (ok s.device_id, db)
  unfolding authenticate
  authenticate-found now token s db good found h =
      let alive : ltb s.expires_at now ≡ false = ground arith in rw (good, found, alive)

  -- A token that no valid session stands under is refused, and only the table of sessions may change.
  pub authenticate-invalid :
      (now : ℕ) (token : Text) (db : Database)
      → ((x : Session)
          → find_first (session_of sha256 token) db.sessions ≡ some x
          → x.expires_at < now)
      → (sessions : List Session) × (authenticate sha256 now token db
          ≡ (err invalid_session, record db { sessions = sessions }))
  unfolding authenticate
  authenticate-invalid now token db h = elim (Bool-cases (is_token token)) [
    | inr bad ↦ (db.sessions, rw bad)
    | inl good ↦ elim (Option-cases (find_first (session_of sha256 token) db.sessions)) [
      | inl e ↦ (db.sessions, rw (good, e))
      | inr (x, e) ↦ (
        select (λ r. not (session_of sha256 token r)) db.sessions,
        rw (good, e, lt→ltb x.expires_at now (h x e)),
      )
    ]
  ]

  -- On the tables as the revocation of a token left them, no request with it is authenticated, at any
  -- time.
  pub authenticate-revoke :
      (now : ℕ) (token : Text) (db : Database)
      → (authenticate sha256 now token (revoke_session sha256 token db).1).0 ≡ err invalid_session
  unfolding authenticate revoke_session
  authenticate-revoke now token db = elim (Bool-cases (is_token token)) [
    | inr e ↦ rw e
    | inl e ↦ rw (e, find_first-select-none (session_of sha256 token) db.sessions)
  ]

  module _ (p : Primitives) where
    issue_session-found :
        (random : Bytes) (now later : ℕ) (d s : Text) (c : Challenge) (db : Database) (token : Text)
        (expiry : ℕ)
        → (issue_session sha256 p random now later d s c db).0 ≡ ok (token, expiry)
        → (row : Session) × (token ≡ hex_encode false random)
          × (row.device_id ≡ d)
          × (row.expires_at ≡ expiry)
          × (find_first
                (session_of sha256 token)
                (issue_session sha256 p random now later d s c db).1.sessions
              ≡ some row)
    unfolding issue_session insert_session
    issue_session-found random now later d s c db token expiry h =
        let t : Text = hex_encode false random in
        let row : Session = record {
          token_hash = token_digest sha256 t;
          device_id = d;
          created_at = later;
          expires_at = later + session_ttl_seconds;
        } in
        elim (Result-cases (check_signature p now d s c db)) [
          | inr (e, failed) ↦ absurd (ground (arith, failed))
          | inl (u, passed) ↦ elim (Option-cases (find_first (session_of sha256 t) db.sessions)) [
            | inr (r, taken) ↦ absurd (ground (arith, passed, taken))
            | inl fresh ↦
                let is : token ≡ t = ground (arith, passed, fresh) in
                let until : later + session_ttl_seconds ≡ expiry = ground (arith, passed, fresh) in
                (
                  row,
                  is,
                  refl,
                  until,
                  rw (is, passed, fresh)
                      (find_first-append (session_of sha256 t) db.sessions row fresh
                        (str_eq_refl (token_digest sha256 t))),
                )
          ]
        ]

    -- A token that was issued to a device, made of 32 random bytes, authenticates that device on the
    -- tables as its issue left them, at every time until the announced expiry.
    pub authenticate-issued :
        (random : Bytes) (now later now' : ℕ) (d s : Text) (db : Database) (token : Text)
        (expiry : ℕ)
        → AreBytes random
        → length random ≡ 32
        → (verify_and_issue_session sha256 p random now later d s db).0 ≡ ok (token, expiry)
        → now' ≤ expiry
        → authenticate sha256 now' token
            (verify_and_issue_session sha256 p random now later d s db).1
          ≡ (ok d, (verify_and_issue_session sha256 p random now later d s db).1)
    authenticate-issued random now later now' d s db token expiry bytes l h alive =
        elim (Option-cases (find_first (challenge_of d) db.auth_challenges)) [
          | inl e ↦
              absurd
                (ground (arith, verify_and_issue_session-none sha256 p random now later d s db e))
          | inr (c, e) ↦
              let same = verify_and_issue_session-found sha256 p random now later d s db c e in
              let (row, is, of_device, until, found) =
                issue_session-found random now later d s c (used sha256 p random now later d s db)
                  token expiry (rw same at h) in
              let good : is_token token ≡ true = rw is (hex_encode-is_token random bytes l) in
              rw same (
                authenticate-found now' token row _ good found (omega (arith, until))
                ∙ rw of_device)
        ]
