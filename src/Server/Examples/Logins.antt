-- ===== src/Server/Examples/Logins.antt =====
-- The theorems on challenges and tokens, at a login of Alice's phone.
use upmessenger.Base.{◌≡◌, refl, false, some, Bytes, Text, str_eq, ok, err, arith}
use upmessenger.Codec.{hex_encode, base64_encode, decode_fixed}
use upmessenger.Codec.Base64.{base64_decode-encode}
use upmessenger.Crypto.{verify}
use upmessenger.Samples.{zeros, primitives}
use upmessenger.Server.Identity.{no_challenge, invalid_session, check_signature}
use upmessenger.Server.Auth.{
  verify_and_issue_session, issue_session, insert_session, authenticate, revoke_session,
}
use upmessenger.Server.Auth.Challenges.{
  Signed, verify_and_issue_session-Signed, verify_and_issue_session_again,
}
use upmessenger.Server.Auth.Tokens.{authenticate-issued, authenticate-revoke}
use upmessenger.Server.Examples.Tables.{tables, alice_device}

abbrev digest : Bytes → Bytes
digest message = zeros 32

abbrev signature : Text
signature = base64_encode (zeros 64)

abbrev token : Text
token = hex_encode false (zeros 32)

decode_key : decode_fixed 32 (base64_encode (zeros 32)) ≡ some (zeros 32)
unfolding decode_fixed
decode_key = rw (decode_fixed, base64_decode-encode (zeros 32) (ground arith))

decode_signature : decode_fixed 64 signature ≡ some (zeros 64)
unfolding decode_fixed
decode_signature = rw (decode_fixed, base64_decode-encode (zeros 64) (ground arith))

issues :
    (verify_and_issue_session digest primitives
      (zeros 32)
      1000
      1000
      alice_device
      signature
      tables).0
    ≡ ok (token, 2593000)
unfolding verify_and_issue_session issue_session insert_session check_signature verify str_eq
issues = rw (decode_key, decode_signature) refl

verify_and_issue_session-Signed_example :
    Signed digest primitives 1000 alice_device signature tables
verify_and_issue_session-Signed_example =
    verify_and_issue_session-Signed digest primitives (zeros 32) 1000 1000 alice_device signature
      tables (token, 2593000) issues

verify_and_issue_session_again_example :
    (verify_and_issue_session digest primitives
      (zeros 32)
      1001
      1002
      alice_device
      signature
      (verify_and_issue_session digest primitives
        (zeros 32)
        1000
        1000
        alice_device
        signature
        tables).1).0
    ≡ err no_challenge
verify_and_issue_session_again_example =
    verify_and_issue_session_again digest primitives (zeros 32) 1000 1000 alice_device signature
      tables (zeros 32) 1001 1002 signature

authenticate-issued_example :
    authenticate digest 2593000 token
      (verify_and_issue_session digest primitives
        (zeros 32)
        1000
        1000
        alice_device
        signature
        tables).1
    ≡ (
      ok alice_device,
      (verify_and_issue_session digest primitives
          (zeros 32)
          1000
          1000
          alice_device
          signature
          tables).1,
    )
authenticate-issued_example =
    authenticate-issued digest primitives (zeros 32) 1000 1000 2593000 alice_device signature tables
      token 2593000 (ground arith) refl issues (omega arith)

authenticate-revoke_example :
    (authenticate digest 1000 token (revoke_session digest token tables).1).0 ≡ err invalid_session
authenticate-revoke_example = authenticate-revoke digest 1000 token tables
