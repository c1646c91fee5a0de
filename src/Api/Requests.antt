-- ===== src/Api/Requests.antt =====
-- server/upm-server/src/api.rs: what the server reads of a request: its headers, the key of the rate limiter,
-- the bearer token, and the body as UTF-8. tiny_http gives the parts of the request.
use Prim.Native.String.{String}
use upmessenger.Base.{
  ℕ, ◌+◌, ◌-◌, Bool, true, not, ◌&&◌, ◌||◌, Option, none, some, List, [], ◌∷◌, Bytes, Text, codes,
  str_eq, map, find_first, leb, ◌==◌, if◌then◌else◌,
}
use upmessenger.Api.Paths.{is_empty}

-- tiny_http::Method
pub data Method : Type 0 where
  get head post put delete connect options trace patch : Method
  non_standard : Text → Method

-- tiny_http::Request; the body is what `read_to_end` gives, or nothing where it fails.
pub record Request : Type 0 where
  pub method : Method
  pub url : Text
  pub headers : List (Text × Text)
  pub remote_addr : Option Text
  pub body : Option Bytes

-- u8::to_ascii_lowercase and u8::to_ascii_uppercase
unfoldable pub lower : ℕ → ℕ
lower c = if leb b'A' c && leb c b'Z' then c + 32 else c

unfoldable pub upper : ℕ → ℕ
upper c = if leb b'a' c && leb c b'z' then c - 32 else c

-- str::eq_ignore_ascii_case
unfoldable pub eq_ignore_ascii_case : Text → Text → Bool
eq_ignore_ascii_case s t = str_eq (map lower s) (map lower t)

-- char::is_whitespace, on ASCII
unfoldable pub is_whitespace : ℕ → Bool
is_whitespace c = (leb 9 c && leb c 13) || (c == 32)

unfoldable pub trim_start : Text → Text
trim_start [] = []
trim_start (c ∷ t) = let rest = trim_start t in if is_whitespace c then rest else c ∷ t

unfoldable pub trim_end : Text → Text
trim_end [] = []
trim_end (c ∷ t) =
    let rest = trim_end t in if is_whitespace c && is_empty rest then [] else c ∷ rest

unfoldable pub trim : Text → Text
trim t = trim_end (trim_start t)

-- `headers().iter().find(..)`, and the value that is found
unfoldable pub header : String → List (Text × Text) → Option Text
header name headers = elim (find_first (λ h. eq_ignore_ascii_case h.0 (codes name)) headers) [
  | none ↦ none
  | some h ↦ some h.1
]

-- The peer address, or "unknown".
unfoldable pub peer : Option Text → Text
peer none = codes "unknown"
peer (some ip) = ip

unfoldable pub client_key : Request → Text
client_key request = elim (header "CF-Connecting-IP" request.headers) [
  | some value ↦ if not (is_empty (trim value)) then trim value else peer request.remote_addr
  | none ↦ peer request.remote_addr
]

-- str::strip_prefix
unfoldable pub strip_prefix : Text → Text → Option Text
strip_prefix [] t = some t
strip_prefix (p ∷ ps) [] = none
strip_prefix (p ∷ ps) (c ∷ t) = let rest = strip_prefix ps t in if p == c then rest else none

unfoldable pub extract_bearer : Request → Option Text
extract_bearer request = elim (header "Authorization" request.headers) [
  | none ↦ none
  | some value ↦ elim (strip_prefix (codes "Bearer ") value) [
    | none ↦ none
    | some token ↦ some (trim token)
  ]
]

-- The header of an attachment's capability.
unfoldable pub capability_of : Request → Option Text
capability_of request = elim (header "X-UPM-Attachment-Capability" request.headers) [
  | none ↦ none
  | some value ↦ some (trim value)
]

unfoldable pub is_continuation : ℕ → Bool
is_continuation b = leb 0x80 b && leb b 0xBF

-- A sequence of three bytes that is neither overlong nor a surrogate.
unfoldable pub three_bytes : ℕ → ℕ → ℕ → Bool
three_bytes a b c =
    leb 0xE0 a
    && leb a 0xEF
    && is_continuation b
    && is_continuation c
    && (not (a == 0xE0) || leb 0xA0 b)
    && (not (a == 0xED) || leb b 0x9F)

-- A sequence of four bytes that is neither overlong nor above U+10FFFF.
unfoldable pub four_bytes : ℕ → ℕ → ℕ → ℕ → Bool
four_bytes a b c d =
    leb 0xF0 a
    && leb a 0xF4
    && is_continuation b
    && is_continuation c
    && is_continuation d
    && (not (a == 0xF0) || leb 0x90 b)
    && (not (a == 0xF4) || leb b 0x8F)

-- `String::from_utf8(..).is_ok()`
unfoldable pub is_utf8 : Bytes → Bool
is_utf8 [] = true
is_utf8 (a ∷ []) = leb a 0x7F
is_utf8 (a ∷ b ∷ []) =
    let after_one = is_utf8 (b ∷ []) in
    if leb a 0x7F then after_one else leb 0xC2 a && leb a 0xDF && is_continuation b
is_utf8 (a ∷ b ∷ c ∷ []) =
    let after_one = is_utf8 (b ∷ c ∷ []) in
    let after_two = is_utf8 (c ∷ []) in
    if leb a 0x7F
    then after_one
    else if leb 0xC2 a && leb a 0xDF
    then is_continuation b && after_two
    else three_bytes a b c
is_utf8 (a ∷ b ∷ c ∷ d ∷ rest) =
    let after_one = is_utf8 (b ∷ c ∷ d ∷ rest) in
    let after_two = is_utf8 (c ∷ d ∷ rest) in
    let after_three = is_utf8 (d ∷ rest) in
    let after_four = is_utf8 rest in
    if leb a 0x7F
    then after_one
    else if leb 0xC2 a && leb a 0xDF
    then is_continuation b && after_two
    else if leb 0xE0 a && leb a 0xEF
    then three_bytes a b c && after_three
    else four_bytes a b c d && after_four
