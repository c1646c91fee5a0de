-- ===== src/Api/Redaction.antt =====
-- What the log shows of the path of a request.
use mathlib.Core.Option.{some-injective, none-ne-some}
use mathlib.Core.Path.{subst}
use Prim.Native.String.{String}
use upmessenger.Base.{
  ◌≡◌, refl, ap, Bool, true, ◌&&◌, Option, none, some, List, [], ◌∷◌, arith, Text, codes, str_eq,
  find_first, map, if◌then◌else◌, sym, ◌∙◌, All, str_eq_iff, Bool-cases, Option-cases, inl, inr,
}
use upmessenger.Api.Paths.{
  Segment, literal, parameter, matches, bound, segments, normalize, normalize_path_for_logging,
  join, path_of,
}
use upmessenger.Api.{Services, Draws, AppState}
use upmessenger.Api.Requests.{Method, get, post, delete, Request}
use upmessenger.Api.Folder.{Disk}
use upmessenger.Api.Service.{blob_path, log_line, handle}
use upmessenger.Api.Routes.{Endpoint, Route, endpoint, same_method, routes}

-- The path that is logged for an endpoint.
unfoldable pub logged_as : Endpoint → Option String
logged_as Endpoint.register = some "/v1/account/register"
logged_as Endpoint.auth_challenge = some "/v1/auth/challenge"
logged_as Endpoint.auth_verify = some "/v1/auth/verify"
logged_as (Endpoint.resolve username) = some "/v1/directory/resolve/:param"
logged_as (Endpoint.resolve_id upm_id) = some "/v1/directory/resolve-id/:param"
logged_as (Endpoint.public_profile username) = some "/v1/profile/public/:param"
logged_as (Endpoint.device_keys device_id) = some "/v1/devices/keys/:param"
logged_as Endpoint.logout = some "/v1/auth/session"
logged_as Endpoint.set_privacy = some "/v1/profile/privacy"
logged_as Endpoint.get_privacy = some "/v1/profile/privacy"
logged_as Endpoint.publish_keys = some "/v1/devices/keys"
logged_as Endpoint.publish_prekeys = some "/v1/devices/prekeys"
logged_as Endpoint.claim_prekey = some "/v1/devices/prekeys/claim"
logged_as Endpoint.send = some "/v1/messages/send"
logged_as Endpoint.pull = some "/v1/messages/pull"
logged_as Endpoint.ack = some "/v1/messages/ack"
logged_as Endpoint.create_attachment = some "/v1/attachments/create"
logged_as (Endpoint.delete_attachment id) =
    if str_eq id (codes "create")
    then some "/v1/attachments/create"
    else some "/v1/attachments/:param"
logged_as Endpoint.no_such_endpoint = none

-- The path that is logged for a request with these segments: a request for the file of an attachment, or one
-- that is routed to an endpoint.
unfoldable pub logged_for : Method → List Text → Option String
logged_for method segs =
    if matches blob_path segs
    then some "/v1/attachments/:param/blob"
    else logged_as (endpoint method segs)

-- A path that matches literals and one parameter is these literals and the parameter.
matches-fixed :
    (name : String) (ps : List Segment) (segs : List Text)
    → matches (literal name ∷ ps) segs ≡ true
    → (rest : List Text) × (segs ≡ codes name ∷ rest) × (matches ps rest ≡ true)
unfolding matches
matches-fixed name ps [] h = cc
matches-fixed name ps (s ∷ rest) h =
    let same : str_eq s (codes name) ≡ true = ground arith in
    let others : matches ps rest ≡ true = ground arith in
    (rest, ap (λ t. t ∷ rest) ((str_eq_iff s (codes name)).0 same), others)

matches-none : (segs : List Text) → matches [] segs ≡ true → segs ≡ []
unfolding matches
matches-none [] h = refl
matches-none (s ∷ segs) h = cc

matches-last :
    (segs : List Text) → matches (parameter ∷ []) segs ≡ true → (u : Text) × (segs ≡ u ∷ [])
unfolding matches
matches-last [] h = cc
matches-last (u ∷ []) h = (u, refl)
matches-last (u ∷ v ∷ rest) h = cc

matches-file :
    (segs : List Text)
    → matches (parameter ∷ literal "blob" ∷ []) segs ≡ true
    → (u : Text) × (segs ≡ u ∷ codes "blob" ∷ [])
unfolding matches
matches-file [] h = cc
matches-file (u ∷ segs) h =
    let (rest, e, m) = matches-fixed "blob" [] segs h in
    (u, ap (λ t. u ∷ t) (e ∙ ap (λ t. codes "blob" ∷ t) (matches-none rest m)))

-- What the log shows for a route.
Redacts : Route → Type 0
Redacts r =
    (segs : List Text) (line : String)
    → matches r.path segs ≡ true
    → logged_as (r.endpoint (bound r.path segs)) ≡ some line
    → normalize segs ≡ codes line

find_first-Redacts :
    (test : Route → Bool) (rs : List Route) (r : Route)
    → All Redacts rs
    → find_first test rs ≡ some r
    → (test r ≡ true) × Redacts r
find_first-Redacts test [] r all e = cc
find_first-Redacts test (x ∷ rs) r (first, others) e = elim (Bool-cases (test x)) [
  | inl here ↦
      let same : x ≡ r = ground arith in subst (λ y. (test y ≡ true) × Redacts y) same (here, first)
  | inr there ↦ find_first-Redacts test rs r others (rw there at e)
]

-- A route under `/v1` with two more literals and a parameter.
Redacts-three :
    (method : Method) (b c line : String) (e : Text → Endpoint)
    → ((u : Text) → logged_as (e u) ≡ some line)
    → ((u : Text) → normalize (codes "v1" ∷ codes b ∷ codes c ∷ u ∷ []) ≡ codes line)
    → Redacts (record {
      method = method;
      path = literal "v1" ∷ literal b ∷ literal c ∷ parameter ∷ [];
      endpoint = e;
    })
unfolding Redacts
Redacts-three method b c line e shown logged segs line' m h =
    let (s1, e1, m1) = matches-fixed "v1" _ segs m in
    let (s2, e2, m2) = matches-fixed b _ s1 m1 in
    let (s3, e3, m3) = matches-fixed c _ s2 m2 in
    let (u, e4) = matches-last s3 m3 in
    let same : line ≡ line' = some-injective _ _ (sym (shown _) ∙ h) in
    rw (e1, e2, e3, e4) (logged u ∙ ap codes same)

abbrev literals : List String → List Segment
literals [] = []
literals (name ∷ names) = literal name ∷ literals names

matches-literals :
    (names : List String) (segs : List Text)
    → matches (literals names) segs ≡ true
    → segs ≡ map codes names
unfolding matches
matches-literals [] [] h = refl
matches-literals [] (s ∷ segs) h = cc
matches-literals (name ∷ names) segs h =
    let (rest, e, m) = matches-fixed name (literals names) segs h in
    e ∙ ap (λ t. codes name ∷ t) (matches-literals names rest m)

-- A route without a parameter.
Redacts-fixed :
    (method : Method) (names : List String) (line : String) (e : Text → Endpoint)
    → ((t : Text) → logged_as (e t) ≡ some line)
    → normalize (map codes names) ≡ codes line
    → Redacts (record { method = method; path = literals names; endpoint = e })
unfolding Redacts
Redacts-fixed method names line e shown logged segs line' m h =
    let same : line ≡ line' = some-injective _ _ (sym (shown _) ∙ h) in
    rw (matches-literals names segs m) (logged ∙ ap codes same)

normalize-delete :
    (u : Text) (line : String)
    → logged_as (Endpoint.delete_attachment u) ≡ some line
    → normalize (codes "v1" ∷ codes "attachments" ∷ u ∷ []) ≡ codes line
unfolding logged_as normalize matches str_eq
normalize-delete u line h = elim (Bool-cases (str_eq u (codes "create"))) [
  | inl named ↦ rw (normalize, named) (ap codes (some-injective _ _ (rw named at h)))
  | inr other ↦ rw (normalize, other) (ap codes (some-injective _ _ (rw other at h)))
]

Redacts-delete : Redacts (record {
  method = delete;
  path = literal "v1" ∷ literal "attachments" ∷ parameter ∷ [];
  endpoint = Endpoint.delete_attachment;
})
unfolding Redacts bound
Redacts-delete segs line m h =
    let (s1, e1, m1) = matches-fixed "v1" (literal "attachments" ∷ parameter ∷ []) segs m in
    let (s2, e2, m2) = matches-fixed "attachments" (parameter ∷ []) s1 m1 in
    let (u, e3) = matches-last s2 m2 in
    let shape : segs ≡ codes "v1" ∷ codes "attachments" ∷ u ∷ [] = rw (e1, e2, e3) in
    rw shape (normalize-delete u line (rw shape at h))

routes-Redacts : All Redacts routes
unfolding logged_as normalize matches join str_eq
routes-Redacts = (
  Redacts-fixed post ("v1" ∷ "account" ∷ "register" ∷ []) _ (λ _. Endpoint.register) (λ t. refl)
      refl,
  (
    Redacts-three get "directory" "resolve" _ Endpoint.resolve (λ u. refl) (λ u. refl),
    (
      Redacts-three get "directory" "resolve-id" _ Endpoint.resolve_id (λ u. refl) (λ u. refl),
      (
        Redacts-three get "profile" "public" _ Endpoint.public_profile (λ u. refl) (λ u. refl),
        (
          Redacts-fixed post ("v1" ∷ "auth" ∷ "challenge" ∷ []) _ (λ _. Endpoint.auth_challenge)
              (λ t. refl) refl,
          (
            Redacts-fixed post ("v1" ∷ "auth" ∷ "verify" ∷ []) _ (λ _. Endpoint.auth_verify)
                (λ t. refl) refl,
            (
              Redacts-fixed delete ("v1" ∷ "auth" ∷ "session" ∷ []) _ (λ _. Endpoint.logout)
                  (λ t. refl) refl,
              (
                Redacts-fixed post ("v1" ∷ "profile" ∷ "privacy" ∷ []) _ (λ _. Endpoint.set_privacy)
                    (λ t. refl) refl,
                (
                  Redacts-fixed get ("v1" ∷ "profile" ∷ "privacy" ∷ []) _
                      (λ _. Endpoint.get_privacy) (λ t. refl) refl,
                  (
                    Redacts-three get "devices" "keys" _ Endpoint.device_keys (λ u. refl)
                        (λ u. refl),
                    (
                      Redacts-fixed post ("v1" ∷ "devices" ∷ "keys" ∷ []) _
                          (λ _. Endpoint.publish_keys) (λ t. refl) refl,
                      (
                        Redacts-fixed post ("v1" ∷ "devices" ∷ "prekeys" ∷ []) _
                            (λ _. Endpoint.publish_prekeys) (λ t. refl) refl,
                        (
                          Redacts-fixed post ("v1" ∷ "devices" ∷ "prekeys" ∷ "claim" ∷ []) _
                              (λ _. Endpoint.claim_prekey) (λ t. refl) refl,
                          (
                            Redacts-fixed post ("v1" ∷ "messages" ∷ "send" ∷ []) _
                                (λ _. Endpoint.send) (λ t. refl) refl,
                            (
                              Redacts-fixed get ("v1" ∷ "messages" ∷ "pull" ∷ []) _
                                  (λ _. Endpoint.pull) (λ t. refl) refl,
                              (
                                Redacts-fixed post ("v1" ∷ "messages" ∷ "ack" ∷ []) _
                                    (λ _. Endpoint.ack) (λ t. refl) refl,
                                (
                                  Redacts-fixed post ("v1" ∷ "attachments" ∷ "create" ∷ []) _
                                      (λ _. Endpoint.create_attachment) (λ t. refl) refl,
                                  (Redacts-delete, tt),
                                ),
                              ),
                            ),
                          ),
                        ),
                      ),
                    ),
                  ),
                ),
              ),
            ),
          ),
        ),
      ),
    ),
  ),
)

normalize-file :
    (u : Text)
    → normalize (codes "v1" ∷ codes "attachments" ∷ u ∷ codes "blob" ∷ [])
      ≡ codes "/v1/attachments/:param/blob"
unfolding normalize matches str_eq
normalize-file u = elim (Bool-cases (str_eq u (codes "create"))) [
  | inl named ↦ rw (normalize, named) refl
  | inr other ↦ rw (normalize, other) refl
]

-- The path of the file of an attachment.
normalize-blob :
    (segs : List Text)
    → matches blob_path segs ≡ true
    → normalize segs ≡ codes "/v1/attachments/:param/blob"
normalize-blob segs m =
    let rest : List Segment = parameter ∷ literal "blob" ∷ [] in
    let (s1, e1, m1) = matches-fixed "v1" (literal "attachments" ∷ rest) segs m in
    let (s2, e2, m2) = matches-fixed "attachments" rest s1 m1 in
    let (u, e3) = matches-file s2 m2 in rw (e1, e2, e3) (normalize-file u)

normalize-endpoint :
    (method : Method) (segs : List Text) (line : String)
    → logged_as (endpoint method segs) ≡ some line
    → normalize segs ≡ codes line
unfolding endpoint Redacts logged_as
normalize-endpoint method segs line h =
    elim (Option-cases
      (find_first (λ r. same_method method r.method && matches r.path segs) routes)) [
        | inl e ↦ absurd (none-ne-some _ (rw (endpoint, e) at h))
        | inr (r, e) ↦
            let (fits, redacts) =
              find_first-Redacts (λ x. same_method method x.method && matches x.path segs) routes r
                routes-Redacts e in
            redacts segs line (ground (arith, fits)) (rw (endpoint, e) at h)
      ]

-- The path in the log line of a request, whatever is answered, is the fixed path of what the request is for, the
-- file of an attachment or the endpoint that it is routed to, with `:param` for the username, the UPM ID, the
-- device or the attachment; the DELETE of an attachment `create` alone shows that word. A request that is for
-- neither is not spoken of.
pub handle-logged :
    (services : Services) (draws : Draws) (disk : Disk) (request : Request) (s : AppState)
    (line : String)
    → logged_for request.method (segments (path_of request.url)) ≡ some line
    → (handle services draws disk request s).0.1.path ≡ codes line
unfolding handle log_line normalize_path_for_logging logged_for
handle-logged services draws disk request s line h =
    let segs : List Text = segments (path_of request.url) in
    elim (Bool-cases (matches blob_path segs)) [
      | inl file ↦ normalize-blob segs file ∙ ap codes (some-injective _ _ (rw file at h))
      | inr other ↦ normalize-endpoint request.method segs line (rw other at h)
    ]
