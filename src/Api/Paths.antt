-- ===== src/Api/Paths.antt =====
-- server/upm-server/src/api.rs: the path and the query of a URL, and the path that is written to the log.
use Prim.Native.String.{String}
use upmessenger.Base.{
  ℕ, Bool, true, false, not, ◌&&◌, Option, none, some, List, [], ◌∷◌, ◌++◌, Text, codes, str_eq,
  select, find_first, ◌==◌, if◌then◌else◌,
}

unfoldable pub is_empty : Text → Bool
is_empty [] = true
is_empty (c ∷ t) = false

-- The first piece, longer by a character.
unfoldable pub push_first : ℕ → List Text → List Text
push_first c [] = (c ∷ []) ∷ []
push_first c (p ∷ ps) = (c ∷ p) ∷ ps

-- str::split
unfoldable pub split : ℕ → Text → List Text
split c [] = [] ∷ []
split c (x ∷ xs) = let rest = split c xs in if x == c then [] ∷ rest else push_first x rest

-- str::trim_start_matches and str::trim_end_matches
unfoldable pub trim_start_matches : ℕ → Text → Text
trim_start_matches c [] = []
trim_start_matches c (x ∷ xs) =
    let rest = trim_start_matches c xs in if x == c then rest else x ∷ xs

unfoldable pub trim_end_matches : ℕ → Text → Text
trim_end_matches c [] = []
trim_end_matches c (x ∷ xs) =
    let rest = trim_end_matches c xs in if x == c && is_empty rest then [] else x ∷ rest

-- `iter.next().unwrap_or("")`
unfoldable pub first_or_empty : List Text → Text
first_or_empty [] = []
first_or_empty (p ∷ ps) = p

-- `url.split('?').next().unwrap_or("")`
unfoldable pub path_of : Text → Text
path_of url = first_or_empty (split b'?' url)

-- The segments of a path that are not empty.
unfoldable pub segments : Text → List Text
segments path =
    select (λ s. not (is_empty s))
      (split b'/' (trim_end_matches b'/' (trim_start_matches b'/' path)))

-- `url.split('?').nth(1)`
unfoldable pub query_of : Text → Option Text
query_of url = elim (split b'?' url) [
  | [] ↦ none
  | path ∷ rest ↦ elim rest [ [] ↦ none | query ∷ more ↦ some query ]
]

-- `pair.splitn(2, '=')`: the key, and what stands after the first `=`.
unfoldable pub split_pair : Text → Text × Option Text
split_pair [] = ([], none)
split_pair (x ∷ xs) =
    let (key, value) = split_pair xs in if x == b'=' then ([], some xs) else (x ∷ key, value)

-- The loop over the pairs of a query.
unfoldable pub find_param : Text → List Text → Option Text
find_param key [] = none
find_param key (pair ∷ pairs) =
    let rest = find_param key pairs in
    let (name, value) = split_pair pair in if str_eq name key then value else rest

unfoldable pub query_param : Text → String → Option Text
query_param url key = elim (query_of url) [
  | none ↦ none
  | some query ↦ find_param (codes key) (split b'&' query)
]

-- A segment of a slice pattern: a literal, or a parameter.
pub data Segment : Type 0 where
  literal : String → Segment
  parameter : Segment

unfoldable pub matches : List Segment → List Text → Bool
matches [] [] = true
matches (literal name ∷ ps) (s ∷ segs) = str_eq s (codes name) && matches ps segs
matches (parameter ∷ ps) (s ∷ segs) = matches ps segs
matches _ _ = false

-- What the parameter of a pattern is bound to.
unfoldable pub bound : List Segment → List Text → Text
bound [] segs = []
bound (p ∷ ps) [] = []
bound (literal name ∷ ps) (s ∷ segs) = bound ps segs
bound (parameter ∷ ps) (s ∷ segs) = s

-- `/` and the segments, joined by `/`
unfoldable pub join : List Text → Text
join [] = []
join (s ∷ []) = s
join (s ∷ t ∷ rest) = s ++ (b'/' ∷ join (t ∷ rest))

-- The slice patterns of `normalize_path_for_logging`, each with the path that is logged.
abbrev pub logged_paths : List (List Segment × String)
logged_paths =
    (
      literal "v1" ∷ literal "directory" ∷ literal "resolve" ∷ parameter ∷ [],
      "v1/directory/resolve/:param",
    )
    ∷ (
      literal "v1" ∷ literal "directory" ∷ literal "resolve-id" ∷ parameter ∷ [],
      "v1/directory/resolve-id/:param",
    )
    ∷ (
      literal "v1" ∷ literal "profile" ∷ literal "public" ∷ parameter ∷ [],
      "v1/profile/public/:param",
    )
    ∷ (literal "v1" ∷ literal "devices" ∷ literal "keys" ∷ parameter ∷ [], "v1/devices/keys/:param")
    ∷ (literal "v1" ∷ literal "attachments" ∷ literal "create" ∷ [], "v1/attachments/create")
    ∷ (literal "v1" ∷ literal "attachments" ∷ parameter ∷ [], "v1/attachments/:param")
    ∷ (
      literal "v1" ∷ literal "attachments" ∷ parameter ∷ literal "blob" ∷ [],
      "v1/attachments/:param/blob",
    )
    ∷ []

-- The `match` on the segments, with `format!`.
unfoldable pub normalize : List Text → Text
normalize segs = elim (find_first (λ p. matches p.0 segs) logged_paths) [
  | some p ↦ b'/' ∷ codes p.1
  | none ↦ b'/' ∷ join segs
]

unfoldable pub normalize_path_for_logging : Text → Text
normalize_path_for_logging path = normalize (segments path)
