-- ===== src/Router/Parsing.antt =====
-- What `parse_request` of src/router.rs makes of a request line.

use gput.Base.{
  ℕ, ◌≡◌, inl, inr, refl, sym, ap, ◌∙◌, Bool, true, false, not, ◌&&◌, Option, none, some, List, [],
  ◌∷◌, ◌++◌, ◌==◌, if◌then◌else◌, length, take, Option-cases, take-append_left, All-append, subst,
}
use gput.Base.Text.{codes, bytes_eq, starts_with, split_on}
use gput.Router.Body.{Bytes, is_empty}
use gput.Router.Request.{
  fnv1a, RequestParse, get_request, bad_request_line, method_refused, position, strip_last,
  split_target, parse_target, parse_line, parse_request,
}
use gput.Router.Scanning.{
  Without, position-Without, position-none, strip_last-append, split_on-Without, split_on-append,
  drop-append_right,
}

-- A parsed request carries the hash of its path.
abbrev pub IsHashedParse : RequestParse → Type 0
IsHashedParse (get_request parts) = parts.path_hash ≡ fnv1a parts.path
IsHashedParse bad_request_line = Unit {0}
IsHashedParse method_refused = Unit {0}

-- Both sides of a test.
either {ℓ κ} :
    {A : Type ℓ} (P : A → Type κ) (b : Bool) (x y : A) → P x → P y → P (if b then x else y)
either P true x y h k = h
either P false x y h k = k

parse_target-IsHashedParse : (target : Bytes) → IsHashedParse (parse_target target)
unfolding parse_target
parse_target-IsHashedParse target =
    let parts = split_target target in
    either IsHashedParse (is_empty parts.0) bad_request_line
      (get_request (record { path = parts.0; query = parts.1; path_hash = fnv1a parts.0 })) tt refl

parse_line-IsHashedParse : (parts : List Bytes) → IsHashedParse (parse_line parts)
unfolding parse_line
parse_line-IsHashedParse [] = tt
parse_line-IsHashedParse (method ∷ []) = tt
parse_line-IsHashedParse (method ∷ target ∷ []) = tt
parse_line-IsHashedParse (method ∷ target ∷ version ∷ []) =
    let other_version =
      not (bytes_eq version (codes "HTTP/1.1")) && not (bytes_eq version (codes "HTTP/1.0")) in
    let no_slash = not (starts_with (codes "/") target) in
    let sound : IsHashedParse (if no_slash then bad_request_line else parse_target target) =
      either IsHashedParse no_slash bad_request_line (parse_target target) tt
        (parse_target-IsHashedParse target) in
    let next : IsHashedParse (
        if other_version
        then bad_request_line
        else (if no_slash then bad_request_line else parse_target target)) =
      either IsHashedParse other_version bad_request_line
        (if no_slash then bad_request_line else parse_target target) tt sound in
    either IsHashedParse (not (bytes_eq method (codes "GET"))) method_refused
      (if other_version
        then bad_request_line
        else (if no_slash then bad_request_line else parse_target target))
      tt next
parse_line-IsHashedParse (method ∷ target ∷ version ∷ other ∷ parts) = tt

parse_request-found :
    (request : Bytes) (line_end : ℕ)
    → position b'\n' request ≡ some line_end
    → parse_request request ≡ parse_line (split_on b' ' (strip_last b'\r' (take line_end request)))
unfolding parse_request
parse_request-found request line_end found = rw (found, parse_request) refl

parse_request-no_line :
    (request : Bytes) → position b'\n' request ≡ none → parse_request request ≡ bad_request_line
unfolding parse_request
parse_request-no_line request no_line = rw (no_line, parse_request) refl

pub parse_request-IsHashedParse : (request : Bytes) → IsHashedParse (parse_request request)
parse_request-IsHashedParse request = elim (Option-cases (position b'\n' request)) [
  | inl no_line ↦ subst IsHashedParse (sym (parse_request-no_line request no_line)) tt
  | inr (line_end, found) ↦
      subst IsHashedParse (sym (parse_request-found request line_end found))
        (parse_line-IsHashedParse (split_on b' ' (strip_last b'\r' (take line_end request))))
]

-- The target, with or without a query.
abbrev pub target_of : Bytes → Option Bytes → Bytes
target_of path none = path
target_of path (some query) = path ++ b'?' ∷ query

abbrev pub query_of : Option Bytes → Bytes
query_of none = []
query_of (some query) = query

split_target-target_of :
    (path : Bytes) (query : Option Bytes)
    → Without b'?' path
    → split_target (target_of path query) ≡ (path, query_of query)
unfolding split_target
split_target-target_of path none h = rw (position-none b'?' path h, split_target) refl
split_target-target_of path (some query) h =
    rw
      (
        position-Without b'?' path query h,
        split_target,
        take-append_left path (b'?' ∷ query),
        drop-append_right b'?' path query,
      )
      refl

-- A path that `parse_request` accepts whole.
pub record IsPath (path : Bytes) : Type 0 where
  pub tail : Bytes
  pub slash : path ≡ b'/' ∷ tail
  pub no_mark : Without b'?' path
  pub no_space : Without b' ' path
  pub no_break : Without b'\n' path

-- A query is cut off at no byte but a space or the line's end.
abbrev pub IsQuery : Option Bytes → Type 0
IsQuery none = Unit {0}
IsQuery (some query) = Without b' ' query × Without b'\n' query

abbrev pub request_line : Bytes → Option Bytes → Bytes → Bytes
request_line path query version = codes "GET" ++ b' ' ∷ target_of path query ++ b' ' ∷ version

target_of-Without :
    (b : ℕ) (path : Bytes) (query : Option Bytes)
    → b'?' == b ≡ false
    → Without b path
    → Without b (query_of query)
    → Without b (target_of path query)
target_of-Without b path none other h k = h
target_of-Without b path (some query) other h k =
    All-append (λ (x : ℕ). x == b ≡ false) path (b'?' ∷ query) h (other, k)

query_no_space : (query : Option Bytes) → IsQuery query → Without b' ' (query_of query)
query_no_space none h = tt
query_no_space (some query) h = h.0

query_no_break : (query : Option Bytes) → IsQuery query → Without b'\n' (query_of query)
query_no_break none h = tt
query_no_break (some query) h = h.1

-- The versions that the server takes.
abbrev pub version_text : Bool → Bytes
version_text true = codes "HTTP/1.1"
version_text false = codes "HTTP/1.0"

parse_target-target_of :
    (path : Bytes) (query : Option Bytes)
    → IsPath path
    → parse_target (target_of path query)
      ≡ get_request (record { path = path; query = query_of query; path_hash = fnv1a path })
unfolding parse_target
parse_target-target_of path query h =
    rw (split_target-target_of path query h.no_mark, ap is_empty h.slash) refl

target_starts :
    (path : Bytes) (query : Option Bytes)
    → IsPath path
    → starts_with (codes "/") (target_of path query) ≡ true
target_starts path none h = ap (starts_with (codes "/")) h.slash
target_starts path (some query) h = ap (λ p. starts_with (codes "/") (p ++ b'?' ∷ query)) h.slash

split_request_line :
    (path : Bytes) (query : Option Bytes) (version : Bool)
    → IsPath path
    → IsQuery query
    → split_on b' ' (request_line path query (version_text version))
      ≡ codes "GET" ∷ target_of path query ∷ version_text version ∷ []
split_request_line path query version h k =
    let target = target_of path query in
    split_on-append b' ' (codes "GET") (target ++ b' ' ∷ version_text version)
      (refl, (refl, (refl, tt)))
    ∙ ap (λ t. codes "GET" ∷ t)
        (split_on-append b' ' target (version_text version)
            (target_of-Without b' ' path query refl h.no_space (query_no_space query k))
          ∙ ap (λ t. target ∷ t)
              (split_on-Without b' ' (version_text version) (version_no_space version)))
  where
    version_no_space : (v : Bool) → Without b' ' (version_text v)
    version_no_space true = (refl, (refl, (refl, (refl, (refl, (refl, (refl, (refl, tt))))))))
    version_no_space false = (refl, (refl, (refl, (refl, (refl, (refl, (refl, (refl, tt))))))))

parse_parts :
    (path : Bytes) (query : Option Bytes) (version : Bool)
    → IsPath path
    → parse_line (codes "GET" ∷ target_of path query ∷ version_text version ∷ [])
      ≡ get_request (record { path = path; query = query_of query; path_hash = fnv1a path })
unfolding parse_line
parse_parts path query true h =
    rw (target_starts path query h) (parse_target-target_of path query h)
parse_parts path query false h =
    rw (target_starts path query h) (parse_target-target_of path query h)

line_no_break :
    (path : Bytes) (query : Option Bytes) (version : Bool)
    → IsPath path
    → IsQuery query
    → Without b'\n' (request_line path query (version_text version) ++ b'\r' ∷ [])
line_no_break path query version h k =
    let kept = target_of-Without b'\n' path query refl h.no_break (query_no_break query k) in
    let clear = λ (x : ℕ). x == b'\n' ≡ false in
    All-append clear (request_line path query (version_text version)) (b'\r' ∷ [])
      (
        refl,
        (
          refl,
          (
            refl,
            (
              refl,
              All-append clear (target_of path query) (b' ' ∷ version_text version) kept
                  (refl, version_no_break version),
            ),
          ),
        ),
      )
      (refl, tt)
  where
    version_no_break : (v : Bool) → Without b'\n' (version_text v)
    version_no_break true = (refl, (refl, (refl, (refl, (refl, (refl, (refl, (refl, tt))))))))
    version_no_break false = (refl, (refl, (refl, (refl, (refl, (refl, (refl, (refl, tt))))))))

-- A `GET` line of a path, a query or none and one of the two versions is parsed into that path and
-- that query, whatever follows the line.
pub parse_request-request_line :
    (path : Bytes) (query : Option Bytes) (version : Bool) (rest : Bytes)
    → IsPath path
    → IsQuery query
    → parse_request ((request_line path query (version_text version) ++ b'\r' ∷ []) ++ b'\n' ∷ rest)
      ≡ get_request (record { path = path; query = query_of query; path_hash = fnv1a path })
parse_request-request_line path query version rest h k =
    let line = request_line path query (version_text version) in
    let cut = take-append_left (line ++ b'\r' ∷ []) (b'\n' ∷ rest) in
    parse_request-found ((line ++ b'\r' ∷ []) ++ b'\n' ∷ rest) (length (line ++ b'\r' ∷ []))
      (position-Without b'\n' (line ++ b'\r' ∷ []) rest (line_no_break path query version h k))
    ∙ ap (λ t. parse_line (split_on b' ' t))
        (ap (strip_last b'\r') cut ∙ strip_last-append b'\r' line)
    ∙ ap parse_line (split_request_line path query version h k)
    ∙ parse_parts path query version h
