-- ===== src/Router/Meaning.antt =====
-- What a router of src/router.rs answers, read off its source: no table, no indices, no sorting. The
-- compiled router is compared with it.

use gput.Base.{ℕ, List, [], ◌∷◌, ◌++◌, if◌then◌else◌, length, take}
use gput.Base.Text.{bytes_eq}
use gput.Router.Body.{
  Bytes, BodySegment, literal_segment, path_segment, query_segment, backend_segment,
  request_bytes_segment, path_hash_segment, variant_segment, Response,
}
use gput.Router.Source.{RouteDefinition, Router}
use gput.Router.Decimal.{decimal}
use gput.Router.Request.{
  RequestParts, empty_parts, get_request, bad_request_line, method_refused, parse_request,
}
use gput.Router.Serve.{build_response, gpu_name}

abbrev pub segment_bytes : RequestParts → ℕ → Bytes → BodySegment → Bytes
segment_bytes parts request_len backend (literal_segment value) = value
segment_bytes parts request_len backend (path_segment max_bytes) = take max_bytes parts.path
segment_bytes parts request_len backend (query_segment max_bytes) = take max_bytes parts.query
segment_bytes parts request_len backend backend_segment = backend
segment_bytes parts request_len backend request_bytes_segment = decimal request_len
segment_bytes parts request_len backend path_hash_segment = decimal parts.path_hash
segment_bytes parts request_len backend (variant_segment cpu gpu) =
    if bytes_eq backend gpu_name then gpu else cpu

abbrev pub body_bytes : RequestParts → ℕ → Bytes → List BodySegment → Bytes
body_bytes parts request_len backend [] = []
body_bytes parts request_len backend (segment ∷ segments) =
    segment_bytes parts request_len backend segment ++ body_bytes parts request_len backend segments

abbrev pub response_bytes : RequestParts → ℕ → Bytes → Response → Bytes
response_bytes parts request_len backend response =
    build_response response.status.code response.status.reason response.content_type
      (body_bytes parts request_len backend response.body.segments) backend

-- The response of the first route with the path.
unfoldable pub response_for : Bytes → Response → List RouteDefinition → Response
response_for path fallback [] = fallback
response_for path fallback (route ∷ routes) =
    let rest = response_for path fallback routes in
    if bytes_eq route.route_path path then route.response else rest

unfoldable pub answer : Router → Bytes → Bytes → Bytes
answer router request backend = elim (parse_request request) [
  | get_request parts ↦
      response_bytes parts (length request) backend
        (response_for parts.path router.fallback router.routes)
  | bad_request_line ↦ response_bytes empty_parts (length request) backend router.bad_request
  | method_refused ↦ response_bytes empty_parts (length request) backend router.method_not_allowed
]
