-- ===== src/Router/Serve.antt =====
-- `CompiledRouter::route_request` of src/router.rs, `build_response` of src/protocol.rs and the
-- backend of src/processor/cpu.rs that calls them.

use gput.Base.{
  ℕ, suc, min, Option, none, some, List, [], ◌∷◌, ◌++◌, ltb, ◌==◌, if◌then◌else◌, length, drop,
  Outcome, ok, ◌>>=◌, index, slice,
}
use gput.Base.Text.{codes, bytes_eq}
use gput.Router.Body.{Bytes}
use gput.Router.Source.{Router}
use gput.Router.Decimal.{decimal}
use gput.Router.Request.{
  RequestParts, empty_parts, get_request, bad_request_line, method_refused, parse_request,
}
use gput.Router.Segments.{
  CompiledSegment, literal_id, path_limit, query_limit, backend_name, request_length, hash_of_path,
  variant_ids, CompiledResponse,
}
use gput.Router.Compile.{crlf, CompiledRoute, CompiledRouter, compile}

-- The name of a backend that runs the shader.
abbrev pub gpu_name : Bytes
gpu_name = codes "gpu"

unfoldable pub response_headers : ℕ → Bytes → Bytes → ℕ → Bytes → Bytes
response_headers status reason content_type body_len backend =
    codes "HTTP/1.1 "
    ++ decimal status
    ++ codes " "
    ++ reason
    ++ crlf
    ++ codes "Content-Type: "
    ++ content_type
    ++ crlf
    ++ codes "Content-Length: "
    ++ decimal body_len
    ++ crlf
    ++ codes "Server: gput"
    ++ crlf
    ++ codes "X-Gput-Backend: "
    ++ backend
    ++ crlf
    ++ crlf

unfoldable pub build_response : ℕ → Bytes → Bytes → Bytes → Bytes → Bytes
build_response status reason content_type body backend =
    response_headers status reason content_type (length body) backend ++ body

abbrev plain_response : ℕ → Bytes → Bytes → Bytes
plain_response status reason body =
    build_response status reason (codes "text/plain; charset=utf-8") body (codes "network")

-- What the network answers itself.
unfoldable pub request_timeout_response : Bytes
request_timeout_response = plain_response 408 (codes "Request Timeout") (codes "request timeout\n")

unfoldable pub payload_too_large_response : Bytes
payload_too_large_response =
    plain_response 413 (codes "Content Too Large") (codes "request too large\n")

unfoldable pub service_unavailable_response : Bytes
service_unavailable_response =
    plain_response 503 (codes "Service Unavailable") (codes "server overloaded\n")

unfoldable pub internal_server_error_response : Bytes
internal_server_error_response =
    plain_response 500 (codes "Internal Server Error") (codes "processor failure\n")

unfoldable pub incomplete_request_response : Bytes
incomplete_request_response =
    plain_response 400 (codes "Bad Request") (codes "incomplete request\n")

unfoldable pub string : CompiledRouter → ℕ → Outcome Bytes
string router id = index router.strings id

-- What a segment appends to the body.
unfoldable pub render_segment :
    CompiledRouter → RequestParts → ℕ → Bytes → CompiledSegment → Outcome Bytes
render_segment router parts request_len backend (literal_id id) = string router id
render_segment router parts request_len backend (path_limit max_bytes) =
    slice parts.path 0 (min (length parts.path) max_bytes)
render_segment router parts request_len backend (query_limit max_bytes) =
    slice parts.query 0 (min (length parts.query) max_bytes)
render_segment router parts request_len backend backend_name = ok backend
render_segment router parts request_len backend request_length = ok (decimal request_len)
render_segment router parts request_len backend hash_of_path = ok (decimal parts.path_hash)
render_segment router parts request_len backend (variant_ids cpu gpu) =
    string router (if bytes_eq backend gpu_name then gpu else cpu)

-- The loop over the segments, with the body so far.
unfoldable pub render_body :
    CompiledRouter → RequestParts → ℕ → Bytes → Bytes → List CompiledSegment → Outcome Bytes
render_body router parts request_len backend body [] = ok body
render_body router parts request_len backend body (segment ∷ segments) =
    render_segment router parts request_len backend segment >>= λ bytes.
    render_body router parts request_len backend (body ++ bytes) segments

unfoldable pub render_response :
    CompiledRouter → CompiledResponse → RequestParts → ℕ → Bytes → Outcome Bytes
render_response router response parts request_len backend = do
  body ← render_body router parts request_len backend [] response.segments
  reason ← string router response.reason_string_id
  content_type ← string router response.content_type_string_id
  ok (build_response response.status reason content_type body backend)

-- `partition_point`: how many routes at the front hash below `path_hash`.
unfoldable pub partition_point : ℕ → List CompiledRoute → ℕ
partition_point path_hash [] = 0
partition_point path_hash (route ∷ routes) =
    let rest = partition_point path_hash routes in
    if ltb route.path_hash path_hash then suc rest else 0

-- The routes of the hash at the front.
unfoldable pub take_hash : ℕ → List CompiledRoute → List CompiledRoute
take_hash path_hash [] = []
take_hash path_hash (route ∷ routes) =
    let rest = take_hash path_hash routes in
    if route.path_hash == path_hash then route ∷ rest else []

unfoldable pub find_path : Bytes → List CompiledRoute → Option CompiledRoute
find_path path [] = none
find_path path (route ∷ routes) =
    let rest = find_path path routes in if bytes_eq route.path path then some route else rest

-- The candidates of a request, and the one whose path it has.
unfoldable pub find_route : RequestParts → List CompiledRoute → Option CompiledRoute
find_route parts routes =
    let first_candidate = partition_point parts.path_hash routes in
    find_path parts.path (take_hash parts.path_hash (drop first_candidate routes))

abbrev pub response_or : CompiledResponse → Option CompiledRoute → CompiledResponse
response_or fallback none = fallback
response_or fallback (some route) = route.response

unfoldable pub route_request : CompiledRouter → Bytes → Bytes → Outcome Bytes
route_request router request backend = elim (parse_request request) [
  | get_request parts ↦
      render_response router (response_or router.fallback (find_route parts router.routes)) parts
        (length request) backend
  | bad_request_line ↦
      render_response router router.bad_request empty_parts (length request) backend
  | method_refused ↦
      render_response router router.method_not_allowed empty_parts (length request) backend
]

-- `CpuProcessor`.
pub record CpuProcessor : Type 0 where
  pub router : CompiledRouter

unfoldable pub with_router : Router → Outcome CpuProcessor
with_router router = compile router >>= λ compiled. ok (record { router = compiled })

abbrev pub cpu_name : Bytes
cpu_name = codes "cpu"

unfoldable pub process_batch : CpuProcessor → List Bytes → Outcome (List Bytes)
process_batch processor [] = ok []
process_batch processor (request ∷ requests) = do
  response ← route_request processor.router request cpu_name
  responses ← process_batch processor requests
  ok (response ∷ responses)
