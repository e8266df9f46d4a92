-- ===== src/Router/Compile.antt =====
-- `RouterCompiler::compile` and the compiled router of src/router.rs.

use gput.Base.{
  ℕ, ◌+◌, ◌*◌, ◌^◌, max, Bool, true, false, not, ◌&&◌, ◌||◌, List, [], ◌∷◌, ◌++◌, map, ltb, leb,
  ◌==◌, if◌then◌else◌, length, replicate, Outcome, ok, err, panic, ◌>>=◌, ◌>>◌, ensure, store,
}
use gput.Base.Text.{codes, bytes_eq}
use gput.Base.{
  route_count_not_u32, duplicate_route, path_length_not_u32, response_size_not_u32,
  router_program_not_u32, slot_below_response, route_table_overflow,
}
use gput.Router.Body.{Bytes}
use gput.Router.Source.{RouteDefinition, Router}
use gput.Router.Request.{fnv1a}
use gput.Router.Strings.{StringTable, empty_table, intern}
use gput.Router.Segments.{CompiledResponse, validate_route_path, compile_response}
use gput.Router.Emit.{
  route_stride_words, try_u32, emit_response, ShaderStringIds, maximum_response_bytes,
}

pub record CompiledRoute : Type 0 where
  pub path : Bytes
  pub path_hash : ℕ
  pub response : CompiledResponse

pub record GpuRouterLayout : Type 0 where
  pub route_count : ℕ
  pub fallback_response_offset : ℕ
  pub bad_request_response_offset : ℕ
  pub method_not_allowed_response_offset : ℕ

pub record CompiledRouter : Type 0 where
  pub routes : List CompiledRoute
  pub fallback : CompiledResponse
  pub bad_request : CompiledResponse
  pub method_not_allowed : CompiledResponse
  pub strings : List Bytes
  pub router_words : List ℕ
  pub gpu_layout : GpuRouterLayout
  pub shader_string_ids : ShaderStringIds
  pub max_gpu_response_bytes : ℕ

pub record RouterCompiler : Type 0 where
  pub strings : StringTable
  pub shader_string_ids : ShaderStringIds

-- `\r\n` before a header.
abbrev pub crlf : Bytes
crlf = 13 ∷ 10 ∷ []

abbrev pub header_tail_text : Bytes
header_tail_text =
    crlf
    ++ codes "Connection: close"
    ++ crlf
    ++ codes "Server: gput"
    ++ crlf
    ++ codes "X-Gput-Backend: gpu"
    ++ crlf
    ++ crlf

unfoldable pub new_compiler : Outcome RouterCompiler
new_compiler = do
  version ← intern empty_table (codes "HTTP/1.1 ")
  content_type ← intern version.1 (crlf ++ codes "Content-Type: ")
  content_length ← intern content_type.1 (crlf ++ codes "Content-Length: ")
  tail ← intern content_length.1 header_tail_text
  gpu ← intern tail.1 (codes "gpu")
  ok (record {
    strings = gpu.1;
    shader_string_ids = record {
      http_version = version.0;
      header_content_type = content_type.0;
      header_content_length = content_length.0;
      header_tail = tail.0;
      backend_gpu = gpu.0;
    };
  })

-- Membership in the set of the paths seen.
unfoldable pub has_path : Bytes → List Bytes → Bool
has_path path [] = false
has_path path (p ∷ seen) = bytes_eq p path || has_path path seen

-- The loop over the source's routes; the compiled routes are pushed to the end of `routes`.
unfoldable pub compile_routes :
    List Bytes
    → StringTable
    → List CompiledRoute
    → List RouteDefinition
    → Outcome (List CompiledRoute × StringTable)
compile_routes seen strings routes [] = ok (routes, strings)
compile_routes seen strings routes (route ∷ rest) = do
  validate_route_path route.route_path
  ensure (not (has_path route.route_path seen)) duplicate_route
  compiled ← compile_response strings route.response
  compile_routes (route.route_path ∷ seen) compiled.1
      (routes
        ++ record {
          path = route.route_path;
          path_hash = fnv1a route.route_path;
          response = compiled.0;
        }
          ∷ [])
      rest

-- `Ord` of byte slices.
abbrev pub bytes_leb : Bytes → Bytes → Bool
bytes_leb [] ys = true
bytes_leb (x ∷ xs) [] = false
bytes_leb (x ∷ xs) (y ∷ ys) = ltb x y || x == y && bytes_leb xs ys

-- The order of the table: by hash, then by path.
unfoldable pub route_leb : CompiledRoute → CompiledRoute → Bool
route_leb left right =
    ltb left.path_hash right.path_hash
    || left.path_hash == right.path_hash && bytes_leb left.path right.path

unfoldable pub insert_route : CompiledRoute → List CompiledRoute → List CompiledRoute
insert_route route [] = route ∷ []
insert_route route (r ∷ routes) =
    let rest = insert_route route routes in
    if route_leb route r then route ∷ r ∷ routes else r ∷ rest

-- `sort_unstable_by`: the paths differ, so the order leaves one result only.
unfoldable pub sort_routes : List CompiledRoute → List CompiledRoute
sort_routes [] = []
sort_routes (route ∷ routes) = insert_route route (sort_routes routes)

-- The table's loop, from the route at `route_index` on.
unfoldable pub emit_routes :
    ℕ → List ℕ → StringTable → List CompiledRoute → Outcome (List ℕ × StringTable)
emit_routes route_index words strings [] = ok (words, strings)
emit_routes route_index words strings (route ∷ routes) = do
  emitted ← emit_response words route.response
  name ← intern strings route.path
  w₁ ← store emitted.1 (route_index * route_stride_words) route.path_hash
  path_len ← try_u32 (length route.path) path_length_not_u32
  w₂ ← store w₁ (route_index * route_stride_words + 1) path_len
  w₃ ← store w₂ (route_index * route_stride_words + 2) name.0
  w₄ ← store w₃ (route_index * route_stride_words + 3) emitted.0
  emit_routes (route_index + 1) w₄ name.1 routes

-- The fold's step over results: the first error ends it.
unfoldable pub fold_sizes : ℕ → List (Outcome ℕ) → Outcome ℕ
fold_sizes current [] = ok current
fold_sizes current (next ∷ sizes) = next >>= λ n. fold_sizes (max current n) sizes

-- A result that an array holds: a panic ends the call, an error is kept.
abbrev pub evaluated : Outcome ℕ → Outcome (Outcome ℕ)
evaluated (ok n) = ok (ok n)
evaluated (err e) = ok (err e)
evaluated panic = panic

-- The largest response of the routes and of the three others, whose array is built first.
unfoldable pub largest_response :
    StringTable
    → ShaderStringIds
    → List CompiledRoute
    → CompiledResponse
    → CompiledResponse
    → CompiledResponse
    → Outcome ℕ
largest_response strings ids routes fallback bad_request method_not_allowed = do
  s₁ ← evaluated (maximum_response_bytes strings ids fallback)
  s₂ ← evaluated (maximum_response_bytes strings ids bad_request)
  s₃ ← evaluated (maximum_response_bytes strings ids method_not_allowed)
  fold_sizes 0 (
      map (λ route. maximum_response_bytes strings ids (CompiledRoute.response route)) routes
      ++ s₁ ∷ s₂ ∷ s₃ ∷ [])

-- What is left once every response is compiled.
unfoldable pub finish_router :
    ShaderStringIds
    → StringTable
    → List CompiledRoute
    → CompiledResponse
    → CompiledResponse
    → CompiledResponse
    → Outcome CompiledRouter
finish_router ids strings routes fallback bad_request method_not_allowed = do
  ensure (ltb (length routes * route_stride_words) (2 ^ 64)) route_table_overflow
  table ← emit_routes 0 (replicate (length routes * route_stride_words) 0) strings routes
  e₁ ← emit_response table.0 fallback
  e₂ ← emit_response e₁.1 bad_request
  e₃ ← emit_response e₂.1 method_not_allowed
  largest ← largest_response table.1 ids routes fallback bad_request method_not_allowed
  ensure (ltb largest (2 ^ 32)) response_size_not_u32
  ensure (ltb (length e₃.1) (2 ^ 32)) router_program_not_u32
  route_count ← try_u32 (length routes) route_count_not_u32
  ok (record {
    routes = routes;
    fallback = fallback;
    bad_request = bad_request;
    method_not_allowed = method_not_allowed;
    strings = StringTable.values table.1;
    router_words = e₃.1;
    gpu_layout = record {
      route_count = route_count;
      fallback_response_offset = e₁.0;
      bad_request_response_offset = e₂.0;
      method_not_allowed_response_offset = e₃.0;
    };
    shader_string_ids = ids;
    max_gpu_response_bytes = largest;
  })

unfoldable pub compile_with : RouterCompiler → Router → Outcome CompiledRouter
compile_with compiler router = do
  ensure (ltb (length router.routes) (2 ^ 32)) route_count_not_u32
  compiled ← compile_routes [] compiler.strings [] router.routes
  fallback ← compile_response compiled.1 router.fallback
  bad_request ← compile_response fallback.1 router.bad_request
  method_not_allowed ← compile_response bad_request.1 router.method_not_allowed
  finish_router compiler.shader_string_ids method_not_allowed.1 (sort_routes compiled.0) fallback.0
      bad_request.0 method_not_allowed.0

-- `Router::compile`.
unfoldable pub compile : Router → Outcome CompiledRouter
compile router = new_compiler >>= λ compiler. compile_with compiler router

unfoldable pub validate_gpu_response_slot : CompiledRouter → ℕ → Outcome (Unit {0})
validate_gpu_response_slot router response_slot_bytes =
    ensure (leb router.max_gpu_response_bytes response_slot_bytes) slot_below_response
