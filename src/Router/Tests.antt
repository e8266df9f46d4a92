-- ===== src/Router/Tests.antt =====
-- Runs of the router's code on small inputs, and the theorems on them.

use gput.Base.{
  ℕ, ◌≤◌, ◌≡◌, refl, true, none, some, List, [], ◌∷◌, ◌++◌, map, arith, length, Outcome, ok, err,
  panic,
}
use gput.Base.Text.{codes}
use gput.Router.Body.{
  Bytes, push, literal, append_literal, extend_last, text, body_from, empty_body,
}
use gput.Router.Source.{Router, new, route, get}
use gput.Router.Decimal.{decimal_digits, ilog10, ilog10_from, HasDigits, decimal_digits-HasDigits}
use gput.Router.Request.{fnv1a, fnv_from, RequestParts, get_request, parse_request}
use gput.Router.Segments.{
  validate_route_path, compile_response, validate_status, validate_header_value,
  validate_dynamic_limit, compile_segments, compile_segment, push_compiled, checked_add,
  CompiledResponse,
}
use gput.Router.Strings
use gput.Router.Strings.{StringTable, empty_table, intern, find_id}
use gput.Router.Emit.{emit_response, emit_operations, operation_words, maximum_response_bytes}
use gput.Router.Compile.{
  validate_gpu_response_slot, CompiledRoute, CompiledRouter, compile, sort_routes, new_compiler,
  compile_with, compile_routes, has_path, insert_route, route_leb, finish_router, emit_routes,
  largest_response, fold_sizes,
}
use gput.Router.Serve.{
  gpu_name, route_request, find_route, find_path, with_router, process_batch, cpu_name,
}
use gput.Router.Meaning.{answer, body_bytes}
use gput.Router.Fits.{route_request-fits}
use gput.Router.Refines.{route_request-answer, process_batch-answer}
use gput.Router.Parsing.{parse_request-request_line, request_line, version_text}
use gput.Router.Merged.{is_merged, is_merged-build}
use gput.Router.Builders.{
  Call, call_literal, call_path, call_query, call_variant, build, call_segment, body_bytes-build,
}
use gput.Router.Lookup.{find_route-sort_routes}

abbrev router : Router
router = get new (codes "/a") (text (body_from (codes "hi\n")))

abbrev value_of {ℓ} : {A : Type ℓ} → A → Outcome A → A
value_of d (ok a) = a
value_of d (err e) = d
value_of d panic = d

abbrev no_response : CompiledResponse
no_response = record {
  status = 0;
  reason_string_id = 0;
  content_type_string_id = 0;
  segments = [];
  max_gpu_body_bytes = 0;
  max_cpu_body_bytes = 0;
}

abbrev no_router : CompiledRouter
no_router = record {
  routes = [];
  fallback = no_response;
  bad_request = no_response;
  method_not_allowed = no_response;
  strings = [];
  router_words = [];
  gpu_layout = record {
    route_count = 0;
    fallback_response_offset = 0;
    bad_request_response_offset = 0;
    method_not_allowed_response_offset = 0;
  };
  shader_string_ids = record {
    http_version = 0;
    header_content_type = 0;
    header_content_length = 0;
    header_tail = 0;
    backend_gpu = 0;
  };
  max_gpu_response_bytes = 0;
}

abbrev compiled : CompiledRouter
compiled = value_of no_router (compile router)

compile_router : compile router ≡ ok compiled
unfolding get route new body_from push literal append_literal extend_last compile new_compiler
    compile_with compile_routes has_path validate_route_path compile_response validate_status
    validate_header_value intern find_id compile_segments compile_segment push_compiled checked_add
    validate_dynamic_limit sort_routes insert_route route_leb finish_router emit_routes
    emit_response emit_operations operation_words largest_response maximum_response_bytes
    gput.Router.Strings.get decimal_digits ilog10 ilog10_from fold_sizes fnv1a fnv_from
compile_router = refl

slot_512 : validate_gpu_response_slot compiled 512 ≡ ok tt
unfolding validate_gpu_response_slot get route new body_from push literal append_literal extend_last
    compile new_compiler compile_with compile_routes has_path validate_route_path compile_response
    validate_status validate_header_value intern find_id compile_segments compile_segment
    push_compiled checked_add validate_dynamic_limit sort_routes insert_route route_leb
    finish_router emit_routes emit_response emit_operations operation_words largest_response
    maximum_response_bytes gput.Router.Strings.get decimal_digits ilog10 ilog10_from fold_sizes
    fnv1a fnv_from
slot_512 = refl

route_request-fits_example :
    (response : Bytes) × (route_request compiled (codes "GET /b HTTP/1.1\r\n\r\n") gpu_name
      ≡ ok response)
    × (length response ≤ 512)
route_request-fits_example =
    route_request-fits router compiled (codes "GET /b HTTP/1.1\r\n\r\n") 512 compile_router slot_512
      (omega arith)

route_request-answer_example :
    route_request compiled (codes "GET /a HTTP/1.1\r\n\r\n") cpu_name
    ≡ ok (answer router (codes "GET /a HTTP/1.1\r\n\r\n") cpu_name)
route_request-answer_example =
    route_request-answer router compiled (codes "GET /a HTTP/1.1\r\n\r\n") cpu_name compile_router

with_router_router : with_router router ≡ ok (record { router = compiled })
unfolding with_router
with_router_router = rw compile_router refl

process_batch-answer_example :
    process_batch
      (record { router = compiled })
      (codes "GET /a HTTP/1.1\r\n\r\n" ∷ codes "PUT / HTTP/1.1\r\n" ∷ [])
    ≡ ok (
        map
          (λ request. answer router request cpu_name)
          (codes "GET /a HTTP/1.1\r\n\r\n" ∷ codes "PUT / HTTP/1.1\r\n" ∷ []))
process_batch-answer_example =
    process_batch-answer router (record { router = compiled })
      (codes "GET /a HTTP/1.1\r\n\r\n" ∷ codes "PUT / HTTP/1.1\r\n" ∷ []) with_router_router

parse_request-request_line_example :
    parse_request (
      (request_line (codes "/a") (some (codes "x?")) (version_text true) ++ 13 ∷ [])
      ++ 10 ∷ codes "Host: h")
    ≡ get_request (record { path = codes "/a"; query = codes "x?"; path_hash = fnv1a (codes "/a") })
parse_request-request_line_example =
    parse_request-request_line (codes "/a") (some (codes "x?")) true (codes "Host: h")
      (record {
        tail = codes "a";
        slash = refl;
        no_mark = (refl, (refl, tt));
        no_space = (refl, (refl, tt));
        no_break = (refl, (refl, tt));
      })
      ((refl, (refl, tt)), (refl, (refl, tt)))

abbrev parts : RequestParts
parts = record { path = codes "/a"; query = codes "q"; path_hash = 7 }

abbrev calls : List Call
calls =
    call_literal (codes "x")
    ∷ call_literal []
    ∷ call_literal (codes "y")
    ∷ call_path 1
    ∷ call_query 0
    ∷ call_variant (codes "c") (codes "g")
    ∷ []

body_bytes-build_example :
    body_bytes parts 3 cpu_name (build empty_body calls).segments
    ≡ body_bytes parts 3 cpu_name [] ++ body_bytes parts 3 cpu_name (map call_segment calls)
body_bytes-build_example = body_bytes-build parts 3 cpu_name empty_body calls

is_merged-build_example : is_merged (build empty_body calls).segments ≡ true
is_merged-build_example = is_merged-build empty_body calls refl

decimal_digits-HasDigits_example : (d : ℕ) × (decimal_digits 65535 ≡ ok d) × HasDigits 65535 d
decimal_digits-HasDigits_example = decimal_digits-HasDigits 65535 (omega arith)

abbrev route_a : CompiledRoute
route_a = record { path = codes "/a"; path_hash = fnv1a (codes "/a"); response = no_response }

abbrev route_b : CompiledRoute
route_b = record { path = codes "/b"; path_hash = fnv1a (codes "/b"); response = no_response }

abbrev parts_b : RequestParts
parts_b = record { path = codes "/b"; query = []; path_hash = fnv1a (codes "/b") }

a_then_b_Distinct : find_path (codes "/a") (route_b ∷ []) ≡ none
unfolding find_path
a_then_b_Distinct = refl

b_alone : find_path (codes "/b") [] ≡ none
unfolding find_path
b_alone = refl

find_route-sort_routes_example :
    find_route parts_b (sort_routes (route_a ∷ route_b ∷ []))
    ≡ find_path (codes "/b") (route_a ∷ route_b ∷ [])
find_route-sort_routes_example =
    find_route-sort_routes parts_b (route_a ∷ route_b ∷ []) refl (refl, (refl, tt))
      (a_then_b_Distinct, (b_alone, tt))
