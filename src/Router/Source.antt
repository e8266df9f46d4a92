-- ===== src/Router/Source.antt =====
-- `Router` of src/router.rs and the built-in routes, with the bodies of src/protocol.rs.

use gput.Base.{List, [], ◌∷◌, ◌++◌}
use gput.Base.Text.{codes}
use gput.Router.Body.{
  Bytes, status_bad_request, status_not_found, status_method_not_allowed, Body, empty_body, push,
  path, query, backend, request_bytes, path_hash, backend_variant, body_from, Response, text, json,
  with_status,
}

abbrev pub gpu_root_body : Bytes
gpu_root_body =
    codes
      "{\"name\":\"gput\",\"backend\":\"gpu\",\"message\":\"GET dispatched through a compute shader\"}\n"

abbrev pub cpu_root_body : Bytes
cpu_root_body =
    codes
      "{\"name\":\"gput\",\"backend\":\"cpu\",\"message\":\"GET handled by the CPU baseline\"}\n"

abbrev pub health_body : Bytes
health_body = codes "ok\n"

abbrev pub gpu_hello_body : Bytes
gpu_hello_body = codes "hello from a compute shader\n"

abbrev pub cpu_hello_body : Bytes
cpu_hello_body = codes "hello from the CPU baseline\n"

abbrev pub not_found_body : Bytes
not_found_body = codes "not found\n"

abbrev pub bad_request_body : Bytes
bad_request_body = codes "bad request\n"

abbrev pub method_not_allowed_body : Bytes
method_not_allowed_body = codes "method not allowed\n"

-- In UTF-8, what is not ASCII by its bytes.
abbrev pub utf8_body : Bytes
utf8_body =
    codes "r"
    ++ (195
        ∷ 164
        ∷ (codes "ksm"
            ++ (195
                ∷ 182
                ∷ (codes "rg"
                    ++ (195
                        ∷ 165
                        ∷ (codes "s kostar "
                            ++ (226
                                ∷ 130
                                ∷ 172
                                ∷ (codes "5, h"
                                    ++ (195
                                        ∷ 164
                                        ∷ (codes "lsar UTF-8-ugglan "
                                            ++ (240 ∷ 159 ∷ 166 ∷ 137 ∷ 240 ∷ 159 ∷ 166 ∷ 128 ∷ 10
                                                ∷ [])))))))))))

pub record MethodRouter : Type 0 where
  pub get_response : Response

pub record RouteDefinition : Type 0 where
  pub route_path : Bytes
  pub response : Response

pub record Router : Type 0 where
  pub routes : List RouteDefinition
  pub fallback : Response
  pub bad_request : Response
  pub method_not_allowed : Response

-- `routing::get`.
abbrev pub method_get : Response → MethodRouter
method_get response = record { get_response = response }

unfoldable pub new : Router
new = record {
  routes = [];
  fallback = with_status (text (body_from not_found_body)) status_not_found;
  bad_request = with_status (text (body_from bad_request_body)) status_bad_request;
  method_not_allowed =
      with_status (text (body_from method_not_allowed_body)) status_method_not_allowed;
}

unfoldable pub route : Router → Bytes → MethodRouter → Router
route router path method_router = record router {
  routes =
      router.routes ++ record { route_path = path; response = method_router.get_response } ∷ [];
}

unfoldable pub get : Router → Bytes → Response → Router
get router path response = route router path (method_get response)

abbrev pub with_fallback : Router → Response → Router
with_fallback router response = record router { fallback = response }

abbrev pub with_bad_request : Router → Response → Router
with_bad_request router response = record router { bad_request = response }

abbrev pub with_method_not_allowed : Router → Response → Router
with_method_not_allowed router response = record router { method_not_allowed = response }

-- The body of `/inspect`.
unfoldable pub inspect_body : Body
inspect_body =
    let b₁ = path (push empty_body (codes "path=")) 48 in
    let b₂ = query (push b₁ (codes "\nquery=")) 48 in
    let b₃ = request_bytes (push b₂ (codes "\nrequest_bytes=")) in
    let b₄ = path_hash (push b₃ (codes "\npath_hash=")) in
    let b₅ = backend (push b₄ (codes "\nbackend=")) in push b₅ (codes "\n")

unfoldable pub builtin_router : Router
builtin_router =
    let root = json (backend_variant empty_body cpu_root_body gpu_root_body) in
    let hello = text (backend_variant empty_body cpu_hello_body gpu_hello_body) in
    let r₁ = route new (codes "/") (method_get root) in
    let r₂ = route r₁ (codes "/health") (method_get (text (body_from health_body))) in
    let r₃ = route r₂ (codes "/hello") (method_get hello) in
    let r₄ = route r₃ (codes "/utf8") (method_get (text (body_from utf8_body))) in
    route r₄ (codes "/inspect") (method_get (text inspect_body))
