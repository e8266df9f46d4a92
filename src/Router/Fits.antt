-- ===== src/Router/Fits.antt =====
-- The responses that the GPU's router renders against the size that src/router.rs computes for them.

use gput.Base.{
  ℕ, ◌+◌, ◌^◌, ◌≤◌, ◌<◌, ◌≡◌, inl, inr, ap, ◌∙◌, List, [], ◌∷◌, arith, leb, length, All, ok, index,
  Bool-cases, length-append, test_of_ensure,
}
use gput.Base.Text.{bytes_eq}
use gput.Base.Yields
use gput.Base.{slot_below_response}
use gput.Router.Body.{Bytes, Response}
use gput.Router.Source.{Router}
use gput.Router.Decimal.{decimal, digit_count, length-decimal_le}
use gput.Router.Request.{
  fnv_step, fnv_from, fnv1a, RequestParts, RequestParse, get_request, bad_request_line,
  method_refused, parse_request, empty_parts,
}
use gput.Router.Segments.{CompiledResponse}
use gput.Router.Compile.{CompiledRoute, CompiledRouter, compile, validate_gpu_response_slot}
use gput.Router.Serve.{
  gpu_name, response_headers, build_response, find_path, response_or, route_request,
}
use gput.Router.Implements.{IsSmall, StandsFor}
use gput.Router.Meaning.{body_bytes, response_bytes, response_for, answer}
use gput.Router.Limits.{Within, Limited, maximum_response_bytes-sum}
use gput.Router.Parsing.{IsHashedParse, parse_request-IsHashedParse}
use gput.Router.Refines.{Serves, compile-Serves, route_request-answer}

fnv_from-lt : (hash : ℕ) (bytes : Bytes) → hash < 2 ^ 32 → fnv_from hash bytes < 2 ^ 32
unfolding fnv_from
fnv_from-lt hash [] h = h
fnv_from-lt hash (b ∷ bytes) h = fnv_from-lt (fnv_step hash b) bytes (omega arith)

fnv1a-lt : (bytes : Bytes) → fnv1a bytes < 2 ^ 32
unfolding fnv1a
fnv1a-lt bytes = fnv_from-lt 2_166_136_261 bytes (omega arith)

-- The header's length, for the backend of the GPU.
length-response_headers :
    (status : ℕ) (reason content_type : Bytes) (body_len : ℕ)
    → length (response_headers status reason content_type body_len gpu_name)
      ≡ 83
        + length (decimal status)
        + length reason
        + length content_type
        + length (decimal body_len)
unfolding response_headers
length-response_headers status reason content_type body_len = simp length-append (omega arith)

response_bytes-Within :
    (c : CompiledRouter) (compiled : CompiledResponse) (response : Response) (parts : RequestParts)
    (request_len : ℕ)
    → (limited : Limited c) → StandsFor c.strings compiled response
    → Within limited.table c.shader_string_ids c.max_gpu_response_bytes compiled
    → IsSmall parts request_len
    → length (response_bytes parts request_len gpu_name response) ≤ c.max_gpu_response_bytes
unfolding build_response
response_bytes-Within c compiled response parts request_len limited stands (k, computed, within)
      small =
    let body = body_bytes parts request_len gpu_name response.body.segments in
    let here = λ (id : ℕ) (v : Bytes) (h : index c.strings id ≡ ok v).
      ap (λ strings. index strings id) limited.same ∙ h in
    let sum =
      Yields.value k
        (maximum_response_bytes-sum limited.table c.shader_string_ids compiled
          response.status.reason response.content_type limited.names
          (here compiled.reason_string_id response.status.reason stands.reason)
          (here compiled.content_type_string_id response.content_type stands.content_type))
        computed in
    let fits = stands.body_bound parts request_len small in
    let headers =
      response_headers response.status.code response.status.reason response.content_type
        (length body) gpu_name in
    omega (
      arith,
      sum,
      within,
      fits,
      length-append headers body,
      length-response_headers response.status.code response.status.reason response.content_type
          (length body),
      length-decimal_le response.status.code response.status.code (omega arith),
      ap digit_count stands.same_status,
      length-decimal_le (length body) compiled.max_gpu_body_bytes fits,
    )

response_or-Within :
    (P : CompiledResponse → Type 0) (path : Bytes) (fallback : CompiledResponse)
    (routes : List CompiledRoute)
    → P fallback
    → All (λ (r : CompiledRoute). P r.response) routes
    → P (response_or fallback (find_path path routes))
unfolding find_path
response_or-Within P path fallback [] h k = h
response_or-Within P path fallback (r ∷ routes) h k = elim (Bool-cases (bytes_eq r.path path)) [
  | inl hit ↦ rw hit k.0
  | inr miss ↦ rw miss (response_or-Within P path fallback routes h k.1)
]

answer-Within :
    (source : Router) (c : CompiledRouter) (request : Bytes)
    → Serves source c
    → Limited c
    → length request < 2 ^ 32
    → length (answer source request gpu_name) ≤ c.max_gpu_response_bytes
unfolding answer
answer-Within source c request s limited small =
    let n = length request in
    let empty_small : IsSmall empty_parts n = record {
      small_hash = omega arith;
      small_len = small;
    } in
    elim (parse_request request)
        as (λ (parsed : RequestParse).
          IsHashedParse parsed
          → length (elim parsed [
            | get_request parts ↦
                response_bytes parts n gpu_name
                  (response_for parts.path source.fallback source.routes)
            | bad_request_line ↦ response_bytes empty_parts n gpu_name source.bad_request
            | method_refused ↦ response_bytes empty_parts n gpu_name source.method_not_allowed
          ])
            ≤ c.max_gpu_response_bytes) [
              | get_request parts ↦ λ hashed.
                  response_bytes-Within c (response_or c.fallback (find_path parts.path c.routes)) _
                    parts n limited (s.found parts.path)
                    (response_or-Within
                      (Within limited.table c.shader_string_ids c.max_gpu_response_bytes) parts.path
                      c.fallback c.routes limited.fallback_within limited.routes_within)
                    (record {
                      small_hash = omega (arith, hashed, fnv1a-lt parts.path);
                      small_len = small;
                    })
              | bad_request_line ↦ λ _.
                  response_bytes-Within c c.bad_request _ empty_parts n limited s.bad_request
                    limited.bad_request_within empty_small
              | method_refused ↦ λ _.
                  response_bytes-Within c c.method_not_allowed _ empty_parts n limited
                    s.method_not_allowed limited.method_within empty_small
            ]
      (parse_request-IsHashedParse request)

-- What a compiled router answers under the name of the GPU's backend, to any request whose length has
-- 32 bits, is no longer than the `max_gpu_response_bytes` that was computed for it; a slot that
-- `validate_gpu_response_slot` accepts holds every response.
pub route_request-fits :
    (source : Router) (c : CompiledRouter) (request : Bytes) (response_slot_bytes : ℕ)
    → compile source ≡ ok c
    → validate_gpu_response_slot c response_slot_bytes ≡ ok tt
    → length request < 2 ^ 32
    → (response : Bytes) × (route_request c request gpu_name ≡ ok response)
      × (length response ≤ response_slot_bytes)
unfolding validate_gpu_response_slot
route_request-fits source c request response_slot_bytes h slot small =
    let (s, limited) = Yields.value c (compile-Serves source) h in
    let within = answer-Within source c request s limited small in
    let accepted =
      test_of_ensure (leb c.max_gpu_response_bytes response_slot_bytes) slot_below_response slot in
    (
      answer source request gpu_name,
      route_request-answer source c request gpu_name h,
      ground (arith, within, accepted),
    )
