-- ===== src/Router/Emit.antt =====
-- The words of a compiled router, src/router.rs: `emit_response` and the size of a GPU response.

use gput.Base.{
  ℕ, ◌^◌, List, [], ◌∷◌, ◌++◌, ltb, if◌then◌else◌, length, Outcome, Error, ok, err, ◌>>=◌,
}
use gput.Base.{
  limit_not_u32, router_offset_not_u32, program_offset_overflow, program_offset_not_u32,
  operation_count_not_u32, response_header_overflow, response_size_overflow,
}
use gput.Router.Decimal.{decimal_digits}
use gput.Router.Strings.{StringTable, get}
use gput.Router.Segments.{
  CompiledSegment, literal_id, path_limit, query_limit, backend_name, request_length, hash_of_path,
  variant_ids, CompiledResponse, checked_add,
}

abbrev pub route_stride_words : ℕ
route_stride_words = 4

abbrev pub response_descriptor_words : ℕ
response_descriptor_words = 5

abbrev pub body_op_words : ℕ
body_op_words = 3

abbrev pub body_op_literal : ℕ
body_op_literal = 0

abbrev pub body_op_path : ℕ
body_op_path = 1

abbrev pub body_op_query : ℕ
body_op_query = 2

abbrev pub body_op_backend : ℕ
body_op_backend = 3

abbrev pub body_op_request_bytes : ℕ
body_op_request_bytes = 4

abbrev pub body_op_path_hash : ℕ
body_op_path_hash = 5

abbrev pub body_op_backend_variant : ℕ
body_op_backend_variant = 6

-- `u32::try_from(..).context(..)`.
abbrev pub try_u32 : ℕ → Error → Outcome ℕ
try_u32 n e = if ltb n (2 ^ 32) then ok n else err e

abbrev pub triple : ℕ → ℕ → ℕ → List ℕ
triple a b c = a ∷ b ∷ c ∷ []

unfoldable pub operation_words : CompiledSegment → Outcome (List ℕ)
operation_words (literal_id id) = ok (triple body_op_literal id 0)
operation_words (path_limit max_bytes) =
    try_u32 max_bytes limit_not_u32 >>= λ limit. ok (triple body_op_path limit 0)
operation_words (query_limit max_bytes) =
    try_u32 max_bytes limit_not_u32 >>= λ limit. ok (triple body_op_query limit 0)
operation_words backend_name = ok (triple body_op_backend 0 0)
operation_words request_length = ok (triple body_op_request_bytes 0 0)
operation_words hash_of_path = ok (triple body_op_path_hash 0 0)
operation_words (variant_ids cpu gpu) = ok (triple body_op_backend_variant cpu gpu)

unfoldable pub emit_operations : List ℕ → List CompiledSegment → Outcome (List ℕ)
emit_operations words [] = ok words
emit_operations words (segment ∷ segments) =
    operation_words segment >>= λ operation. emit_operations (words ++ operation) segments

abbrev pub descriptor_words : CompiledResponse → ℕ → ℕ → List ℕ
descriptor_words response program_offset operation_count =
    response.status ∷ response.reason_string_id ∷ response.content_type_string_id ∷ program_offset
    ∷ operation_count ∷ []

-- The offset of the response, and the words with it at their end.
unfoldable pub emit_response : List ℕ → CompiledResponse → Outcome (ℕ × List ℕ)
emit_response words response = do
  response_offset ← try_u32 (length words) router_offset_not_u32
  program ← checked_add (length words) response_descriptor_words program_offset_overflow
  program_offset ← try_u32 program program_offset_not_u32
  operation_count ← try_u32 (length response.segments) operation_count_not_u32
  emitted ←
      emit_operations (words ++ descriptor_words response program_offset operation_count)
        response.segments
  ok (response_offset, emitted)

pub record ShaderStringIds : Type 0 where
  pub http_version : ℕ
  pub header_content_type : ℕ
  pub header_content_length : ℕ
  pub header_tail : ℕ
  pub backend_gpu : ℕ

-- A term of the header's size: the length of a string of the table.
abbrev pub add_string : StringTable → ℕ → ℕ → Outcome ℕ
add_string strings bytes id =
    get strings id >>= λ value. checked_add bytes (length value) response_header_overflow

unfoldable pub maximum_response_bytes : StringTable → ShaderStringIds → CompiledResponse → Outcome ℕ
maximum_response_bytes strings ids response = do
  version ← get strings ids.http_version
  status_digits ← decimal_digits response.status
  b₁ ← checked_add (length version) status_digits response_header_overflow
  b₂ ← checked_add b₁ 1 response_header_overflow
  b₃ ← add_string strings b₂ response.reason_string_id
  b₄ ← add_string strings b₃ ids.header_content_type
  b₅ ← add_string strings b₄ response.content_type_string_id
  b₆ ← add_string strings b₅ ids.header_content_length
  body_digits ← decimal_digits response.max_gpu_body_bytes
  b₇ ← checked_add b₆ body_digits response_header_overflow
  header_bytes ← add_string strings b₇ ids.header_tail
  checked_add header_bytes response.max_gpu_body_bytes response_size_overflow
