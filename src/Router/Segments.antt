-- ===== src/Router/Segments.antt =====
-- `RouterCompiler` of src/router.rs up to the compiled responses: the checks, the segments and their
-- sizes.

use gput.Base.{
  ℕ, ◌+◌, ◌-◌, ◌^◌, max, Bool, false, not, ◌&&◌, ◌||◌, List, [], ◌∷◌, ◌++◌, ltb, leb, ◌==◌,
  if◌then◌else◌, length, Outcome, Error, ok, err, ◌>>=◌, ◌>>◌, ensure,
}
use gput.Base.Text.{codes, starts_with}
use gput.Base.{
  path_without_slash, path_with_query, path_with_control, path_length_not_u32,
  status_not_three_digits, header_value_empty, header_value_not_printable, limit_not_u32,
  body_size_overflow,
}
use gput.Router.Body.{
  Bytes, Status, BodySegment, literal_segment, path_segment, query_segment, backend_segment,
  request_bytes_segment, path_hash_segment, variant_segment, Response, is_empty,
}
use gput.Router.Strings.{StringTable, intern}

pub data CompiledSegment : Type 0 where
  literal_id path_limit query_limit : ℕ → CompiledSegment
  backend_name request_length hash_of_path : CompiledSegment
  variant_ids : ℕ → ℕ → CompiledSegment

pub record CompiledResponse : Type 0 where
  pub status : ℕ
  pub reason_string_id : ℕ
  pub content_type_string_id : ℕ
  pub segments : List CompiledSegment
  pub max_gpu_body_bytes : ℕ
  pub max_cpu_body_bytes : ℕ

abbrev pub any_byte : (ℕ → Bool) → Bytes → Bool
any_byte test [] = false
any_byte test (x ∷ xs) = test x || any_byte test xs

-- `u8::is_ascii_control`.
abbrev pub is_control : ℕ → Bool
is_control byte = ltb byte 32 || byte == 127

abbrev pub max_u32 : ℕ
max_u32 = 2 ^ 32 - 1

unfoldable pub validate_route_path : Bytes → Outcome (Unit {0})
validate_route_path path = do
  ensure (starts_with (codes "/") path) path_without_slash
  ensure (not (any_byte (λ b. b == b'?') path || any_byte (λ b. b == b'#') path)) path_with_query
  ensure (not (any_byte (λ b. is_control b || b == b' ') path)) path_with_control
  ensure (leb (length path) max_u32) path_length_not_u32

unfoldable pub validate_header_value : Bytes → Outcome (Unit {0})
validate_header_value value = do
  ensure (not (is_empty value)) header_value_empty
  ensure (not (any_byte (λ b. leb 128 b) value || any_byte is_control value))
      header_value_not_printable

unfoldable pub validate_status : Status → Outcome (Unit {0})
validate_status status = do
  ensure (leb 100 status.code && leb status.code 999) status_not_three_digits
  validate_header_value status.reason

unfoldable pub validate_dynamic_limit : ℕ → Outcome ℕ
validate_dynamic_limit max_bytes = do ensure (leb max_bytes max_u32) limit_not_u32; ok max_bytes

unfoldable pub checked_add : ℕ → ℕ → Error → Outcome ℕ
checked_add current value e = if ltb (current + value) (2 ^ 64) then ok (current + value) else err e

-- What the loop over the segments changes.
pub record Compiling : Type 0 where
  pub strings : StringTable
  pub segments : List CompiledSegment
  pub max_gpu_body_bytes : ℕ
  pub max_cpu_body_bytes : ℕ

-- A segment is pushed and both sizes grow.
unfoldable pub push_compiled : Compiling → CompiledSegment → ℕ → ℕ → Outcome Compiling
push_compiled state segment gpu_bytes cpu_bytes = do
  gpu ← checked_add state.max_gpu_body_bytes gpu_bytes body_size_overflow
  cpu ← checked_add state.max_cpu_body_bytes cpu_bytes body_size_overflow
  ok (record state {
    segments = state.segments ++ segment ∷ [];
    max_gpu_body_bytes = gpu;
    max_cpu_body_bytes = cpu;
  })

-- The loop's body, one clause for each arm.
unfoldable pub compile_segment : Compiling → BodySegment → Outcome Compiling
compile_segment state (literal_segment value) = intern state.strings value >>= λ found.
    push_compiled (record state { strings = found.1 }) (literal_id found.0) (length value)
      (length value)
compile_segment state (path_segment max_bytes) =
    validate_dynamic_limit max_bytes >>= λ limit. push_compiled state (path_limit limit) limit limit
compile_segment state (query_segment max_bytes) = validate_dynamic_limit max_bytes >>= λ limit.
    push_compiled state (query_limit limit) limit limit
compile_segment state backend_segment = push_compiled state backend_name 3 3
compile_segment state request_bytes_segment = push_compiled state request_length 10 20
compile_segment state path_hash_segment = push_compiled state hash_of_path 10 10
compile_segment state (variant_segment cpu gpu) = intern state.strings cpu >>= λ cpu_found.
    intern cpu_found.1 gpu >>= λ gpu_found.
    push_compiled (record state { strings = gpu_found.1 }) (variant_ids cpu_found.0 gpu_found.0)
      (length gpu) (max (length cpu) (length gpu))

unfoldable pub compile_segments : Compiling → List BodySegment → Outcome Compiling
compile_segments state [] = ok state
compile_segments state (segment ∷ segments) =
    compile_segment state segment >>= λ next. compile_segments next segments

unfoldable pub compile_response : StringTable → Response → Outcome (CompiledResponse × StringTable)
compile_response strings response = do
  validate_status response.status
  validate_header_value response.content_type
  reason ← intern strings response.status.reason
  content_type ← intern reason.1 response.content_type
  done ←
      compile_segments
        (record {
          strings = content_type.1;
          segments = [];
          max_gpu_body_bytes = 0;
          max_cpu_body_bytes = 0;
        })
        response.body.segments
  ok (
    record {
      status = response.status.code;
      reason_string_id = reason.0;
      content_type_string_id = content_type.0;
      segments = done.segments;
      max_gpu_body_bytes = done.max_gpu_body_bytes;
      max_cpu_body_bytes = done.max_cpu_body_bytes;
    },
    done.strings,
  )
