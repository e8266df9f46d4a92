-- ===== src/Router/Request.antt =====
-- `parse_request` and `fnv1a` of src/router.rs.

use gput.Base.{
  ℕ, suc, ◌+◌, bit_xor, not, ◌&&◌, Option, none, some, List, [], ◌∷◌, ◌==◌, if◌then◌else◌, take,
  drop,
}
use gput.Base.Text.{codes, bytes_eq, starts_with, split_on}
use mathlib.Core.Option
use gput.Packet.Wire.Header.{mul_u32}
use gput.Router.Body.{Bytes, is_empty}

abbrev pub fnv_step : ℕ → ℕ → ℕ
fnv_step hash byte = mul_u32 (bit_xor hash byte) 16_777_619

unfoldable pub fnv_from : ℕ → Bytes → ℕ
fnv_from hash [] = hash
fnv_from hash (byte ∷ bytes) = fnv_from (fnv_step hash byte) bytes

unfoldable pub fnv1a : Bytes → ℕ
fnv1a bytes = fnv_from 2_166_136_261 bytes

pub record RequestParts : Type 0 where
  pub path : Bytes
  pub query : Bytes
  pub path_hash : ℕ

abbrev pub empty_parts : RequestParts
empty_parts = record { path = []; query = []; path_hash = 0 }

pub data RequestParse : Type 0 where
  get_request : RequestParts → RequestParse
  bad_request_line method_refused : RequestParse

-- `xs.iter().position(|byte| *byte == b)`.
unfoldable pub position : ℕ → Bytes → Option ℕ
position b [] = none
position b (x ∷ xs) = let rest = Option.map suc (position b xs) in if x == b then some 0 else rest

-- `xs.strip_suffix(&[b]).unwrap_or(xs)`.
unfoldable pub strip_last : ℕ → Bytes → Bytes
strip_last b [] = []
strip_last b (x ∷ []) = if x == b then [] else x ∷ []
strip_last b (x ∷ y ∷ xs) = x ∷ strip_last b (y ∷ xs)

-- The target at its first `?`.
unfoldable pub split_target : Bytes → Bytes × Bytes
split_target target = elim (position b'?' target) [
  | none ↦ (target, [])
  | some query_mark ↦ (take query_mark target, drop (query_mark + 1) target)
]

unfoldable pub parse_target : Bytes → RequestParse
parse_target target =
    let (path, query) = split_target target in
    if is_empty path
    then bad_request_line
    else get_request (record { path = path; query = query; path_hash = fnv1a path })

-- The tests on the parts of the request line.
unfoldable pub parse_line : List Bytes → RequestParse
parse_line (method ∷ target ∷ version ∷ []) =
    if not (bytes_eq method (codes "GET"))
    then method_refused
    else if not (bytes_eq version (codes "HTTP/1.1")) && not (bytes_eq version (codes "HTTP/1.0"))
    then bad_request_line
    else if not (starts_with (codes "/") target)
    then bad_request_line
    else parse_target target
parse_line _ = bad_request_line

unfoldable pub parse_request : Bytes → RequestParse
parse_request request = elim (position b'\n' request) [
  | none ↦ bad_request_line
  | some line_end ↦ parse_line (split_on b' ' (strip_last b'\r' (take line_end request)))
]
