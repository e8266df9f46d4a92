-- ===== src/Network/Framing.antt =====
-- `read_raw_request` and `complete_header_len` of src/network.rs. The stream is the list of what its
-- reads return.

use gput.Base.{
  ℕ, ◌+◌, Option, none, some, List, [], ◌∷◌, ◌++◌, ltb, leb, if◌then◌else◌, length, take, drop,
}
use gput.Base.Text.{find_window}
use mathlib.Core.Option
use gput.Router.Body.{Bytes, is_empty}

abbrev pub header_terminator : Bytes
header_terminator = 13 ∷ 10 ∷ 13 ∷ 10 ∷ []

-- One read of the stream: at most 1024 bytes, none at the end of the stream; or an error; or no
-- answer before the timeout of the whole call.
pub data Read : Type 0 where
  received : Bytes → Read
  io_failed timed_out : Read

pub data ReadRequestError : Type 0 where
  io_error too_large incomplete : ReadRequestError

-- How the call ends: with a request, at a closed stream, with an error, at the timeout, or not yet.
pub data Framed : Type 0 where
  request : Bytes → Framed
  closed : Framed
  failed : ReadRequestError → Framed
  elapsed waiting : Framed

-- The end, the bytes that stay pending and the reads that are left.
pub record Reading : Type 0 where
  pub framed : Framed
  pub pending : Bytes
  pub reads : List Read

unfoldable pub complete_header_len : Bytes → Option ℕ
complete_header_len bytes =
    Option.map (λ position. position + length header_terminator)
      (find_window header_terminator bytes)

-- What the pending bytes decide before a read: the end, and the bytes left pending.
unfoldable pub settled : ℕ → Bytes → Option (Framed × Bytes)
settled max_request_bytes pending = elim (complete_header_len pending) [
  | some header_len ↦
      if ltb max_request_bytes header_len
      then some (failed too_large, pending)
      else some (request (take header_len pending), drop header_len pending)
  | none ↦ if leb max_request_bytes (length pending) then some (failed too_large, pending) else none
]

-- The end of the stream.
unfoldable pub at_end : Bytes → Framed
at_end pending = if is_empty pending then closed else failed incomplete

unfoldable pub read_raw_request : ℕ → Bytes → List Read → Reading
read_raw_request max_request_bytes pending [] = elim (settled max_request_bytes pending) [
  | some (framed, left) ↦ record { framed = framed; pending = left; reads = [] }
  | none ↦ record { framed = waiting; pending = pending; reads = [] }
]
read_raw_request max_request_bytes pending (r ∷ reads) = elim (settled max_request_bytes pending) [
  | some (framed, left) ↦ record { framed = framed; pending = left; reads = r ∷ reads }
  | none ↦ elim r [
    | received [] ↦ record { framed = at_end pending; pending = pending; reads = reads }
    | received (b ∷ chunk) ↦ read_raw_request max_request_bytes (pending ++ b ∷ chunk) reads
    | io_failed ↦ record { framed = failed io_error; pending = pending; reads = reads }
    | timed_out ↦ record { framed = elapsed; pending = pending; reads = reads }
  ]
]
