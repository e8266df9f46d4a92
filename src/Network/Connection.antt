-- ===== src/Network/Connection.antt =====
-- `handle_connection` of src/network.rs. The batcher is a parameter, its answer to each request of the
-- connection, and so is the socket: whether its calls succeed.

use gput.Base.{ℕ, zero, suc, ◌+◌, Bool, true, false, List, [], ◌∷◌, if◌then◌else◌}
use gput.Router.Body.{Bytes, is_empty}
use gput.Router.Serve.{
  request_timeout_response, payload_too_large_response, service_unavailable_response,
  internal_server_error_response, incomplete_request_response,
}
use gput.Network.Framing.{
  Read, request, closed, failed, elapsed, waiting, io_error, too_large, incomplete,
  read_raw_request,
}
use gput.Network.Close.{connection_should_close}

-- What `BatcherHandle::submit` returns.
pub data Submitted : Type 0 where
  responded : Bytes → Submitted
  overloaded stopped processing_failed : Submitted

-- Whether `set_nodelay`, the write of each reply and the one `shutdown` at the end succeed.
pub record Socket : Type 0 where
  pub set_nodelay_succeeds : Bool
  pub write_succeeds : ℕ → Bool
  pub shutdown_succeeds : Bool

-- How the function ends, or that it waits for the next read.
pub data Ending : Type 0 where
  shut_down nodelay_failed read_failed write_failed shutdown_failed still_open out_of_fuel : Ending

pub record Connection : Type 0 where
  pub written : List Bytes
  pub ending : Ending

-- The bytes that are written for the batcher's answer.
unfoldable pub reply : Submitted → Bytes
reply (responded response) = response
reply overloaded = service_unavailable_response
reply stopped = internal_server_error_response
reply processing_failed = internal_server_error_response

abbrev pub ended : Ending → Connection
ended ending = record { written = []; ending = ending }

-- `stream.shutdown().await?`, and the return behind it.
abbrev pub shutdown : Socket → Ending
shutdown socket = if socket.shutdown_succeeds then shut_down else shutdown_failed

-- `write_and_close`, as the reply number `served`.
unfoldable pub write_and_close : Socket → ℕ → Bytes → Connection
write_and_close socket served response =
    if socket.write_succeeds served
    then (record { written = response ∷ []; ending = shutdown socket })
    else ended write_failed

abbrev pub after_write : Bytes → Connection → Connection
after_write response c = record { written = response ∷ c.written; ending = c.ending }

module _ (submit : ℕ → Bytes → Submitted) (socket : Socket) where
  -- The loop, from the request number `served` on.
  unfoldable pub serve_requests : ℕ → ℕ → ℕ → Bytes → List Read → Connection
  serve_requests zero max_request_bytes served pending reads = ended out_of_fuel
  serve_requests (suc fuel) max_request_bytes served pending reads =
      let reading = read_raw_request max_request_bytes pending reads in
      elim reading.framed [
        | elapsed ↦
            if is_empty reading.pending
            then ended (shutdown socket)
            else write_and_close socket served request_timeout_response
        | failed too_large ↦ write_and_close socket served payload_too_large_response
        | failed incomplete ↦ write_and_close socket served incomplete_request_response
        | failed io_error ↦ ended read_failed
        | closed ↦ ended (shutdown socket)
        | waiting ↦ ended still_open
        | request r ↦
            let response = reply (submit served r) in
            elim (socket.write_succeeds served) [
              | false ↦ ended write_failed
              | true ↦ elim (connection_should_close r) [
                | true ↦ record { written = response ∷ []; ending = shutdown socket }
                | false ↦ after_write response (
                    serve_requests fuel max_request_bytes (served + 1) reading.pending
                      reading.reads)
              ]
            ]
      ]

  unfoldable pub handle_connection : ℕ → ℕ → List Read → Connection
  handle_connection fuel max_request_bytes reads =
      if socket.set_nodelay_succeeds
      then serve_requests fuel max_request_bytes 0 [] reads
      else ended nodelay_failed
