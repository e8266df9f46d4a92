-- ===== src/Network/Tests.antt =====
-- Runs of the connection's code on small inputs, and the theorems on them.

use gput.Base.{ℕ, ◌≡◌, ◌↔◌, refl, true, none, some, List, [], ◌∷◌, ◌++◌, arith, length, All}
use gput.Base.Text.{codes, find_window}
use gput.Router.Body.{Bytes}
use gput.Network.Framing.{
  received, request, failed, too_large, complete_header_len, read_raw_request,
}
use gput.Network.Close.{connection_should_close}
use gput.Network.Connection.{Submitted, Socket, responded, shut_down, handle_connection}
use gput.Network.Whole.{reads_of}
use gput.Network.Chunks.{
  Cut, StreamEnds, read_raw_request-request, read_raw_request-too_large, read_raw_request-at_end,
}
use gput.Network.Pipeline.{replies, handle_connection-replies}
use gput.Network.Headers.{Header, IsHeader, request_text}
use gput.Network.Closing.{AsksToClose, connection_should_close-AsksToClose}

abbrev get_x : Bytes
get_x = codes "G x\r\n\r\n"

abbrev get_y : Bytes
get_y = codes "G y HTTP/1.1\r\n\r\n"

get_x_whole : complete_header_len get_x ≡ some (length get_x)
unfolding complete_header_len find_window
get_x_whole = refl

get_y_whole : complete_header_len get_y ≡ some (length get_y)
unfolding complete_header_len find_window
get_y_whole = refl

read_raw_request-request_example :
    Cut
      (request get_x)
      (codes "G")
      []
      (read_raw_request 64 (codes "G x") (reads_of (codes "\r\n" ∷ codes "\r\nG" ∷ []) ++ []))
read_raw_request-request_example =
    read_raw_request-request 64 (codes "G x") (codes "\r\n" ∷ codes "\r\nG" ∷ []) [] get_x
      (codes "G") (refl, (refl, tt)) get_x_whole (omega arith) refl

no_end_G : complete_header_len (codes "G x") ≡ none
unfolding complete_header_len find_window
no_end_G = refl

read_raw_request-too_large_example :
    (read_raw_request 3 (codes "G ") (reads_of (codes "xy" ∷ []) ++ [])).framed ≡ failed too_large
read_raw_request-too_large_example =
    read_raw_request-too_large 3 (codes "G ") (codes "xy" ∷ []) [] (refl, tt) (omega arith) no_end_G

read_raw_request-at_end_example :
    StreamEnds
      (codes "G x")
      (read_raw_request 9 (codes "G ") (reads_of (codes "x" ∷ []) ++ received [] ∷ [])).framed
read_raw_request-at_end_example =
    read_raw_request-at_end 9 (codes "G ") (codes "x" ∷ []) [] (refl, tt) (omega arith) no_end_G

abbrev echo : ℕ → Bytes → Submitted
echo k r = responded (k ∷ r)

abbrev socket : Socket
socket = record {
  set_nodelay_succeeds = true;
  write_succeeds = λ _. true;
  shutdown_succeeds = true;
}

handle_connection-replies_example :
    handle_connection echo socket 3 64 (
      reads_of (codes "G y" ∷ codes " HTTP/1.1\r\n\r\nG x" ∷ codes "\r\n\r\n" ∷ [])
      ++ received [] ∷ [])
    ≡ record { written = replies echo socket 64 0 (get_y ∷ get_x ∷ []); ending = shut_down }
handle_connection-replies_example =
    handle_connection-replies echo socket 64
      (codes "G y" ∷ codes " HTTP/1.1\r\n\r\nG x" ∷ codes "\r\n\r\n" ∷ []) (get_y ∷ get_x ∷ [])
      (omega arith) refl (λ k. refl)
      (
        record { whole = get_y_whole; fits = omega arith },
        (record { whole = get_x_whole; fits = omega arith }, tt),
      )
      (refl, (refl, (refl, tt))) refl

abbrev host_header : Header
host_header = record { name = codes "Host"; first = codes " x"; others = [] }

abbrev close_header : Header
close_header = record {
  name = codes " CONNECTION";
  first = codes " Upgrade";
  others = codes "\tClose " ∷ [];
}

abbrev headers : List Header
headers = host_header ∷ close_header ∷ []

headers-IsHeader : All IsHeader headers
headers-IsHeader = (
  record {
    no_colon = ground arith;
    name_line = ground arith;
    no_comma = ground arith;
    parts_line = ground arith;
  },
  (
    record {
      no_colon = ground arith;
      name_line = ground arith;
      no_comma = ground arith;
      parts_line = ground arith;
    },
    tt,
  ),
)

connection_should_close-AsksToClose_example :
    (connection_should_close (request_text (codes "GET /") headers) ≡ true) ↔ AsksToClose headers
connection_should_close-AsksToClose_example =
    connection_should_close-AsksToClose (codes "GET /") headers (ground arith) (ground arith)
      headers-IsHeader
