-- ===== src/Packet/Http.antt =====
-- The HTTP of src/packet/mod.rs: the fixed responses and the request classifier.

use gput.Base.{
  ℕ, ◌+◌, max, not, ◌&&◌, ◌||◌, none, some, List, [], ◌∷◌, if◌then◌else◌, length, take, get_or,
  get_elem?,
}
use gput.Base.Text.{codes, bytes_eq, find_window, split_on}

abbrev pub response_plaintext : ℕ
response_plaintext = 0

abbrev pub response_health : ℕ
response_health = 1

abbrev pub response_bad_request : ℕ
response_bad_request = 2

abbrev pub response_not_found : ℕ
response_not_found = 3

abbrev pub response_method_not_allowed : ℕ
response_method_not_allowed = 4

unfoldable pub packet_responses : List (List ℕ)
packet_responses =
    codes
      "HTTP/1.1 200 OK\r\nContent-Type: text/plain\r\nContent-Length: 14\r\nConnection: keep-alive\r\nX-Gput-Backend: gpu-packet\r\n\r\nHello, World!\n"
    ∷ codes
        "HTTP/1.1 200 OK\r\nContent-Type: text/plain\r\nContent-Length: 3\r\nConnection: keep-alive\r\nX-Gput-Backend: gpu-packet\r\n\r\nok\n"
    ∷ codes
        "HTTP/1.1 400 Bad Request\r\nContent-Type: text/plain\r\nContent-Length: 12\r\nConnection: keep-alive\r\nX-Gput-Backend: gpu-packet\r\n\r\nbad request\n"
    ∷ codes
        "HTTP/1.1 404 Not Found\r\nContent-Type: text/plain\r\nContent-Length: 10\r\nConnection: keep-alive\r\nX-Gput-Backend: gpu-packet\r\n\r\nnot found\n"
    ∷ codes
        "HTTP/1.1 405 Method Not Allowed\r\nContent-Type: text/plain\r\nContent-Length: 19\r\nConnection: keep-alive\r\nX-Gput-Backend: gpu-packet\r\n\r\nmethod not allowed\n"
    ∷ []

-- `responses.get(id)`, or the response to a bad request.
abbrev pub response_or_bad : List (List ℕ) → ℕ → List ℕ
response_or_bad responses id = elim (get_elem? responses id) [
  | some response ↦ response
  | none ↦ get_or responses response_bad_request []
]

unfoldable pub packet_response : ℕ → List ℕ
packet_response response_id = response_or_bad packet_responses response_id

unfoldable pub max_length : List (List ℕ) → ℕ
max_length [] = 0
max_length (response ∷ responses) = max (length response) (max_length responses)

unfoldable pub max_response_packet_bytes : ℕ
max_response_packet_bytes = 40 + max_length packet_responses

-- `target.split(|byte| *byte == b'?').next().unwrap_or(target)`.
abbrev pub first_part : List (List ℕ) → List ℕ → List ℕ
first_part [] target = target
first_part (part ∷ parts) target = part

unfoldable pub classify_path : List ℕ → ℕ
classify_path path =
    if bytes_eq path (codes "/plaintext")
    then response_plaintext
    else if bytes_eq path (codes "/health")
    then response_health
    else response_not_found

-- The tests on the three parts of a request line.
unfoldable pub classify_line : List (List ℕ) → ℕ
classify_line (method ∷ target ∷ version ∷ []) =
    if bytes_eq target []
      || (not (bytes_eq version (codes "HTTP/1.1")) && not (bytes_eq version (codes "HTTP/1.0")))
    then response_bad_request
    else if not (bytes_eq method (codes "GET"))
    then response_method_not_allowed
    else classify_path (first_part (split_on b'?' target) target)
classify_line _ = response_bad_request

unfoldable pub classify_http_request : List ℕ → ℕ
classify_http_request payload = elim (find_window (13 ∷ 10 ∷ []) payload) [
  | none ↦ response_bad_request
  | some line_end ↦ classify_line (split_on b' ' (take line_end payload))
]
