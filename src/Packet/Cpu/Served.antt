-- ===== src/Packet/Cpu/Served.antt =====
-- What a request line is answered with: `classify_http_request` of src/packet/mod.rs and the
-- responses of src/packet/cpu.rs.

use gput.Base.{
  ℕ, ◌≡◌, ◌≢◌, ◌⊎◌, inl, inr, refl, sym, ap, ◌∙◌, true, false, not, ◌&&◌, Option, none, some, List,
  [], ◌∷◌, ◌++◌, Bool-cases, take-append_left,
}
use gput.Base.Text.{codes, bytes_eq, bytes_eq_iff, find_window, split_on, overwrite}
use gput.Packet.Http.{
  packet_responses, first_part, classify_path, classify_line, classify_http_request,
}
use gput.Packet.Cpu.{patch_response, cpu_response}
use gput.Router.Parsing.{target_of}
use gput.Router.Scanning.{Without, find_crlf, split_on-Without, split_on-append}

-- A request line, its target as a path and a query, if there is one.
pub record Line : Type 0 where
  pub method : List ℕ
  pub path : List ℕ
  pub query : Option (List ℕ)
  pub version : List ℕ

abbrev pub target : Line → List ℕ
target line = target_of line.path line.query

abbrev pub line_text : Line → List ℕ
line_text line = line.method ++ b' ' ∷ (target line ++ b' ' ∷ line.version)

-- The parts are cut at the spaces, and the path at the first question mark.
pub record IsLine (line : Line) : Type 0 where
  pub method_word : Without b' ' line.method
  pub target_word : Without b' ' (target line)
  pub version_word : Without b' ' line.version
  pub no_mark : Without b'?' line.path
  pub no_return : Without 13 (line_text line)

abbrev IsVersion : List ℕ → Type 0
IsVersion version = (version ≡ codes "HTTP/1.1") ⊎ (version ≡ codes "HTTP/1.0")

abbrev NoVersion : List ℕ → Type 0
NoVersion version = (version ≢ codes "HTTP/1.1") × (version ≢ codes "HTTP/1.0")

-- The response to each request line, byte for byte.
pub data Responds (line : Line) : List ℕ → Type 0 where
  plaintext :
      target line ≢ []
      → IsVersion line.version
      → line.method ≡ codes "GET"
      → line.path ≡ codes "/plaintext"
      → Responds line (
          codes
            "HTTP/1.1 200 OK\r\nContent-Type: text/plain\r\nContent-Length: 14\r\nConnection: keep-alive\r\nX-Gput-Backend: cpu-packet\r\n\r\nHello, World!\n")
  health :
      target line ≢ []
      → IsVersion line.version
      → line.method ≡ codes "GET"
      → line.path ≡ codes "/health"
      → Responds line (
          codes
            "HTTP/1.1 200 OK\r\nContent-Type: text/plain\r\nContent-Length: 3\r\nConnection: keep-alive\r\nX-Gput-Backend: cpu-packet\r\n\r\nok\n")
  bad_request :
      (target line ≡ []) ⊎ NoVersion line.version
      → Responds line (
          codes
            "HTTP/1.1 400 Bad Request\r\nContent-Type: text/plain\r\nContent-Length: 12\r\nConnection: keep-alive\r\nX-Gput-Backend: cpu-packet\r\n\r\nbad request\n")
  not_found :
      target line ≢ []
      → IsVersion line.version
      → line.method ≡ codes "GET"
      → line.path ≢ codes "/plaintext"
      → line.path ≢ codes "/health"
      → Responds line (
          codes
            "HTTP/1.1 404 Not Found\r\nContent-Type: text/plain\r\nContent-Length: 10\r\nConnection: keep-alive\r\nX-Gput-Backend: cpu-packet\r\n\r\nnot found\n")
  method_not_allowed :
      target line ≢ []
      → IsVersion line.version
      → line.method ≢ codes "GET"
      → Responds line (
          codes
            "HTTP/1.1 405 Method Not Allowed\r\nContent-Type: text/plain\r\nContent-Length: 19\r\nConnection: keep-alive\r\nX-Gput-Backend: cpu-packet\r\n\r\nmethod not allowed\n")

-- Both answers of a comparison of bytes, with what they say.
bytes_eq-cases :
    (xs ys : List ℕ)
    → ((bytes_eq xs ys ≡ true) × (xs ≡ ys)) ⊎ ((bytes_eq xs ys ≡ false) × (xs ≢ ys))
bytes_eq-cases xs ys = elim (Bool-cases (bytes_eq xs ys)) [
  | inl e ↦ inl (e, (bytes_eq_iff xs ys).0 e)
  | inr e ↦ inr (e, λ same. let w = sym e ∙ (bytes_eq_iff xs ys).1 same in cc)
]

module _ (line : Line) where
  abbrev Served : ℕ → Type 0
  Served id = Responds line (cpu_response id)

  path-Served :
      target line ≢ []
      → IsVersion line.version
      → line.method ≡ codes "GET"
      → Served (classify_path line.path)
  unfolding classify_path cpu_response patch_response packet_responses find_window overwrite
  path-Served t v m = elim (bytes_eq-cases line.path (codes "/plaintext")) [
    | inl (e, same) ↦ rw (e, classify_path) (plaintext t v m same)
    | inr (e, other) ↦ elim (bytes_eq-cases line.path (codes "/health")) [
      | inl (e', same) ↦ rw (e, classify_path, e') (health t v m same)
      | inr (e', other') ↦ rw (e, classify_path, e') (not_found t v m other other')
    ]
  ]

  first_part-target :
      Without b'?' line.path → first_part (split_on b'?' (target line)) (target line) ≡ line.path
  first_part-target h = of_query line.query
    where
      of_query :
          (query : Option (List ℕ))
          → first_part (split_on b'?' (target_of line.path query)) (target_of line.path query)
            ≡ line.path
      of_query none = rw (split_on-Without b'?' line.path h) refl
      of_query (some query) = rw (split_on-append b'?' line.path query h) refl

  abbrev parts : List (List ℕ)
  parts = line.method ∷ target line ∷ line.version ∷ []

  version-Served :
      Without b'?' line.path
      → target line ≢ []
      → bytes_eq (target line) [] ≡ false
      → IsVersion line.version
      → not (bytes_eq line.version (codes "HTTP/1.1"))
          && not (bytes_eq line.version (codes "HTTP/1.0"))
        ≡ false
      → Served (classify_line parts)
  unfolding classify_line cpu_response patch_response packet_responses find_window overwrite
  version-Served h t e v ok_version = elim (bytes_eq-cases line.method (codes "GET")) [
    | inl (get, same) ↦
        rw (e, classify_line, ok_version, get, first_part-target h) (path-Served t v same)
    | inr (other, differs) ↦
        rw (e, classify_line, ok_version, other) (method_not_allowed t v differs)
  ]

  line-Served : Without b'?' line.path → Served (classify_line parts)
  unfolding classify_line cpu_response patch_response packet_responses find_window overwrite
  line-Served h = elim (bytes_eq-cases (target line) []) [
    | inl (e, empty) ↦ rw (e, classify_line) (bad_request (inl empty))
    | inr (e, t) ↦ elim (bytes_eq-cases line.version (codes "HTTP/1.1")) [
      | inl (v, same) ↦ version-Served h t e (inl same) (rw v refl)
      | inr (v, other) ↦ elim (bytes_eq-cases line.version (codes "HTTP/1.0")) [
        | inl (v', same) ↦ version-Served h t e (inr same) (rw (v, v') refl)
        | inr (v', other') ↦ rw (e, classify_line, v, v') (bad_request (inr (other, other')))
      ]
    ]
  ]

-- The classifier picks the response to the payload's first line.
pub classify_http_request-Responds :
    (line : Line) (rest : List ℕ)
    → IsLine line
    → Responds line (cpu_response (classify_http_request (line_text line ++ 13 ∷ 10 ∷ rest)))
unfolding classify_http_request
classify_http_request-Responds line rest h =
    let split : split_on b' ' (line_text line) ≡ line.method ∷ target line ∷ line.version ∷ [] =
      split_on-append b' ' line.method (target line ++ b' ' ∷ line.version) h.method_word
      ∙ ap (λ t. line.method ∷ t)
          (split_on-append b' ' (target line) line.version h.target_word
            ∙ ap (λ t. target line ∷ t) (split_on-Without b' ' line.version h.version_word)) in
    rw
      (
        find_crlf (line_text line) rest h.no_return,
        classify_http_request,
        take-append_left (line_text line) (13 ∷ 10 ∷ rest),
        split,
      )
      (line-Served line h.no_mark)
