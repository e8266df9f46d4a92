-- ===== src/Router/Body.antt =====
-- `Status`, `Body` and `Response` of src/router.rs. A string is the list of its bytes.

use gput.Base.{ℕ, Bool, true, false, List, [], ◌∷◌, ◌++◌, ◌!=◌, if◌then◌else◌}
use gput.Base.Text.{codes, bytes_eq}

abbrev pub Bytes : Type 0
Bytes = List ℕ

pub record Status : Type 0 where
  pub code : ℕ
  pub reason : Bytes

abbrev pub status_ok : Status
status_ok = record { code = 200; reason = codes "OK" }

abbrev pub status_bad_request : Status
status_bad_request = record { code = 400; reason = codes "Bad Request" }

abbrev pub status_not_found : Status
status_not_found = record { code = 404; reason = codes "Not Found" }

abbrev pub status_method_not_allowed : Status
status_method_not_allowed = record { code = 405; reason = codes "Method Not Allowed" }

pub data BodySegment : Type 0 where
  literal_segment : Bytes → BodySegment
  path_segment query_segment : ℕ → BodySegment
  backend_segment request_bytes_segment path_hash_segment : BodySegment
  variant_segment : Bytes → Bytes → BodySegment

pub record Body : Type 0 where
  pub segments : List BodySegment

abbrev pub empty_body : Body
empty_body = record { segments = [] }

abbrev pub push_segment : Body → BodySegment → Body
push_segment body segment = record body { segments = body.segments ++ segment ∷ [] }

-- What `last_mut` decides on: a literal grows, any other segment is followed by a new one.
unfoldable pub extend_last : BodySegment → Bytes → List BodySegment
extend_last (literal_segment previous) text = literal_segment (previous ++ text) ∷ []
extend_last segment text = segment ∷ literal_segment text ∷ []

unfoldable pub append_literal : List BodySegment → Bytes → List BodySegment
append_literal [] text = literal_segment text ∷ []
append_literal (segment ∷ []) text = extend_last segment text
append_literal (segment ∷ next ∷ rest) text = segment ∷ append_literal (next ∷ rest) text

abbrev pub is_empty {ℓ} : {A : Type ℓ} → List A → Bool
is_empty [] = true
is_empty (x ∷ xs) = false

unfoldable pub literal : Body → Bytes → Body
literal body text =
    if is_empty text then body else (record body { segments = append_literal body.segments text })

unfoldable pub push : Body → Bytes → Body
push body text = literal body text

unfoldable pub path : Body → ℕ → Body
path body max_bytes = if max_bytes != 0 then push_segment body (path_segment max_bytes) else body

unfoldable pub query : Body → ℕ → Body
query body max_bytes = if max_bytes != 0 then push_segment body (query_segment max_bytes) else body

unfoldable pub backend : Body → Body
backend body = push_segment body backend_segment

unfoldable pub request_bytes : Body → Body
request_bytes body = push_segment body request_bytes_segment

unfoldable pub path_hash : Body → Body
path_hash body = push_segment body path_hash_segment

unfoldable pub backend_variant : Body → Bytes → Bytes → Body
backend_variant body cpu gpu =
    if bytes_eq cpu gpu then literal body cpu else push_segment body (variant_segment cpu gpu)

-- `Body::from` of a string.
unfoldable pub body_from : Bytes → Body
body_from value = push empty_body value

pub record Response : Type 0 where
  pub status : Status
  pub content_type : Bytes
  pub body : Body

abbrev pub text : Body → Response
text body = record {
  status = status_ok;
  content_type = codes "text/plain; charset=utf-8";
  body = body;
}

abbrev pub json : Body → Response
json body = record { status = status_ok; content_type = codes "application/json"; body = body }

abbrev pub html : Body → Response
html body = record {
  status = status_ok;
  content_type = codes "text/html; charset=utf-8";
  body = body;
}

abbrev pub with_status : Response → Status → Response
with_status response status = record response { status = status }

abbrev pub with_content_type : Response → Bytes → Response
with_content_type response content_type = record response { content_type = content_type }
