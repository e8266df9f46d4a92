-- ===== src/Network/Headers.antt =====
-- `connection_should_close` of src/network.rs on a request of a request line and headers.
use mathlib.Core.List.{append_assoc}
use gput.Base.{
  ℕ, ◌+◌, ◌-◌, ◌≡◌, inl, inr, refl, ap, ◌∙◌, Bool, true, false, some, List, [], ◌∷◌, ◌++◌, arith,
  leb, ◌==◌, if◌then◌else◌, length, take, drop, All, Bool-cases, le→leb, length-append,
  take-append_left, drop-append_left, All-append,
}
use gput.Base.Text.{codes, bytes_eq_iff, find_window, split_on}
use gput.Router.Body.{Bytes, is_empty}
use gput.Router.Request.{position, strip_last}
use gput.Router.Scanning.{
  Without, find_crlf, position-Without, strip_last-append, split_on-Without, split_on-append,
  drop-append_right,
}
use gput.Network.Close.{
  trim_ascii, eq_ignore_case, any_token, other_header, connection_header, stripped_line,
  header_line, lines_have_token, connection_header_has_token, ends_with, connection_should_close,
}

-- A header, its value as the parts between the commas.
pub record Header : Type 0 where
  pub name : Bytes
  pub first : Bytes
  pub others : List Bytes

abbrev pub parts_text : Bytes → List Bytes → Bytes
parts_text part [] = part
parts_text part (next ∷ parts) = part ++ b',' ∷ parts_text next parts

abbrev pub header_value : Header → Bytes
header_value h = parts_text h.first h.others

-- The name has no colon, a part has no comma, and none of them breaks the line.
pub record IsHeader (h : Header) : Type 0 where
  pub no_colon : Without b':' h.name
  pub name_line : Without b'\n' h.name
  pub no_comma : All (Without b',') (h.first ∷ h.others)
  pub parts_line : All (Without b'\n') (h.first ∷ h.others)

abbrev pub header_text : Header → Bytes
header_text h = h.name ++ b':' ∷ header_value h

-- The lines of the headers, each with its end, and the blank line.
abbrev pub headers_text : List Header → Bytes
headers_text [] = 13 ∷ 10 ∷ []
headers_text (h ∷ headers) = (header_text h ++ 13 ∷ []) ++ 10 ∷ headers_text headers

abbrev pub request_text : Bytes → List Header → Bytes
request_text line headers = ((line ++ codes " HTTP/1.1") ++ 13 ∷ []) ++ 10 ∷ headers_text headers

-- What the code reads off the headers.
abbrev pub reads_close : List Header → Bool
reads_close [] = false
reads_close (h ∷ headers) =
    let rest = reads_close headers in
    if eq_ignore_case (trim_ascii h.name) (codes "connection")
    then any_token (codes "close") (h.first ∷ h.others)
    else rest

split_on-parts_text :
    (part : Bytes) (parts : List Bytes)
    → All (Without b',') (part ∷ parts)
    → split_on b',' (parts_text part parts) ≡ part ∷ parts
split_on-parts_text part [] h = split_on-Without b',' part h.0
split_on-parts_text part (next ∷ parts) h =
    split_on-append b',' part (parts_text next parts) h.0
    ∙ ap (λ t. part ∷ t) (split_on-parts_text next parts h.1)

parts_text-Without :
    (part : Bytes) (parts : List Bytes)
    → All (Without b'\n') (part ∷ parts)
    → Without b'\n' (parts_text part parts)
parts_text-Without part [] h = h.0
parts_text-Without part (next ∷ parts) h =
    All-append (λ (x : ℕ). x == b'\n' ≡ false) part (b',' ∷ parts_text next parts) h.0
      (refl, parts_text-Without next parts h.1)

ends_with-append : (xs suffix : Bytes) → ends_with suffix (xs ++ suffix) ≡ true
unfolding ends_with
ends_with-append xs suffix =
    let long = length-append xs suffix in
    let fits : leb (length suffix) (length (xs ++ suffix)) ≡ true =
      le→leb (length suffix) (length (xs ++ suffix)) (omega (arith, long)) in
    let cut : length (xs ++ suffix) - length suffix ≡ length xs = omega (arith, long) in
    let tail : drop (length (xs ++ suffix) - length suffix) (xs ++ suffix) ≡ suffix =
      ap (λ k. drop k (xs ++ suffix)) cut ∙ drop-append_left xs suffix in
    rw (fits, ends_with, tail) ((bytes_eq_iff suffix suffix).1 refl)

is_empty-append : (xs : Bytes) (y : ℕ) (ys : Bytes) → is_empty (xs ++ y ∷ ys) ≡ false
is_empty-append [] y ys = refl
is_empty-append (x ∷ xs) y ys = refl

stripped_line-colon :
    (line : Bytes) (colon : ℕ)
    → is_empty line ≡ false
    → position b':' line ≡ some colon
    → stripped_line line ≡ (
        if eq_ignore_case (trim_ascii (take colon line)) (codes "connection")
        then connection_header (drop (colon + 1) line)
        else other_header)
unfolding stripped_line
stripped_line-colon line colon filled found = rw (filled, stripped_line, found) refl

header_line-header_text :
    (h : Header)
    → IsHeader h
    → header_line (header_text h ++ 13 ∷ []) ≡ (
        if eq_ignore_case (trim_ascii h.name) (codes "connection")
        then connection_header (header_value h)
        else other_header)
unfolding header_line
header_line-header_text h k =
    ap stripped_line (strip_last-append 13 (header_text h))
    ∙ stripped_line-colon (header_text h) (length h.name)
        (is_empty-append h.name b':' (header_value h))
        (position-Without b':' h.name (header_value h) k.no_colon)
    ∙ ap
        (λ (p : Bytes × Bytes).
          if eq_ignore_case (trim_ascii p.0) (codes "connection")
          then connection_header p.1
          else other_header)
        (λ i. (
          take-append_left h.name (b':' ∷ header_value h) i,
          drop-append_right b':' h.name (header_value h) i,
        ))

lines_have_token-connection :
    (raw_line value : Bytes) (lines : List Bytes)
    → header_line raw_line ≡ connection_header value
    → lines_have_token (codes "close") (raw_line ∷ lines)
      ≡ any_token (codes "close") (split_on b',' value)
unfolding lines_have_token
lines_have_token-connection raw_line value lines h = rw (h, lines_have_token) refl

lines_have_token-other :
    (raw_line : Bytes) (lines : List Bytes)
    → header_line raw_line ≡ other_header
    → lines_have_token (codes "close") (raw_line ∷ lines) ≡ lines_have_token (codes "close") lines
unfolding lines_have_token
lines_have_token-other raw_line lines h = rw (h, lines_have_token) refl

header_text-Without : (h : Header) → IsHeader h → Without 10 (header_text h ++ 13 ∷ [])
header_text-Without h k =
    let clear = λ (x : ℕ). x == 10 ≡ false in
    All-append clear (header_text h) (13 ∷ [])
      (All-append clear h.name (b':' ∷ header_value h) k.name_line
        (refl, parts_text-Without h.first h.others k.parts_line))
      (refl, tt)

lines_have_token-headers_text :
    (headers : List Header)
    → All IsHeader headers
    → lines_have_token (codes "close") (split_on 10 (headers_text headers)) ≡ reads_close headers
unfolding lines_have_token split_on header_line stripped_line strip_last
lines_have_token-headers_text [] h = refl
lines_have_token-headers_text (h ∷ headers) k =
    let line = header_text h ++ 13 ∷ [] in
    let rest = split_on 10 (headers_text headers) in
    let is = header_line-header_text h k.0 in
    ap (lines_have_token (codes "close"))
      (split_on-append 10 line (headers_text headers) (header_text-Without h k.0))
    ∙ elim (Bool-cases (eq_ignore_case (trim_ascii h.name) (codes "connection"))) [
      | inl named ↦
          lines_have_token-connection line (header_value h) rest (is ∙ rw named refl)
          ∙ ap (any_token (codes "close"))
              (split_on-parts_text h.first h.others (IsHeader.no_comma k.0))
          ∙ rw named refl
      | inr other ↦
          lines_have_token-other line rest (is ∙ rw other refl)
          ∙ lines_have_token-headers_text headers k.1
          ∙ rw other refl
    ]

should_close-version :
    (request line : Bytes) (n : ℕ)
    → find_window (13 ∷ 10 ∷ []) request ≡ some n
    → take n request ≡ line ++ codes " HTTP/1.1"
    → connection_should_close request ≡ connection_header_has_token request (codes "close")
unfolding connection_should_close
should_close-version request line n found is =
    rw (found, connection_should_close, is, ends_with-append line (codes " HTTP/1.1")) refl

version_no_return : Without 13 (codes " HTTP/1.1")
version_no_return = (refl, (refl, (refl, (refl, (refl, (refl, (refl, (refl, (refl, tt)))))))))

version_no_break : Without 10 (codes " HTTP/1.1")
version_no_break = (refl, (refl, (refl, (refl, (refl, (refl, (refl, (refl, (refl, tt)))))))))

pub connection_should_close-reads_close :
    (line : Bytes) (headers : List Header)
    → Without 13 line
    → Without 10 line
    → All IsHeader headers
    → connection_should_close (request_text line headers) ≡ reads_close headers
unfolding connection_header_has_token
connection_should_close-reads_close line headers no_return no_break k =
    let first = line ++ codes " HTTP/1.1" in
    let rest = headers_text headers in
    let clear = λ (b x : ℕ). x == b ≡ false in
    let no_return_first : Without 13 first =
      All-append (clear 13) line (codes " HTTP/1.1") no_return version_no_return in
    let no_break_first : Without 10 (first ++ 13 ∷ []) =
      All-append (clear 10) first (13 ∷ [])
        (All-append (clear 10) line (codes " HTTP/1.1") no_break version_no_break) (refl, tt) in
    should_close-version (request_text line headers) line (length first)
      (ap (find_window (13 ∷ 10 ∷ [])) (append_assoc first (13 ∷ []) (10 ∷ rest))
        ∙ find_crlf first rest no_return_first)
      (ap (take (length first)) (append_assoc first (13 ∷ []) (10 ∷ rest))
        ∙ take-append_left first (13 ∷ 10 ∷ rest))
    ∙ ap (λ lines. lines_have_token (codes "close") (drop 1 lines))
        (split_on-append 10 (first ++ 13 ∷ []) rest no_break_first)
    ∙ lines_have_token-headers_text headers k
