-- ===== src/Network/Close.antt =====
-- `connection_should_close` of src/network.rs and what it calls.

use gput.Base.{
  ℕ, ◌+◌, ◌-◌, Bool, true, false, not, ◌&&◌, ◌||◌, none, some, List, [], ◌∷◌, map, leb, ◌==◌,
  if◌then◌else◌, length, take, drop,
}
use gput.Base.Text.{codes, bytes_eq, find_window, split_on}
use gput.Router.Body.{Bytes, is_empty}
use gput.Router.Request.{position, strip_last}

-- `u8::is_ascii_whitespace`.
abbrev pub is_whitespace : ℕ → Bool
is_whitespace byte = byte == 32 || byte == 9 || byte == 10 || byte == 12 || byte == 13

abbrev pub trim_start : Bytes → Bytes
trim_start [] = []
trim_start (b ∷ bytes) = let rest = trim_start bytes in if is_whitespace b then rest else b ∷ bytes

-- The loop on the last byte: a byte goes once all behind it are gone.
abbrev pub trim_end : Bytes → Bytes
trim_end [] = []
trim_end (b ∷ bytes) =
    let rest = trim_end bytes in if is_empty rest && is_whitespace b then [] else b ∷ rest

unfoldable pub trim_ascii : Bytes → Bytes
trim_ascii bytes = trim_end (trim_start bytes)

abbrev pub to_lower : ℕ → ℕ
to_lower byte = if leb b'A' byte && leb byte b'Z' then byte + 32 else byte

-- `eq_ignore_ascii_case`.
unfoldable pub eq_ignore_case : Bytes → Bytes → Bool
eq_ignore_case xs ys = bytes_eq (map to_lower xs) (map to_lower ys)

-- Some part between commas is the token.
unfoldable pub any_token : Bytes → List Bytes → Bool
any_token token [] = false
any_token token (part ∷ parts) = eq_ignore_case (trim_ascii part) token || any_token token parts

-- A line of the headers: its end, a header of another name, or the tokens of `Connection`.
pub data HeaderLine : Type 0 where
  end_of_headers other_header : HeaderLine
  connection_header : Bytes → HeaderLine

-- The line without its return.
unfoldable pub stripped_line : Bytes → HeaderLine
stripped_line line = if is_empty line then end_of_headers else elim (position b':' line) [
  | none ↦ other_header
  | some colon ↦
      if eq_ignore_case (trim_ascii (take colon line)) (codes "connection")
      then connection_header (drop (colon + 1) line)
      else other_header
]

unfoldable pub header_line : Bytes → HeaderLine
header_line raw_line = stripped_line (strip_last b'\r' raw_line)

-- The loop over the lines behind the request line.
unfoldable pub lines_have_token : Bytes → List Bytes → Bool
lines_have_token token [] = false
lines_have_token token (raw_line ∷ lines) = elim (header_line raw_line) [
  | end_of_headers ↦ false
  | other_header ↦ lines_have_token token lines
  | connection_header value ↦ any_token token (split_on b',' value)
]

unfoldable pub connection_header_has_token : Bytes → Bytes → Bool
connection_header_has_token request token = lines_have_token token (drop 1 (split_on b'\n' request))

-- `ends_with`.
unfoldable pub ends_with : Bytes → Bytes → Bool
ends_with suffix bytes =
    leb (length suffix) (length bytes)
    && bytes_eq (drop (length bytes - length suffix) bytes) suffix

unfoldable pub connection_should_close : Bytes → Bool
connection_should_close request = elim (find_window (13 ∷ 10 ∷ []) request) [
  | none ↦ true
  | some request_line_end ↦
      if not (ends_with (codes " HTTP/1.1") (take request_line_end request))
      then true
      else connection_header_has_token request (codes "close")
]
