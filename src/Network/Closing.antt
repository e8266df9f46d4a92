-- ===== src/Network/Closing.antt =====
-- When `connection_should_close` of src/network.rs closes a connection: by its `Connection` header.

use gput.Base.{◌≡◌, ◌↔◌, ◌⊎◌, inl, inr, refl, sym, ◌∙◌, true, List, [], ◌∷◌, arith, All, Bool-cases}
use gput.Base.Text.{codes}
use gput.Router.Body.{Bytes}
use gput.Router.Scanning.{Without}
use gput.Network.Close.{trim_ascii, eq_ignore_case, any_token, connection_should_close}
use gput.Network.Tokens.{IsLower, IsWord, IsWord-iff}
use gput.Network.Headers.{
  Header, IsHeader, request_text, reads_close, connection_should_close-reads_close,
}

-- Some part is the word `close`, in any case and with any space around it.
abbrev pub SomeClose : List Bytes → Type 0
SomeClose [] = ⊥
SomeClose (part ∷ parts) = IsWord part (codes "close") ⊎ SomeClose parts

-- The first header of the name `connection`, in any case and with any space around it, has such a
-- part among those between its commas.
abbrev pub AsksToClose : List Header → Type 0
AsksToClose [] = ⊥
AsksToClose (h ∷ headers) =
    (IsWord h.name (codes "connection") × SomeClose (h.first ∷ h.others))
    ⊎ ((¬ IsWord h.name (codes "connection")) × AsksToClose headers)

connection-IsLower : All IsLower (codes "connection")
connection-IsLower = omega arith

close-IsLower : All IsLower (codes "close")
close-IsLower = omega arith

any_token-SomeClose :
    (parts : List Bytes) → (any_token (codes "close") parts ≡ true) ↔ SomeClose parts
unfolding any_token
any_token-SomeClose [] = (λ h. cc, λ h. absurd h)
any_token-SomeClose (part ∷ parts) =
    let here = IsWord-iff part b'c' (codes "lose") close-IsLower in
    let later = any_token-SomeClose parts in
    elim (Bool-cases (eq_ignore_case (trim_ascii part) (codes "close"))) [
      | inl hit ↦ (λ h. inl (here.0 hit), λ h. rw hit refl)
      | inr miss ↦ (
        λ h. inr (later.0 (rw miss at h)),
        λ h. elim h [
          | inl word ↦ let w = sym miss ∙ here.1 word in cc
          | inr rest ↦ rw miss (later.1 rest)
        ],
      )
    ]

reads_close-AsksToClose :
    (headers : List Header) → (reads_close headers ≡ true) ↔ AsksToClose headers
reads_close-AsksToClose [] = (λ h. cc, λ h. absurd h)
reads_close-AsksToClose (h ∷ headers) =
    let named = IsWord-iff h.name b'c' (codes "onnection") connection-IsLower in
    let tokens = any_token-SomeClose (h.first ∷ h.others) in
    let later = reads_close-AsksToClose headers in
    elim (Bool-cases (eq_ignore_case (trim_ascii h.name) (codes "connection"))) [
      | inl hit ↦ (
        λ e. inl (named.0 hit, tokens.0 (rw hit at e)),
        λ a. elim a [
          | inl both ↦ rw hit (tokens.1 both.1)
          | inr other ↦ absurd (other.0 (named.0 hit))
        ],
      )
      | inr miss ↦ (
        λ e. inr (λ word. let w = sym miss ∙ named.1 word in cc, later.0 (rw miss at e)),
        λ a. elim a [
          | inl both ↦ let w = sym miss ∙ named.1 both.0 in cc
          | inr other ↦ rw miss (later.1 other.1)
        ],
      )
    ]

-- A request of a request line that ends in HTTP/1.1, headers and a blank line closes the connection
-- exactly if its first header named `connection`, in any case and with any space around the name,
-- has a part between its commas that is `close`, in any case and with any space around it.
pub connection_should_close-AsksToClose :
    (line : Bytes) (headers : List Header)
    → Without 13 line
    → Without 10 line
    → All IsHeader headers
    → (connection_should_close (request_text line headers) ≡ true) ↔ AsksToClose headers
connection_should_close-AsksToClose line headers no_return no_break k =
    let reads = connection_should_close-reads_close line headers no_return no_break k in
    let asks = reads_close-AsksToClose headers in
    (λ h. asks.0 (sym reads ∙ h), λ a. reads ∙ asks.1 a)
