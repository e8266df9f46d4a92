-- ===== src/Packet/Wire/Header/Reads.antt =====
-- Reads in range as plain arithmetic on the bytes.

use gput.Base.{
  ℕ, zero, suc, ◌+◌, ◌*◌, ◌^◌, ◌<◌, ◌≡◌, List, [], ◌∷◌, arith, length, All, get_or, ok,
  index-get_or,
}
use gput.Packet.Raw.{IsByte}
use gput.Packet.Wire.Header.{read_u16, read_u32}

abbrev pub byte_at : List ℕ → ℕ → ℕ
byte_at bytes i = get_or bytes i 0

abbrev pub word_at : List ℕ → ℕ → ℕ
word_at bytes i = byte_at bytes i * 256 + byte_at bytes (i + 1)

abbrev pub long_at : List ℕ → ℕ → ℕ
long_at bytes i =
    byte_at bytes i * 2 ^ 24
    + byte_at bytes (i + 1) * 2 ^ 16
    + byte_at bytes (i + 2) * 2 ^ 8
    + byte_at bytes (i + 3)

pub byte_at-lt : (bytes : List ℕ) (i : ℕ) → All IsByte bytes → byte_at bytes i < 256
byte_at-lt [] i h = omega arith
byte_at-lt (b ∷ bytes) zero h = h.0
byte_at-lt (b ∷ bytes) (suc i) h = byte_at-lt bytes i h.1

pub word_at-lt : (bytes : List ℕ) (i : ℕ) → All IsByte bytes → word_at bytes i < 2 ^ 16
word_at-lt bytes i h = omega (arith, byte_at-lt bytes i h, byte_at-lt bytes (i + 1) h)

pub long_at-lt : (bytes : List ℕ) (i : ℕ) → All IsByte bytes → long_at bytes i < 2 ^ 32
long_at-lt bytes i h = omega (
  arith,
  byte_at-lt bytes i h,
  byte_at-lt bytes (i + 1) h,
  byte_at-lt bytes (i + 2) h,
  byte_at-lt bytes (i + 3) h,
)

pub read_u16-word_at :
    (bytes : List ℕ) (i : ℕ) → i + 1 < length bytes → read_u16 bytes i ≡ ok (word_at bytes i)
unfolding read_u16
read_u16-word_at bytes i h =
    rw (index-get_or bytes i 0 (omega arith), index-get_or bytes (i + 1) 0 h)

pub read_u32-long_at :
    (bytes : List ℕ) (i : ℕ) → i + 3 < length bytes → read_u32 bytes i ≡ ok (long_at bytes i)
unfolding read_u32
read_u32-long_at bytes i h = rw (
  index-get_or bytes i 0 (omega arith),
  index-get_or bytes (i + 1) 0 (omega arith),
  index-get_or bytes (i + 2) 0 (omega arith),
  index-get_or bytes (i + 3) 0 h,
)
