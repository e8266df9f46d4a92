-- ===== src/Packet/Wire/Header.antt =====
-- The flags, flow keys, views and specs of src/packet/wire.rs, and its big-endian reads and writes.
pub mod Reads
use mathlib.Core.Logic.{dite}
use mathlib.Core.WellFounded.{Acc}
use gput.Base.{
  ℕ, zero, suc, ◌+◌, ◌-◌, ◌*◌, ◌/◌, ◌%◌, ◌^◌, ◌≤◌, ◌<◌, bit_and, bit_or, bit_xor, ◌≡◌, Bool, true,
  false, ◌&&◌, ◌||◌, Option, none, some, List, [], ◌∷◌, ◌++◌, arith, dec_lt, ltb, leb, ◌==◌, ◌!=◌,
  if◌then◌else◌, length, replicate, Outcome, ok, err, panic, ◌>>=◌, ◌>>◌, ensure, index, slice,
  store, copy_at, ipv4_tcp_too_large, ipv4_length_limit, packet_too_small, bad_header_length,
  total_length_exceeds, bad_ipv4_checksum, bad_tcp_checksum,
}
use gput.Base.Order.{lt_wf}
use gput.Base.Bits.{bit_and_0xffff}

abbrev pub tcp_fin : ℕ
tcp_fin = 0x01

abbrev pub tcp_syn : ℕ
tcp_syn = 0x02

abbrev pub tcp_rst : ℕ
tcp_rst = 0x04

abbrev pub tcp_psh : ℕ
tcp_psh = 0x08

abbrev pub tcp_ack : ℕ
tcp_ack = 0x10

pub record FlowKey : Type 0 where
  pub src_ip : ℕ
  pub dst_ip : ℕ
  pub src_port : ℕ
  pub dst_port : ℕ

pub record TcpPacketView : Type 0 where
  pub key : FlowKey
  pub seq : ℕ
  pub ack : ℕ
  pub flags : ℕ
  pub payload : List ℕ

pub record TcpPacketSpec : Type 0 where
  pub key : FlowKey
  pub seq : ℕ
  pub ack : ℕ
  pub flags : ℕ
  pub payload : List ℕ

-- `u32::wrapping_add`, and the `+=` on a `u32`, which the sums of a packet never make overflow.
abbrev pub add_u32 : ℕ → ℕ → ℕ
add_u32 a b = (a + b) % 2 ^ 32

abbrev pub sub_u32 : ℕ → ℕ → ℕ
sub_u32 a b = (a + 2 ^ 32 - b) % 2 ^ 32

abbrev pub mul_u32 : ℕ → ℕ → ℕ
mul_u32 a b = a * b % 2 ^ 32

-- Big-endian reads and writes.
unfoldable pub read_u16 : List ℕ → ℕ → Outcome ℕ
read_u16 bytes offset = do a ← index bytes offset; b ← index bytes (offset + 1); ok (a * 2 ^ 8 + b)

unfoldable pub read_u32 : List ℕ → ℕ → Outcome ℕ
read_u32 bytes offset = do
  a ← index bytes offset
  b ← index bytes (offset + 1)
  c ← index bytes (offset + 2)
  d ← index bytes (offset + 3)
  ok (a * 2 ^ 24 + b * 2 ^ 16 + c * 2 ^ 8 + d)

abbrev pub be_bytes_u16 : ℕ → List ℕ
be_bytes_u16 v = v / 2 ^ 8 ∷ v % 2 ^ 8 ∷ []

abbrev pub be_bytes_u32 : ℕ → List ℕ
be_bytes_u32 v = v / 2 ^ 24 ∷ v / 2 ^ 16 % 2 ^ 8 ∷ v / 2 ^ 8 % 2 ^ 8 ∷ v % 2 ^ 8 ∷ []

unfoldable pub write_u16 : List ℕ → ℕ → ℕ → Outcome (List ℕ)
write_u16 bytes offset value = copy_at bytes offset (be_bytes_u16 value)

unfoldable pub write_u32 : List ℕ → ℕ → ℕ → Outcome (List ℕ)
write_u32 bytes offset value = copy_at bytes offset (be_bytes_u32 value)
