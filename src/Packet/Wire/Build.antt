-- ===== src/Packet/Wire/Build.antt =====
-- `build_ipv4_tcp_packet` and `validate_ipv4_tcp_checksums` of src/packet/wire.rs.
pub mod Layout
use mathlib.Core.Logic.{dite}
use mathlib.Core.WellFounded.{Acc}
use gput.Base.{
  ℕ, zero, suc, ◌+◌, ◌-◌, ◌*◌, ◌/◌, ◌%◌, ◌^◌, ◌≤◌, ◌<◌, bit_and, bit_or, bit_xor, ◌≡◌, Bool, true,
  false, ◌&&◌, ◌||◌, Option, none, some, List, [], ◌∷◌, ◌++◌, arith, dec_lt, ltb, leb, ◌==◌, ◌!=◌,
  if◌then◌else◌, length, replicate, Outcome, ok, err, panic, ◌>>=◌, ◌>>◌, ensure, index, slice,
  store, copy_at, ipv4_tcp_too_large, ipv4_length_limit, packet_too_small, bad_header_length,
  total_length_exceeds, bad_ipv4_checksum, bad_tcp_checksum,
}
use gput.Base.Order.{lt_wf}
use gput.Base.Bits.{bit_and_0xffff}
use gput.Packet.Wire.Header.{
  tcp_fin, FlowKey, TcpPacketView, TcpPacketSpec, add_u32, sub_u32, mul_u32, read_u16, read_u32,
  write_u16, write_u32, be_bytes_u16, be_bytes_u32,
}
use gput.Packet.Raw
use gput.Packet.Raw.{RawPacket, max_raw_packet_bytes, as_bytes}
use gput.Packet.Wire.Checksum.{checksum, tcp_checksum}

-- `xs[a..].copy_from_slice(ys)`: the lengths must agree.
abbrev copy_tail : List ℕ → ℕ → List ℕ → Outcome (List ℕ)
copy_tail xs a ys =
    if leb a (length xs) && length xs - a == length ys then copy_at xs a ys else panic

-- The stores and writes between `vec![0; total_len]` and the checksums.
unfoldable pub fill_packet : TcpPacketSpec → ℕ → Outcome (List ℕ)
fill_packet spec total_len = do
  let packet = replicate total_len 0
  packet ← store packet 0 0x45
  packet ← write_u16 packet 2 (total_len % 2 ^ 16)
  packet ← write_u16 packet 6 0x4000
  packet ← store packet 8 64
  packet ← store packet 9 6
  packet ← write_u32 packet 12 spec.key.src_ip
  packet ← write_u32 packet 16 spec.key.dst_ip
  packet ← write_u16 packet 20 spec.key.src_port
  packet ← write_u16 packet 22 spec.key.dst_port
  packet ← write_u32 packet 24 spec.seq
  packet ← write_u32 packet 28 spec.ack
  packet ← store packet 32 0x50
  packet ← store packet 33 spec.flags
  packet ← write_u16 packet 34 0xffff
  copy_tail packet 40 spec.payload

unfoldable pub write_checksums : List ℕ → Outcome (List ℕ)
write_checksums packet = do
  header ← slice packet 0 20
  packet ← write_u16 packet 10 (checksum header)
  segment_checksum ← tcp_checksum packet 20 true
  write_u16 packet 36 segment_checksum

-- `40_usize.checked_add(..).expect(..)`.
abbrev checked_total : ℕ → Outcome ℕ
checked_total payload_len = if ltb (40 + payload_len) (2 ^ 64) then ok (40 + payload_len) else panic

unfoldable pub build_ipv4_tcp_packet : TcpPacketSpec → Outcome RawPacket
build_ipv4_tcp_packet spec = do
  total_len ← checked_total (length spec.payload)
  ensure (leb total_len max_raw_packet_bytes) ipv4_tcp_too_large
  ensure (leb total_len 0xffff) ipv4_length_limit
  packet ← fill_packet spec total_len
  packet ← write_checksums packet
  Raw.new packet

unfoldable pub validate_ipv4_tcp_checksums : RawPacket → Outcome (Unit {0})
validate_ipv4_tcp_checksums packet = do
  let bytes = as_bytes packet
  ensure (leb 40 (length bytes)) packet_too_small
  first ← index bytes 0
  let header_len = bit_and first 0x0f * 4
  ensure (leb 20 header_len && leb header_len (length bytes)) bad_header_length
  total_len ← read_u16 bytes 2
  ensure (leb total_len (length bytes)) total_length_exceeds
  header ← slice bytes 0 header_len
  ensure (checksum header == 0) bad_ipv4_checksum
  datagram ← slice bytes 0 total_len
  sum ← tcp_checksum datagram header_len false
  ensure (sum == 0) bad_tcp_checksum
