-- ===== src/Packet/Wire/Parse.antt =====
-- The parsers and the flow hash of src/packet/wire.rs.
pub mod Accepts
use mathlib.Core.Logic.{dite}
use mathlib.Core.WellFounded.{Acc}
use gput.Base.{
  ℕ, zero, suc, ◌+◌, ◌-◌, ◌*◌, ◌/◌, ◌%◌, ◌^◌, ◌≤◌, ◌<◌, bit_and, bit_or, bit_xor, ◌≡◌, Bool, true,
  false, ◌&&◌, ◌||◌, Option, none, some, List, [], ◌∷◌, ◌++◌, arith, dec_lt, ltb, leb, ◌==◌, ◌!=◌,
  if◌then◌else◌, length, replicate, Outcome, ok, err, panic, ◌>>=◌, ◌>>◌, ensure, index, slice,
  store, copy_at, ipv4_tcp_too_large, ipv4_length_limit, packet_too_small, bad_header_length,
  total_length_exceeds, bad_ipv4_checksum, bad_tcp_checksum,
}
use gput.Base.Order.{lt_wf}
use gput.Base.Bits.{bit_and_0xffff}
use gput.Packet.Wire.Header.{
  tcp_fin, FlowKey, TcpPacketView, TcpPacketSpec, add_u32, sub_u32, mul_u32, read_u16, read_u32,
  write_u16, write_u32, be_bytes_u16, be_bytes_u32,
}
use gput.Packet.Raw
use gput.Packet.Raw.{RawPacket, max_raw_packet_bytes, as_bytes}
use gput.Packet.Wire.Checksum.{checksum, tcp_checksum}

-- The early returns `if .. { return None; }`.
abbrev reject_if : Bool → Outcome (Option TcpPacketView) → Outcome (Option TcpPacketView)
reject_if true rest = ok none
reject_if false rest = rest

abbrev drop_if : Bool → Outcome (Option FlowKey) → Outcome (Option FlowKey)
drop_if true rest = ok none
drop_if false rest = rest

-- The flow key at the offsets that both parsers use.
unfoldable pub read_flow_key : List ℕ → ℕ → Outcome FlowKey
read_flow_key bytes ip_header_len = do
  src_ip ← read_u32 bytes 12
  dst_ip ← read_u32 bytes 16
  src_port ← read_u16 bytes ip_header_len
  dst_port ← read_u16 bytes (ip_header_len + 2)
  ok (record { src_ip = src_ip; dst_ip = dst_ip; src_port = src_port; dst_port = dst_port })

-- The part of the parser behind the tests: the view of a packet whose offsets are known.
unfoldable pub read_view : List ℕ → ℕ → ℕ → ℕ → Outcome TcpPacketView
read_view bytes ip_header_len tcp_header_len total_len = do
  key ← read_flow_key bytes ip_header_len
  seq ← read_u32 bytes (ip_header_len + 4)
  ack ← read_u32 bytes (ip_header_len + 8)
  flags ← index bytes (ip_header_len + 13)
  payload ← slice bytes (ip_header_len + tcp_header_len) total_len
  ok (record { key = key; seq = seq; ack = ack; flags = flags; payload = payload })

-- `||`: the right side runs only if the left is false.
abbrev or_lazy : Bool → Outcome Bool → Outcome Bool
or_lazy true rest = ok true
or_lazy false rest = rest

-- `bytes.len() < n || bytes[0] >> 4 != 4 || bytes[9] != 6`.
unfoldable pub rejects_start : List ℕ → ℕ → Outcome Bool
rejects_start bytes n = or_lazy (ltb (length bytes) n) do
  version ← index bytes 0
  or_lazy (version / 2 ^ 4 != 4) do protocol ← index bytes 9; ok (protocol != 6)

unfoldable pub parse_ipv4_tcp_bytes : List ℕ → Outcome (Option TcpPacketView)
parse_ipv4_tcp_bytes bytes = do
  bad_start ← rejects_start bytes 40
  reject_if bad_start do
    first ← index bytes 0
    let ip_header_len = bit_and first 0x0f * 4
    reject_if (ltb ip_header_len 20 || ltb (length bytes) (ip_header_len + 20)) do
      fragment ← read_u16 bytes 6
      reject_if (bit_and fragment 0x3fff != 0) do
        total_len ← read_u16 bytes 2
        reject_if (ltb total_len (ip_header_len + 20) || ltb (length bytes) total_len) do
          offset ← index bytes (ip_header_len + 12)
          let tcp_header_len = offset / 2 ^ 4 * 4
          reject_if (ltb tcp_header_len 20 || ltb total_len (ip_header_len + tcp_header_len))
              do view ← read_view bytes ip_header_len tcp_header_len total_len; ok (some view)

unfoldable pub parse_ipv4_tcp : RawPacket → Outcome (Option TcpPacketView)
parse_ipv4_tcp packet = parse_ipv4_tcp_bytes (as_bytes packet)

unfoldable pub scheduling_flow_key : RawPacket → Outcome (Option FlowKey)
scheduling_flow_key packet = do
  let bytes = as_bytes packet
  bad_start ← rejects_start bytes 24
  drop_if bad_start do
    first ← index bytes 0
    let ip_header_len = bit_and first 0x0f * 4
    drop_if (ltb ip_header_len 20 || ltb (length bytes) (ip_header_len + 4))
        do key ← read_flow_key bytes ip_header_len; ok (some key)

unfoldable pub flow_hash : FlowKey → ℕ
flow_hash key =
    let h₁ = mul_u32 (bit_xor 2_166_136_261 key.src_ip) 16_777_619 in
    let h₂ = mul_u32 (bit_xor h₁ key.dst_ip) 16_777_619 in
    let h₃ = mul_u32 (bit_xor h₂ key.src_port) 16_777_619 in
    mul_u32 (bit_xor h₃ key.dst_port) 16_777_619
