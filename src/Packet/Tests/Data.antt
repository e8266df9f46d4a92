-- ===== src/Packet/Tests/Data.antt =====
-- Test data: a packet of the unit tests of src/packet/wire.rs, and the segments of a connection.

use gput.Base.{ℕ, ◌≡◌, refl, some, List, [], ◌∷◌, arith, replicate, ok, slice}
use gput.Base.Text.{codes}
use gput.Packet.Raw
use gput.Packet.Raw.{RawPacket, max_raw_packet_bytes, as_bytes, IsByte}
use gput.Packet.Wire.Header.{FlowKey, TcpPacketView, TcpPacketSpec, read_u16, read_u32}
use gput.Packet.Wire.Parse.{
  parse_ipv4_tcp_bytes, rejects_start, read_view, read_flow_key, parse_ipv4_tcp,
}
use gput.Packet.Wire.RoundTrip.{KeyInRange, Fits, view_of_spec}

abbrev pub client_key : FlowKey
client_key = record { src_ip = 0x0a4d0002; dst_ip = 0x0a4d0001; src_port = 50000; dst_port = 8080 }

abbrev pub get : List ℕ
get = codes "GET"

abbrev pub get_spec : TcpPacketSpec
get_spec = record { key = client_key; seq = 123; ack = 456; flags = 0x18; payload = get }

abbrev pub long_spec : TcpPacketSpec
long_spec = record get_spec { payload = replicate 1497 65 }

-- What `build_ipv4_tcp_packet` makes of `get_spec`.
abbrev pub get_packet : RawPacket
get_packet = record {
  bytes =
      69 ∷ 0 ∷ 0 ∷ 43 ∷ 0 ∷ 0 ∷ 64 ∷ 0 ∷ 64 ∷ 6 ∷ 38 ∷ 49 ∷ 10 ∷ 77 ∷ 0 ∷ 2 ∷ 10 ∷ 77 ∷ 0 ∷ 1 ∷ 195
      ∷ 80 ∷ 31 ∷ 144 ∷ 0 ∷ 0 ∷ 0 ∷ 123 ∷ 0 ∷ 0 ∷ 1 ∷ 200 ∷ 80 ∷ 24 ∷ 255 ∷ 255 ∷ 26 ∷ 196 ∷ 0 ∷ 0
      ∷ 71 ∷ 69 ∷ 84 ∷ [];
}

-- A SYN of `client_key` with the sequence number 123.
abbrev pub syn_packet : RawPacket
syn_packet = record {
  bytes =
      69 ∷ 0 ∷ 0 ∷ 40 ∷ 0 ∷ 0 ∷ 64 ∷ 0 ∷ 64 ∷ 6 ∷ 38 ∷ 52 ∷ 10 ∷ 77 ∷ 0 ∷ 2 ∷ 10 ∷ 77 ∷ 0 ∷ 1 ∷ 195
      ∷ 80 ∷ 31 ∷ 144 ∷ 0 ∷ 0 ∷ 0 ∷ 123 ∷ 0 ∷ 0 ∷ 0 ∷ 0 ∷ 80 ∷ 2 ∷ 255 ∷ 255 ∷ 183 ∷ 234 ∷ 0 ∷ 0
      ∷ [];
}

-- Its total length is 8, below the length of its header; the header's sum is 65535.
abbrev pub short_total_packet : RawPacket
short_total_packet = record {
  bytes =
      69 ∷ 0 ∷ 0 ∷ 8 ∷ 0 ∷ 0 ∷ 64 ∷ 0 ∷ 64 ∷ 6 ∷ 38 ∷ 84 ∷ 10 ∷ 77 ∷ 0 ∷ 2 ∷ 10 ∷ 77 ∷ 0 ∷ 1 ∷ 195
      ∷ 80 ∷ 31 ∷ 144 ∷ 0 ∷ 0 ∷ 0 ∷ 123 ∷ 0 ∷ 0 ∷ 0 ∷ 0 ∷ 80 ∷ 2 ∷ 255 ∷ 255 ∷ 183 ∷ 234 ∷ 0 ∷ 0
      ∷ [];
}

pub get_packet-IsValid : Raw.IsValid get_packet
get_packet-IsValid = record { nonempty = omega arith; fits = omega arith; in_range = omega arith }

pub syn_packet-IsValid : Raw.IsValid syn_packet
syn_packet-IsValid = record { nonempty = omega arith; fits = omega arith; in_range = omega arith }

pub short_total_packet-IsValid : Raw.IsValid short_total_packet
short_total_packet-IsValid = record {
  nonempty = omega arith;
  fits = omega arith;
  in_range = omega arith;
}

pub client_key-KeyInRange : KeyInRange client_key
client_key-KeyInRange = record {
  src_ip = omega arith;
  dst_ip = omega arith;
  src_port = omega arith;
  dst_port = omega arith;
}

pub get_spec-Fits : Fits get_spec
get_spec-Fits = record {
  key = client_key-KeyInRange;
  seq = omega arith;
  ack = omega arith;
  flags = omega arith;
  payload = omega arith;
  short = omega arith;
}

pub get_parsed : parse_ipv4_tcp get_packet ≡ ok (some (view_of_spec get_spec))
unfolding parse_ipv4_tcp parse_ipv4_tcp_bytes rejects_start read_view read_flow_key read_u16
    read_u32 slice
get_parsed = refl

abbrev pub syn_view : TcpPacketView
syn_view = record { key = client_key; seq = 123; ack = 0; flags = 2; payload = [] }

pub syn_parsed : parse_ipv4_tcp syn_packet ≡ ok (some syn_view)
unfolding parse_ipv4_tcp parse_ipv4_tcp_bytes rejects_start read_view read_flow_key read_u16
    read_u32 slice
syn_parsed = refl
