-- ===== src/Packet/Tests/Wire.antt =====
-- Theorems about src/packet/wire.rs at concrete inputs.

use gput.Base.{◌%◌, ◌<◌, ◌≡◌, ◌↔◌, ◌⊎◌, refl, none, some, arith, take, ok, panic}
use gput.Packet.Raw
use gput.Packet.Raw.{RawPacket, max_raw_packet_bytes, as_bytes, IsByte}
use gput.Packet.Wire.Build.{build_ipv4_tcp_packet, validate_ipv4_tcp_checksums}
use gput.Packet.Wire.Parse.{parse_ipv4_tcp, scheduling_flow_key}
use gput.Packet.Wire.RoundTrip.{view_of_spec, build-parse}
use gput.Packet.Wire.Parse.Accepts.{
  Accepts, view_of, parse_ipv4_tcp-decides, scheduling_flow_key-parse,
}
use gput.Packet.Wire.Checksum.{checksum}
use gput.Packet.Wire.Checksum.Sums.{word_sum, checksum-eq-zero}
use gput.Packet.Wire.Validate.{Sound, validate_iff, validate_panics}
use gput.Packet.Tests.Data.{
  client_key, get_spec, get_packet, short_total_packet, get_packet-IsValid,
  short_total_packet-IsValid, get_spec-Fits, get_parsed,
}

build-parse_example :
    (packet : RawPacket) × (build_ipv4_tcp_packet get_spec ≡ ok packet)
    × Raw.IsValid packet
    × (validate_ipv4_tcp_checksums packet ≡ ok tt)
    × (parse_ipv4_tcp packet ≡ ok (some (view_of_spec get_spec)))
    × (scheduling_flow_key packet ≡ ok (some client_key))
build-parse_example = build-parse get_spec get_spec-Fits

parse_ipv4_tcp-decides_example :
    ((parse_ipv4_tcp get_packet ≡ ok none) × ¬ Accepts get_packet.bytes)
    ⊎ ((parse_ipv4_tcp get_packet ≡ ok (some (view_of get_packet.bytes)))
        × Accepts get_packet.bytes)
parse_ipv4_tcp-decides_example = parse_ipv4_tcp-decides get_packet

scheduling_flow_key-parse_example : scheduling_flow_key get_packet ≡ ok (some client_key)
scheduling_flow_key-parse_example =
    scheduling_flow_key-parse get_packet (view_of_spec get_spec) get_parsed

validate_iff_example : (validate_ipv4_tcp_checksums get_packet ≡ ok tt) ↔ Sound get_packet.bytes
validate_iff_example = validate_iff get_packet get_packet-IsValid

validate_panics_example : validate_ipv4_tcp_checksums short_total_packet ≡ panic
validate_panics_example =
    validate_panics short_total_packet short_total_packet-IsValid (omega arith) (omega arith)
      (omega arith) (omega arith) refl

checksum-eq-zero_example : (checksum (take 20 get_packet.bytes) ≡ 0) ↔ (
    (word_sum (take 20 get_packet.bytes) % 65535 ≡ 0) × (0 < word_sum (take 20 get_packet.bytes)))
checksum-eq-zero_example = checksum-eq-zero (take 20 get_packet.bytes) (omega arith) (omega arith)
