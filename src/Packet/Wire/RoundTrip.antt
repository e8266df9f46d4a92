-- ===== src/Packet/Wire/RoundTrip.antt =====
-- Building, validating and parsing a packet, src/packet/wire.rs.

use gput.Base.{
  ℕ, ◌+◌, ◌-◌, ◌%◌, ◌^◌, ◌≤◌, ◌<◌, ◌≡◌, refl, true, some, List, [], arith, length, take, drop, All,
  ok, err, ipv4_tcp_too_large, lt→ltb, le→leb, lt→leb, take-length_self, All-append,
}
use gput.Packet.Raw
use gput.Packet.Raw.{RawPacket, max_raw_packet_bytes, as_bytes, IsByte}
use gput.Packet.Wire.Header.{FlowKey, TcpPacketView, TcpPacketSpec}
use gput.Packet.Wire.Header.Reads.{word_at, long_at}
use gput.Packet.Wire.Checksum.{fold_checksum, checksum, tcp_checksum}
use gput.Packet.Wire.Checksum.Sums.{
  word_sum, skip_sum, checksum-completes, fold_checksum-completes, skip_sum-after,
}
use gput.Packet.Wire.Checksum.Segment.{pseudo_sum, tcp_checksum-eq}
use gput.Packet.Wire.Build.{build_ipv4_tcp_packet, validate_ipv4_tcp_checksums}
use gput.Packet.Wire.Build.Layout.{ip_cells, tcp_cells, fill_packet-eq, write_checksums-eq}
use gput.Packet.Wire.Parse.{parse_ipv4_tcp, scheduling_flow_key}
use gput.Packet.Wire.Parse.Accepts.{
  Accepts, view_of, key_of, parse_ipv4_tcp-of_Accepts, scheduling_flow_key-parse,
}
use gput.Packet.Wire.Validate.{Sound, segment_total, validate_iff}

pub record KeyInRange (key : FlowKey) : Type 0 where
  pub src_ip : key.src_ip < 2 ^ 32
  pub dst_ip : key.dst_ip < 2 ^ 32
  pub src_port : key.src_port < 2 ^ 16
  pub dst_port : key.dst_port < 2 ^ 16

-- The ranges of the spec's integer types, and a payload that fits the packet slot.
pub record Fits (spec : TcpPacketSpec) : Type 0 where
  pub key : KeyInRange spec.key
  pub seq : spec.seq < 2 ^ 32
  pub ack : spec.ack < 2 ^ 32
  pub flags : spec.flags < 256
  pub payload : All IsByte spec.payload
  pub short : length spec.payload ≤ 1496

abbrev pub view_of_spec : TcpPacketSpec → TcpPacketView
view_of_spec spec = record {
  key = spec.key;
  seq = spec.seq;
  ack = spec.ack;
  flags = spec.flags;
  payload = spec.payload;
}

module _ (spec : TcpPacketSpec) where
  abbrev pub total_len : ℕ
  total_len = 40 + length spec.payload

  abbrev pub header_checksum : ℕ
  header_checksum = checksum (ip_cells spec total_len 0 [])

  abbrev pub unsummed : List ℕ
  unsummed = ip_cells spec total_len header_checksum (tcp_cells spec 0 spec.payload)

  abbrev pub partial_total : ℕ
  partial_total =
      pseudo_sum unsummed (length unsummed - 20) + skip_sum 0 (tcp_cells spec 0 spec.payload)

  abbrev pub built : List ℕ
  built =
      ip_cells spec total_len header_checksum
        (tcp_cells spec (fold_checksum partial_total) spec.payload)

  module _ (fits : Fits spec) where
    header_checksum-lt : header_checksum < 2 ^ 16
    unfolding checksum
    header_checksum-lt = (fold_checksum-completes _).2

    ip_cells-IsByte : (c : ℕ) → c < 2 ^ 16 → All IsByte (ip_cells spec total_len c [])
    ip_cells-IsByte c h = omega (arith, fits.key)

    tcp_cells-IsByte : (c : ℕ) → c < 2 ^ 16 → All IsByte (tcp_cells spec c [])
    tcp_cells-IsByte c h = omega (arith, fits.key)

    cells-IsByte :
        (c d : ℕ)
        → c < 2 ^ 16
        → d < 2 ^ 16
        → All IsByte (ip_cells spec total_len c (tcp_cells spec d spec.payload))
    cells-IsByte c d h k =
        All-append IsByte (ip_cells spec total_len c []) (tcp_cells spec d spec.payload)
          (ip_cells-IsByte c h)
          (All-append IsByte (tcp_cells spec d []) spec.payload (tcp_cells-IsByte d k) fits.payload)

    unsummed_checksum : tcp_checksum unsummed 20 true ≡ ok (fold_checksum partial_total)
    unsummed_checksum =
        let ranged = cells-IsByte header_checksum 0 header_checksum-lt (omega arith) in
        tcp_checksum-eq unsummed 20 ranged true (omega arith) (omega (arith, fits.short))
          (omega arith)

    pub build-built : build_ipv4_tcp_packet spec ≡ ok (record { bytes = built })
    unfolding build_ipv4_tcp_packet Raw.new
    build-built =
        let short = fits.short in
        rw (
          lt→ltb total_len (2 ^ 64) (omega arith),
          le→leb total_len max_raw_packet_bytes (omega arith),
          le→leb total_len 0xffff (omega arith),
          fill_packet-eq spec,
          write_checksums-eq spec total_len (fold_checksum partial_total) unsummed_checksum,
          lt→ltb 0 (length built) (omega arith),
          le→leb (length built) max_raw_packet_bytes (omega arith),
        )

    built-IsValid : Raw.IsValid (record { bytes = built })
    built-IsValid = record {
      nonempty = omega arith;
      fits = omega (arith, fits.short);
      in_range =
          cells-IsByte header_checksum (fold_checksum partial_total) header_checksum-lt
            (fold_checksum-completes _).2;
    }

    total-built : word_at built 2 ≡ length built
    total-built = omega (arith, fits.short)

    take-built : take (word_at built 2) built ≡ built
    take-built = rw total-built (take-length_self built)

    header_sum-built : word_sum (take 20 built) % 65535 ≡ 0
    header_sum-built =
        let cells = ip_cells spec total_len 0 [] in
        let c = checksum-completes cells (ip_cells-IsByte 0 (omega arith)) (omega arith) in
        omega (arith, c.0, c.1)

    partial_total-built :
        pseudo_sum built (length built - 20) + word_sum (drop 20 built)
        ≡ partial_total + fold_checksum partial_total
    partial_total-built =
        let c = (fold_checksum-completes partial_total).2 in
        omega (arith, c, skip_sum-after spec.payload 10 (omega arith))

    segment_total-built : segment_total built % 65535 ≡ 0
    segment_total-built =
        rw take-built (rw partial_total-built (fold_checksum-completes partial_total).0)

    built-Sound : Sound built
    built-Sound = record {
      long = omega arith;
      header_long = omega arith;
      header_inside = omega (arith, total-built);
      total_inside = omega (arith, total-built);
      header_sum = header_sum-built;
      segment_sum = segment_total-built;
    }

    total-built_eq : word_at built 2 ≡ total_len
    total-built_eq = omega (arith, fits.short)

    built-Accepts : Accepts built
    built-Accepts = record {
      starts = record { long = omega arith; version = refl; protocol = refl };
      ip_header = omega arith;
      tcp_inside = omega arith;
      unfragmented = refl;
      total_long = omega (arith, total-built);
      total_inside = omega (arith, total-built);
      tcp_header = omega arith;
      headers_inside = omega (arith, total-built);
    }

    key-built : key_of built 20 ≡ spec.key
    key-built =
        let src : long_at built 12 ≡ spec.key.src_ip = omega arith in
        let dst : long_at built 16 ≡ spec.key.dst_ip = omega arith in
        let sport : word_at built 20 ≡ spec.key.src_port = omega arith in
        let dport : word_at built 22 ≡ spec.key.dst_port = omega arith in
        λ i. record { src_ip = src i; dst_ip = dst i; src_port = sport i; dst_port = dport i }

    payload-built : take (word_at built 2 - 40) (drop 40 built) ≡ spec.payload
    payload-built =
        let n : word_at built 2 - 40 ≡ length spec.payload = omega (arith, total-built_eq) in
        rw n (take-length_self spec.payload)

    view-built : view_of built ≡ view_of_spec spec
    view-built =
        let seq : long_at built 24 ≡ spec.seq = omega (arith, fits.seq) in
        let ack : long_at built 28 ≡ spec.ack = omega (arith, fits.ack) in
        λ i. record {
          key = key-built i;
          seq = seq i;
          ack = ack i;
          flags = spec.flags;
          payload = payload-built i;
        }

    -- A packet built from fields in range, with a payload that fits, is valid and passes the
    -- checksum validation, the parser returns exactly the fields and the payload it was built
    -- from, and the scheduler reads its flow key.
    pub build-parse :
        (packet : RawPacket) × (build_ipv4_tcp_packet spec ≡ ok packet)
        × Raw.IsValid packet
        × (validate_ipv4_tcp_checksums packet ≡ ok tt)
        × (parse_ipv4_tcp packet ≡ ok (some (view_of_spec spec)))
        × (scheduling_flow_key packet ≡ ok (some spec.key))
    build-parse =
        let packet : RawPacket = record { bytes = built } in
        let parsed : parse_ipv4_tcp packet ≡ ok (some (view_of_spec spec)) =
          rw (parse_ipv4_tcp-of_Accepts packet built-Accepts, view-built) in
        (
          packet,
          build-built,
          built-IsValid,
          (validate_iff packet built-IsValid).1 built-Sound,
          parsed,
          scheduling_flow_key-parse packet (view_of_spec spec) parsed,
        )

  -- A payload of more than 1496 bytes is refused before anything is written.
  pub build_too_large :
      1496 < length spec.payload
      → length spec.payload + 40 < 2 ^ 64
      → build_ipv4_tcp_packet spec ≡ err ipv4_tcp_too_large
  unfolding build_ipv4_tcp_packet
  build_too_large long small =
      rw (
        lt→ltb total_len (2 ^ 64) (omega arith),
        lt→leb total_len max_raw_packet_bytes (omega arith),
      )
