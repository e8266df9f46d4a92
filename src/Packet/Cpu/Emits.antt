-- ===== src/Packet/Cpu/Emits.antt =====
-- The packets that `emit` of src/packet/cpu.rs builds.

use gput.Base.{ℕ, ◌^◌, ◌≤◌, ◌<◌, ◌≡◌, Option, some, List, [], arith, length, All, Outcome, ok}
use gput.Packet.Raw
use gput.Packet.Raw.{RawPacket, max_raw_packet_bytes, as_bytes, IsByte}
use gput.Packet.Wire.Header.{FlowKey, TcpPacketSpec}
use gput.Packet.Flow.{FlowTable}
use gput.Packet.Wire.Build.{validate_ipv4_tcp_checksums}
use gput.Packet.Wire.Parse.{parse_ipv4_tcp}
use gput.Packet.Cpu.{cpu_response, reverse_key, emit, some_packet, emit_then}
use gput.Packet.Wire.RoundTrip.{KeyInRange, Fits, view_of_spec, build-parse}
use gput.Packet.Cpu.Valid.{cpu_response-sendable}

-- The segment that answers `key` with these fields.
abbrev pub answer : FlowKey → ℕ → ℕ → ℕ → List ℕ → TcpPacketSpec
answer key seq ack flags payload = record {
  key = reverse_key key;
  seq = seq;
  ack = ack;
  flags = flags;
  payload = payload;
}

-- The result is a valid packet with valid checksums, which parses to `spec`.
pub record Emits (result : Outcome (Option RawPacket)) (spec : TcpPacketSpec) : Type 0 where
  pub packet : RawPacket
  pub sent : result ≡ ok (some packet)
  pub valid : Raw.IsValid packet
  pub checked : validate_ipv4_tcp_checksums packet ≡ ok tt
  pub parsed : parse_ipv4_tcp packet ≡ ok (some (view_of_spec spec))

-- The payloads that the engine sends: none, or a response.
pub record Sendable (payload : List ℕ) : Type 0 where
  pub bytes : All IsByte payload
  pub short : length payload ≤ 1496

pub nothing-Sendable : Sendable []
nothing-Sendable = record { bytes = tt; short = omega arith }

pub response-Sendable : (id : ℕ) → Sendable (cpu_response id)
response-Sendable id = let h = cpu_response-sendable id in record { bytes = h.0; short = h.1 }

module _ (key : FlowKey) (ranged : KeyInRange key) (seq ack flags : ℕ) (payload : List ℕ)
    (s : seq < 2 ^ 32) (a : ack < 2 ^ 32) (f : flags < 256) (p : Sendable payload) where
  pub answer-Fits : Fits (answer key seq ack flags payload)
  answer-Fits = record {
    key = record {
      src_ip = ranged.dst_ip;
      dst_ip = ranged.src_ip;
      src_port = ranged.dst_port;
      dst_port = ranged.src_port;
    };
    seq = s;
    ack = a;
    flags = f;
    payload = p.bytes;
    short = p.short;
  }

  pub emit-Emits :
      Emits (some_packet (emit key seq ack flags payload)) (answer key seq ack flags payload)
  unfolding emit
  emit-Emits =
      let (packet, built, valid, checked, parsed, _) =
        build-parse (answer key seq ack flags payload) answer-Fits in
      record { packet = packet; sent = rw built; valid = valid; checked = checked; parsed = parsed }

  -- An emission never fails, so what follows it is always written.
  pub emit_then-eq :
      (written flows : FlowTable)
      → emit_then (emit key seq ack flags payload) written flows
        ≡ (some_packet (emit key seq ack flags payload), written)
  unfolding emit
  emit_then-eq written flows = rw (build-parse (answer key seq ack flags payload) answer-Fits).1
