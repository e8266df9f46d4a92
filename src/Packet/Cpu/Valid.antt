-- ===== src/Packet/Cpu/Valid.antt =====
-- The ranges of parsed packets, responses and flows of src/packet/cpu.rs.

use gput.Base.{
  ℕ, zero, suc, ◌+◌, ◌-◌, ◌^◌, ◌≤◌, ◌<◌, ◌≡◌, inl, inr, refl, Bool, true, ◌&&◌, Option, none, some,
  List, [], ◌∷◌, map, arith, leb, length, drop, All, get_or, get_elem?, ok, Option-cases,
  length-take, All-take, All-drop,
}
use gput.Base.Text.{find_window, overwrite, all_bytes}
use gput.Packet.Raw
use gput.Packet.Raw.{RawPacket, max_raw_packet_bytes, as_bytes, IsByte}
use gput.Packet.Wire.Header.{FlowKey, TcpPacketView, add_u32}
use gput.Packet.Flow.{syn_received, LastResponse, Flow, FlowTable, lookup, size}
use gput.Packet.Http.{packet_responses, response_or_bad}
use gput.Packet.Config.{PacketEngineConfig}
use gput.Packet.Wire.Parse.{parse_ipv4_tcp, flow_hash}
use gput.Packet.Cpu.{patch_response, cpu_response, server_isn}
use gput.Packet.Wire.RoundTrip.{KeyInRange}
use gput.Packet.Wire.Parse.Accepts.{
  Accepts, view_of, ip_header_len, tcp_header_len, parse_ipv4_tcp-Accepts,
}
use gput.Packet.Wire.Header.Reads.{word_at, byte_at-lt, word_at-lt, long_at-lt}
use gput.Base.Xor.{bit_xor-lt}

-- The ranges of the integer types of a view, and a payload from within a packet slot.
pub record InRange (tcp : TcpPacketView) : Type 0 where
  pub key : KeyInRange tcp.key
  pub seq : tcp.seq < 2 ^ 32
  pub ack : tcp.ack < 2 ^ 32
  pub flags : tcp.flags < 256
  pub payload : All IsByte tcp.payload
  pub short : length tcp.payload ≤ 1496

view_of-InRange :
    (bytes : List ℕ)
    → All IsByte bytes
    → length bytes ≤ 1536
    → Accepts bytes
    → InRange (view_of bytes)
view_of-InRange bytes h short a =
    let ihl = ip_header_len bytes in
    let start = ihl + tcp_header_len bytes in
    let total = word_at bytes 2 in
    record {
      key = record {
        src_ip = long_at-lt bytes 12 h;
        dst_ip = long_at-lt bytes 16 h;
        src_port = word_at-lt bytes ihl h;
        dst_port = word_at-lt bytes (ihl + 2) h;
      };
      seq = long_at-lt bytes (ihl + 4) h;
      ack = long_at-lt bytes (ihl + 8) h;
      flags = byte_at-lt bytes (ihl + 13) h;
      payload = All-take IsByte (total - start) (drop start bytes) (All-drop IsByte start bytes h);
      short = omega (
        arith,
        length-take (total - start) (drop start bytes),
        a.total_inside,
        a.ip_header,
        a.tcp_header,
      );
    }

pub parse-InRange :
    (packet : RawPacket) (tcp : TcpPacketView)
    → Raw.IsValid packet
    → parse_ipv4_tcp packet ≡ ok (some tcp)
    → InRange tcp
parse-InRange packet tcp v h =
    let (a, same) = parse_ipv4_tcp-Accepts packet tcp h in
    rw same (view_of-InRange packet.bytes v.in_range v.fits a)

-- Over bytes that are all written out, by evaluation.
abbrev sendable : List ℕ → Bool
sendable response = all_bytes response && leb (length response) 1496

abbrev all_sendable : List (List ℕ) → Bool
all_sendable [] = true
all_sendable (response ∷ responses) = sendable response && all_sendable responses

cpu_responses_sendable : all_sendable (map patch_response packet_responses) ≡ true
unfolding patch_response packet_responses find_window overwrite
cpu_responses_sendable = refl

all_bytes_sound : (xs : List ℕ) → all_bytes xs ≡ true → All IsByte xs
all_bytes_sound [] h = tt
all_bytes_sound (x ∷ xs) h = (ground arith, all_bytes_sound xs (ground arith))

get_elem?-sendable :
    (responses : List (List ℕ)) (i : ℕ) (response : List ℕ)
    → all_sendable responses ≡ true
    → get_elem? responses i ≡ some response
    → sendable response ≡ true
get_elem?-sendable [] i response h e = cc
get_elem?-sendable (r ∷ responses) zero response h e = ground arith
get_elem?-sendable (r ∷ responses) (suc i) response h e =
    get_elem?-sendable responses i response (ground arith) e

get_or-sendable :
    (responses : List (List ℕ)) (i : ℕ)
    → all_sendable responses ≡ true
    → sendable (get_or responses i []) ≡ true
get_or-sendable [] i h = refl
get_or-sendable (r ∷ responses) zero h = ground arith
get_or-sendable (r ∷ responses) (suc i) h = get_or-sendable responses i (ground arith)

response_or_bad-sendable :
    (responses : List (List ℕ)) (i : ℕ)
    → all_sendable responses ≡ true
    → sendable (response_or_bad responses i) ≡ true
response_or_bad-sendable responses i h = elim (Option-cases (get_elem? responses i)) [
  | inl e ↦ rw (e, response_or_bad) (get_or-sendable responses 2 h)
  | inr (response, e) ↦ rw (e, response_or_bad) (get_elem?-sendable responses i response h e)
]

pub cpu_response-sendable :
    (id : ℕ) → All IsByte (cpu_response id) × (length (cpu_response id) ≤ 1496)
unfolding cpu_response
cpu_response-sendable id =
    let good =
      response_or_bad-sendable (map patch_response packet_responses) id cpu_responses_sendable in
    let response = response_or_bad (map patch_response packet_responses) id in
    (all_bytes_sound response (ground arith), ground arith)

pub server_isn-lt : (key : FlowKey) → server_isn key < 2 ^ 32
unfolding server_isn flow_hash
server_isn-lt key = bit_xor-lt 32 (flow_hash key) 0xa5a55a5a (omega arith) (omega arith)

pub record LastInRange (last : LastResponse) : Type 0 where
  pub response_seq : last.response_seq < 2 ^ 32
  pub response_ack : last.response_ack < 2 ^ 32

abbrev pub LastIsValid : Option LastResponse → Type 0
LastIsValid none = Unit
LastIsValid (some last) = LastInRange last

-- Until the handshake ends, nothing was sent but the SYN, and nothing was acknowledged.
pub record InHandshake (key : FlowKey) (flow : Flow) : Type 0 where
  pub send_next : flow.send_next ≡ add_u32 (server_isn key) 1
  pub send_unacked : flow.send_unacked ≡ server_isn key
  pub last_response : flow.last_response ≡ none

pub record FlowIsValid (key : FlowKey) (flow : Flow) : Type 0 where
  pub recv_next : flow.recv_next < 2 ^ 32
  pub send_next : flow.send_next < 2 ^ 32
  pub send_unacked : flow.send_unacked < 2 ^ 32
  pub last : LastIsValid flow.last_response
  pub handshake : flow.state ≡ syn_received → InHandshake key flow

pub record IsValid (config : PacketEngineConfig) (flows : FlowTable) : Type 0 where
  pub room : size flows ≤ config.flow_capacity
  pub each :
      (key : FlowKey) (flow : Flow)
      → lookup key flows ≡ some flow
      → FlowIsValid key flow × (key.dst_port ≡ config.listen_port)
