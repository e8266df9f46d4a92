-- ===== src/Packet/Cpu/Steps.antt =====
-- The branches of `process_packet` of src/packet/cpu.rs as equations.

use gput.Base.{
  ◌^◌, ◌<◌, bit_or, ◌≡◌, ◌≢◌, inl, inr, refl, true, false, not, ◌&&◌, some, arith, ◌==◌, ◌!=◌,
  if◌then◌else◌, ok, Bool-cases, !=_iff, ne→!=,
}
use gput.Packet.Raw.{RawPacket}
use gput.Packet.Wire.Header.{tcp_fin, tcp_syn, tcp_rst, tcp_psh, tcp_ack, FlowKey, TcpPacketView}
use gput.Packet.Flow.{
  established, Flow, FlowTable, lookup, insert, remove, key_eq_iff, lookup-insert,
}
use gput.Packet.Http.{classify_http_request}
use gput.Packet.Config.{PacketEngineConfig}
use gput.Packet.Wire.Parse.{parse_ipv4_tcp}
use gput.Packet.Cpu.{
  cpu_response, emit, has_flag, some_packet, process_syn, accept_ack, advance_unacked,
  process_out_of_order, process_empty, next_ack_of, answered, process_request, is_empty,
  process_established, process_known, process_tcp, process_packet,
}
use gput.Packet.Cpu.Valid.{InRange}
use gput.Packet.Cpu.Emits.{response-Sendable, emit_then-eq}

pub process_packet-parsed :
    (flows : FlowTable) (config : PacketEngineConfig) (packet : RawPacket) (tcp : TcpPacketView)
    → parse_ipv4_tcp packet ≡ ok (some tcp)
    → process_packet flows config packet ≡ process_tcp flows config tcp
unfolding process_packet
process_packet-parsed flows config packet tcp h = rw h

pub lookup-insert_self :
    (key : FlowKey) (flow : Flow) (flows : FlowTable)
    → lookup key (insert key flow flows) ≡ some flow
lookup-insert_self key flow flows = rw (lookup-insert, (key_eq_iff key key).1 refl)

-- A segment for this server that is neither a reset nor the start of a connection.
pub record IsSegment (config : PacketEngineConfig) (tcp : TcpPacketView) : Type 0 where
  pub port : tcp.key.dst_port ≡ config.listen_port
  pub no_reset : has_flag tcp tcp_rst ≡ false
  pub no_syn : has_flag tcp tcp_syn && not (has_flag tcp tcp_ack) ≡ false

-- A SYN without an ACK, for this server.
pub record IsSyn (config : PacketEngineConfig) (tcp : TcpPacketView) : Type 0 where
  pub port : tcp.key.dst_port ≡ config.listen_port
  pub no_reset : has_flag tcp tcp_rst ≡ false
  pub syn : has_flag tcp tcp_syn ≡ true
  pub no_ack : has_flag tcp tcp_ack ≡ false

module _ (flows : FlowTable) (config : PacketEngineConfig) (tcp : TcpPacketView) where
  pub process_tcp-known :
      (flow : Flow)
      → IsSegment config tcp
      → lookup tcp.key flows ≡ some flow
      → process_tcp flows config tcp ≡ process_known flows flow tcp
  unfolding process_tcp
  process_tcp-known flow s known =
      rw ((!=_iff _ _).1 s.port, s.no_reset, s.no_syn, known, process_tcp)

  pub process_tcp-syn :
      IsSyn config tcp → process_tcp flows config tcp ≡ process_syn flows config tcp
  unfolding process_tcp
  process_tcp-syn s = rw ((!=_iff _ _).1 s.port, s.no_reset, s.syn, s.no_ack)

  pub process_known-established :
      (flow : Flow)
      → flow.state ≡ established
      → process_known flows flow tcp ≡ process_established flows (advance_unacked flow tcp) tcp
  unfolding process_known accept_ack
  process_known-established flow e = rw e

  pub process_established-in_order :
      (flow : Flow)
      → tcp.seq ≡ flow.recv_next
      → is_empty tcp.payload ≡ false
      → process_established flows flow tcp ≡ process_request (insert tcp.key flow flows) flow tcp
  unfolding process_established
  process_established-in_order flow e full = rw ((!=_iff _ _).1 e, full)

  pub process_established-empty :
      (flow : Flow)
      → tcp.seq ≡ flow.recv_next
      → is_empty tcp.payload ≡ true
      → process_established flows flow tcp ≡ process_empty (insert tcp.key flow flows) flow tcp
  unfolding process_established
  process_established-empty flow e empty = rw ((!=_iff _ _).1 e, empty)

  pub process_established-out_of_order :
      (flow : Flow)
      → tcp.seq ≢ flow.recv_next
      → process_established flows flow tcp
        ≡ (process_out_of_order flow tcp, insert tcp.key flow flows)
  unfolding process_established
  process_established-out_of_order flow e = rw (ne→!= tcp.seq flow.recv_next e)

-- The answer to a request is always sent, and the flow is written.
pub process_request-eq :
    (flows : FlowTable) (flow : Flow) (tcp : TcpPacketView)
    → InRange tcp
    → flow.send_next < 2 ^ 32
    → let written = insert tcp.key (answered flow tcp) flows in
      process_request flows flow tcp ≡ (
        some_packet (
            emit tcp.key flow.send_next
              (next_ack_of tcp)
              (bit_or tcp_ack tcp_psh)
              (cpu_response (classify_http_request tcp.payload))),
        if has_flag tcp tcp_fin then remove tcp.key written else written,
      )
unfolding process_request
process_request-eq flows flow tcp ranged s =
    let id = classify_http_request tcp.payload in
    let written = insert tcp.key (answered flow tcp) flows in
    emit_then-eq tcp.key ranged.key flow.send_next (next_ack_of tcp) (bit_or tcp_ack tcp_psh)
      (cpu_response id) s (omega arith) (omega arith) (response-Sendable id)
      (if has_flag tcp tcp_fin then remove tcp.key written else written) written

-- What `advance_unacked` leaves alone.
pub record SameBut (flow flow' : Flow) : Type 0 where
  pub state : flow'.state ≡ flow.state
  pub recv_next : flow'.recv_next ≡ flow.recv_next
  pub send_next : flow'.send_next ≡ flow.send_next
  pub last_response : flow'.last_response ≡ flow.last_response

pub advance_unacked-SameBut :
    (flow : Flow) (tcp : TcpPacketView) → SameBut flow (advance_unacked flow tcp)
unfolding advance_unacked
advance_unacked-SameBut flow tcp =
    elim (Bool-cases
      (has_flag tcp tcp_ack && tcp.ack == flow.send_next && tcp.ack != flow.send_unacked)) [
        | inl moves ↦
            rw moves
              (record { state = refl; recv_next = refl; send_next = refl; last_response = refl })
        | inr stays ↦
            rw stays
              (record { state = refl; recv_next = refl; send_next = refl; last_response = refl })
      ]
