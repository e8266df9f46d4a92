-- ===== src/Packet/Cpu/Isolation.antt =====
-- The flows that `process_packet` of src/packet/cpu.rs leaves alone.

use gput.Base.{
  ◌≡◌, ◌≢◌, inl, inr, refl, ◌∙◌, Bool, true, false, not, ◌&&◌, Option, some, leb, ◌!=◌,
  if◌then◌else◌, Outcome, ok, err, panic, Bool-cases, Option-cases,
}
use gput.Packet.Raw.{RawPacket}
use gput.Packet.Wire.Header.{tcp_fin, tcp_syn, tcp_rst, tcp_ack, FlowKey, TcpPacketView}
use gput.Packet.Flow.{
  Flow, FlowTable, lookup, insert, remove, size, key_eq, key_eq_iff, lookup-insert, lookup-remove,
}
use gput.Packet.Config.{PacketEngineConfig}
use gput.Packet.Wire.Parse.{parse_ipv4_tcp}
use gput.Packet.Cpu.{
  Reply, has_flag, emit_then, is_none, process_syn, accept_ack, advance_unacked, process_empty,
  answered, process_request, is_empty, process_established, process_known, process_tcp,
  process_packet,
}

emit_then_table :
    (j : FlowKey) (found : Option Flow) (r : Outcome RawPacket) (written flows : FlowTable)
    → lookup j written ≡ found
    → lookup j flows ≡ found
    → lookup j (emit_then r written flows).1 ≡ found
emit_then_table j found (ok p) written flows h k = h
emit_then_table j found (err e) written flows h k = k
emit_then_table j found panic written flows h k = k

if_table :
    (j : FlowKey) (found : Option Flow) (b : Bool) (x y : FlowTable)
    → lookup j x ≡ found
    → lookup j y ≡ found
    → lookup j (if b then x else y) ≡ found
if_table j found true x y h k = h
if_table j found false x y h k = k

if_reply :
    (j : FlowKey) (found : Option Flow) (b : Bool) (x y : Reply)
    → lookup j x.1 ≡ found
    → lookup j y.1 ≡ found
    → lookup j ((if b then x else y).1) ≡ found
if_reply j found true x y h k = h
if_reply j found false x y h k = k

module _ (tcp : TcpPacketView) (j : FlowKey) (other : tcp.key ≢ j) where
  keys_differ : key_eq tcp.key j ≡ false
  keys_differ = elim (Bool-cases (key_eq tcp.key j)) [
    | inl same ↦ absurd (other ((key_eq_iff tcp.key j).0 same))
    | inr e ↦ e
  ]

  insert_other :
      (flow : Flow) (flows : FlowTable) → lookup j (insert tcp.key flow flows) ≡ lookup j flows
  insert_other flow flows = rw (lookup-insert, keys_differ)

  remove_other : (flows : FlowTable) → lookup j (remove tcp.key flows) ≡ lookup j flows
  remove_other flows = rw (lookup-remove, keys_differ)

  module _ (flows : FlowTable) where
    process_syn_other :
        (config : PacketEngineConfig) → lookup j (process_syn flows config tcp).1 ≡ lookup j flows
    unfolding process_syn
    process_syn_other config =
        if_reply j (lookup j flows)
          (is_none (lookup tcp.key flows) && leb config.flow_capacity (size flows)) _ _ refl
          (insert_other _ flows)

    process_empty_other : (flow : Flow) → lookup j (process_empty flows flow tcp).1 ≡ lookup j flows
    unfolding process_empty
    process_empty_other flow =
        if_reply j (lookup j flows) (not (has_flag tcp tcp_fin)) _ _ refl
          (emit_then_table j (lookup j flows) _ _ _ (remove_other flows) refl)

    process_request_other :
        (flow : Flow) → lookup j (process_request flows flow tcp).1 ≡ lookup j flows
    unfolding process_request
    process_request_other flow =
        let written = insert_other (answered flow tcp) flows in
        emit_then_table j (lookup j flows) _ _ _
          (if_table j (lookup j flows) (has_flag tcp tcp_fin) _ _ (remove_other _ ∙ written)
            written)
          written

  module _ (flows : FlowTable) where
    process_established_other :
        (flow : Flow) → lookup j (process_established flows flow tcp).1 ≡ lookup j flows
    unfolding process_established
    process_established_other flow =
        let written = insert_other flow flows in
        let flows' = insert tcp.key flow flows in
        if_reply j (lookup j flows) (tcp.seq != flow.recv_next) _ _ written (
          if_reply j (lookup j flows) (is_empty tcp.payload) _ _
            (process_empty_other flows' flow ∙ written)
            (process_request_other flows' flow ∙ written))

    process_known_other : (flow : Flow) → lookup j (process_known flows flow tcp).1 ≡ lookup j flows
    unfolding process_known
    process_known_other flow = elim (Option-cases (accept_ack flow tcp)) [
      | inl e ↦ rw (e, process_known)
      | inr (flow', e) ↦
          rw (e, process_known) (process_established_other (advance_unacked flow' tcp))
    ]

    process_tcp_other :
        (config : PacketEngineConfig) → lookup j (process_tcp flows config tcp).1 ≡ lookup j flows
    unfolding process_tcp
    process_tcp_other config =
        if_reply j (lookup j flows) (tcp.key.dst_port != config.listen_port) _ _ refl (
          if_reply j (lookup j flows) (has_flag tcp tcp_rst) _ _ (remove_other flows) (
            if_reply j (lookup j flows) (has_flag tcp tcp_syn && not (has_flag tcp tcp_ack)) _ _
              (process_syn_other flows config)
              (elim (Option-cases (lookup tcp.key flows)) [
                | inl e ↦ rw (e, process_tcp)
                | inr (flow, e) ↦ rw (e, process_tcp) (process_known_other flow)
              ])))

-- A packet that parses changes no flow but its own: the entry of any other key is what it was, on every path
-- through the engine.
pub process_packet-isolates :
    (flows : FlowTable) (config : PacketEngineConfig) (packet : RawPacket) (tcp : TcpPacketView)
    (j : FlowKey)
    → parse_ipv4_tcp packet ≡ ok (some tcp)
    → tcp.key ≢ j
    → lookup j (process_packet flows config packet).1 ≡ lookup j flows
unfolding process_packet
process_packet-isolates flows config packet tcp j h other =
    rw h (process_tcp_other tcp j other flows config)
