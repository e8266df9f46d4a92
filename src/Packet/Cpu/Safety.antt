-- ===== src/Packet/Cpu/Safety.antt =====
-- What each branch of `process_packet` of src/packet/cpu.rs answers, and the table that it leaves.

use gput.Base.{
  ℕ, ◌^◌, ◌<◌, bit_or, ◌≡◌, ◌⊎◌, inl, inr, refl, Bool, true, false, not, ◌&&◌, Option, none, some,
  List, [], arith, leb, ◌==◌, ◌!=◌, if◌then◌else◌, length, Outcome, ok, Bool-cases, Option-cases,
  !=_iff,
}
use gput.Packet.Raw
use gput.Packet.Raw.{RawPacket, max_raw_packet_bytes, as_bytes, IsByte}
use gput.Packet.Wire.Header.{
  tcp_fin, tcp_syn, tcp_rst, tcp_psh, tcp_ack, FlowKey, TcpPacketView, TcpPacketSpec, add_u32,
  sub_u32,
}
use gput.Packet.Flow.{
  established, is_syn_received, LastResponse, Flow, FlowTable, lookup, insert, remove, size,
  key_eq_iff, lookup-insert, size-insert,
}
use gput.Packet.Http.{classify_http_request}
use gput.Packet.Config.{PacketEngineConfig}
use gput.Packet.Wire.Parse.{parse_ipv4_tcp}
use gput.Packet.Cpu.{
  cpu_response, reverse_key, emit, Reply, has_flag, some_packet, syn_flow, is_none, process_syn,
  accept_ack, advance_unacked, repeats, process_out_of_order, process_empty, next_ack_of, answered,
  process_request, is_empty, process_established, process_known, process_tcp, process_packet,
}
use gput.Packet.Wire.Parse.Accepts.{view_of, parse_ipv4_tcp-decides}
use gput.Packet.Cpu.Valid.{InRange, parse-InRange, LastInRange, LastIsValid, FlowIsValid, IsValid}
use gput.Packet.Cpu.Emits.{
  answer, Emits, Sendable, nothing-Sendable, response-Sendable, emit-Emits, emit_then-eq,
}
use gput.Packet.Cpu.Tables.{insert-IsValid, insert_known-IsValid, remove-IsValid}
use gput.Packet.Cpu.Flows.{
  syn_flow-FlowIsValid, accept_ack-FlowIsValid, advance_unacked-FlowIsValid, answered-FlowIsValid,
}

-- Silence, or a valid packet to the sender of `key`.
abbrev pub Answers : FlowKey → Outcome (Option RawPacket) → Type 0
Answers key result =
    (result ≡ ok none) ⊎ ((spec : TcpPacketSpec) × (spec.key ≡ reverse_key key) × Emits result spec)

pub record Safe (config : PacketEngineConfig) (key : FlowKey) (reply : Reply) : Type 0 where
  pub answers : Answers key reply.0
  pub table : IsValid config reply.1

repeats_of :
    (stored : Option LastResponse) (last : LastResponse) (tcp : TcpPacketView)
    → LastIsValid stored
    → repeats stored tcp ≡ some last
    → LastInRange last
repeats_of none last tcp v h = cc
repeats_of (some l) last tcp v h =
    elim (Bool-cases (tcp.seq == l.client_seq && length tcp.payload == l.client_len)) [
      | inl same ↦ let e : some l ≡ some last = rw same at h in let k : l ≡ last = cc in rw (← k) v
      | inr other ↦ (let e : none ≡ some last = rw other at h in cc)
    ]

silent :
    {config : PacketEngineConfig} {flows : FlowTable} {key : FlowKey}
    → IsValid config flows
    → Safe config key (ok none, flows)
silent v = record { answers = inl refl; table = v }

if-IsValid :
    {config : PacketEngineConfig} (b : Bool) (x y : FlowTable)
    → IsValid config x
    → IsValid config y
    → IsValid config (if b then x else y)
if-IsValid true x y v w = v
if-IsValid false x y v w = w

module _ {config : PacketEngineConfig} {flows : FlowTable} (valid : IsValid config flows)
    {tcp : TcpPacketView} (ranged : InRange tcp) where
  emits_answer :
      (seq ack flags : ℕ) (payload : List ℕ)
      → seq < 2 ^ 32
      → ack < 2 ^ 32
      → flags < 256
      → Sendable payload
      → Answers tcp.key (some_packet (emit tcp.key seq ack flags payload))
  emits_answer seq ack flags payload s a f p = inr (
    answer tcp.key seq ack flags payload,
    refl,
    emit-Emits tcp.key ranged.key seq ack flags payload s a f p,
  )

  process_syn-Safe :
      tcp.key.dst_port ≡ config.listen_port → Safe config tcp.key (process_syn flows config tcp)
  unfolding process_syn
  process_syn-Safe port =
      let old = lookup tcp.key flows in
      let flow = syn_flow old tcp in
      let v = syn_flow-FlowIsValid ranged old (λ f e. (valid.each tcp.key f e).0) in
      elim (Bool-cases (is_none old && leb config.flow_capacity (size flows))) [
        | inl full ↦ rw full (silent valid)
        | inr room ↦ rw room (record {
          answers =
              emits_answer
                (if is_syn_received flow.state then sub_u32 flow.send_next 1 else flow.send_next)
                flow.recv_next
                (if is_syn_received flow.state then bit_or tcp_syn tcp_ack else tcp_ack) []
                (ground (arith, v.send_next)) v.recv_next (ground arith) nothing-Sendable;
          table =
              insert-IsValid valid tcp.key flow v port
                (ground (arith, size-insert tcp.key flow flows, valid.room));
        })
      ]

  module _ (flow : Flow) (v : FlowIsValid tcp.key flow) where
    repeats-LastInRange :
        (last : LastResponse) → repeats flow.last_response tcp ≡ some last → LastInRange last
    repeats-LastInRange last h = repeats_of flow.last_response last tcp v.last h

    process_out_of_order-Answers : Answers tcp.key (process_out_of_order flow tcp)
    unfolding process_out_of_order
    process_out_of_order-Answers = elim (Option-cases (repeats flow.last_response tcp)) [
      | inr (last, e) ↦
          let l = repeats-LastInRange last e in
          rw (e, process_out_of_order)
            (emits_answer last.response_seq last.response_ack (bit_or tcp_ack tcp_psh)
              (cpu_response last.response_id) l.response_seq l.response_ack (omega arith)
              (response-Sendable last.response_id))
      | inl e ↦
          rw (e, process_out_of_order)
            (emits_answer flow.send_next flow.recv_next tcp_ack [] v.send_next v.recv_next
              (omega arith) nothing-Sendable)
    ]

  module _ (old flow : Flow) (known : lookup tcp.key flows ≡ some old)
      (v : FlowIsValid tcp.key flow) (est : flow.state ≡ established) where
    process_empty-Safe : Safe config tcp.key (process_empty flows flow tcp)
    unfolding process_empty
    process_empty-Safe = elim (Bool-cases (not (has_flag tcp tcp_fin))) [
      | inl plain ↦ rw plain (silent valid)
      | inr fin ↦
          let next = add_u32 tcp.seq 1 in
          rw
            (
              fin,
              emit_then-eq tcp.key ranged.key flow.send_next next tcp_ack [] v.send_next
                  (omega arith) (omega arith) nothing-Sendable (remove tcp.key flows) flows,
            )
            (record {
              answers =
                  emits_answer flow.send_next next tcp_ack [] v.send_next (omega arith)
                    (omega arith) nothing-Sendable;
              table = remove-IsValid valid tcp.key;
            })
    ]

    process_request-Safe : Safe config tcp.key (process_request flows flow tcp)
    unfolding process_request
    process_request-Safe =
        let id = classify_http_request tcp.payload in
        let written = insert tcp.key (answered flow tcp) flows in
        let next = next_ack_of tcp in
        let written_valid : IsValid config written =
          insert_known-IsValid valid tcp.key old (answered flow tcp) known
            (answered-FlowIsValid ranged flow v est) in
        rw
          (emit_then-eq tcp.key ranged.key flow.send_next next (bit_or tcp_ack tcp_psh)
            (cpu_response id) v.send_next (omega arith) (omega arith) (response-Sendable id)
            (if has_flag tcp tcp_fin then remove tcp.key written else written) written)
          (record {
            answers =
                emits_answer flow.send_next next (bit_or tcp_ack tcp_psh) (cpu_response id)
                  v.send_next (omega arith) (omega arith) (response-Sendable id);
            table =
                if-IsValid (has_flag tcp tcp_fin) (remove tcp.key written) written
                  (remove-IsValid written_valid tcp.key) written_valid;
          })

module _ {config : PacketEngineConfig} {flows : FlowTable} (valid : IsValid config flows)
    {tcp : TcpPacketView} (ranged : InRange tcp) (old : Flow)
    (known : lookup tcp.key flows ≡ some old) where
  insert_old : (flow : Flow) → lookup tcp.key (insert tcp.key flow flows) ≡ some flow
  insert_old flow = rw (lookup-insert, (key_eq_iff tcp.key tcp.key).1 refl)

  process_established-Safe :
      (flow : Flow)
      → FlowIsValid tcp.key flow
      → flow.state ≡ established
      → Safe config tcp.key (process_established flows flow tcp)
  unfolding process_established
  process_established-Safe flow v est =
      let written = insert tcp.key flow flows in
      let w = insert_known-IsValid valid tcp.key old flow known v in
      elim (Bool-cases (tcp.seq != flow.recv_next)) [
        | inl off ↦
            rw off (record { answers = process_out_of_order-Answers w ranged flow v; table = w })
        | inr on ↦ elim (Bool-cases (is_empty tcp.payload)) [
          | inl empty ↦
              rw (on, empty) (process_empty-Safe w ranged flow flow (insert_old flow) v est)
          | inr full ↦
              rw (on, full) (process_request-Safe w ranged flow flow (insert_old flow) v est)
        ]
      ]

  process_known-Safe : Safe config tcp.key (process_known flows old tcp)
  unfolding process_known
  process_known-Safe =
      let v = (valid.each tcp.key old known).0 in
      elim (Option-cases (accept_ack old tcp)) [
        | inl e ↦ rw (e, process_known) (silent valid)
        | inr (flow, e) ↦
            let (w, est) = accept_ack-FlowIsValid ranged old flow v e in
            let (x, est') = advance_unacked-FlowIsValid ranged flow w est in
            rw (e, process_known) (process_established-Safe (advance_unacked flow tcp) x est')
      ]

module _ {config : PacketEngineConfig} {flows : FlowTable} (valid : IsValid config flows) where
  pub process_tcp-Safe :
      (tcp : TcpPacketView) → InRange tcp → Safe config tcp.key (process_tcp flows config tcp)
  unfolding process_tcp
  process_tcp-Safe tcp ranged = elim (Bool-cases (tcp.key.dst_port != config.listen_port)) [
    | inl other ↦ rw other (silent valid)
    | inr mine ↦ elim (Bool-cases (has_flag tcp tcp_rst)) [
      | inl reset ↦ rw (mine, reset) (silent (remove-IsValid valid tcp.key))
      | inr b ↦ elim (Bool-cases (has_flag tcp tcp_syn && not (has_flag tcp tcp_ack))) [
        | inl syn ↦ rw (mine, b, syn) (process_syn-Safe valid ranged ((!=_iff _ _).0 mine))
        | inr c ↦ elim (Option-cases (lookup tcp.key flows)) [
          | inl e ↦ rw (mine, b, c, e, process_tcp) (silent valid)
          | inr (old, e) ↦ rw (mine, b, c, e, process_tcp) (process_known-Safe valid ranged old e)
        ]
      ]
    ]
  ]

  -- On a valid table no valid packet makes the engine fail: it is answered with nothing, or with
  -- one valid packet, its checksums correct, whose key is the reverse of the sender's, and the
  -- table stays valid: within its capacity, every flow on the listening port.
  pub process_packet-Safe :
      (packet : RawPacket)
      → Raw.IsValid packet
      → ((process_packet flows config packet ≡ (ok none, flows))
          × (parse_ipv4_tcp packet ≡ ok none))
        ⊎ ((tcp : TcpPacketView) × (parse_ipv4_tcp packet ≡ ok (some tcp))
            × Safe config tcp.key (process_packet flows config packet))
  unfolding process_packet
  process_packet-Safe packet v = elim (parse_ipv4_tcp-decides packet) [
    | inl (e, _) ↦ inl (rw e, e)
    | inr (e, _) ↦
        let tcp = view_of packet.bytes in
        inr (tcp, e, rw e (process_tcp-Safe tcp (parse-InRange packet tcp v e)))
  ]
