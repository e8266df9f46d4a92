-- ===== src/Packet/Cpu/Handshake.antt =====
-- A SYN and the acknowledgement of its answer, in src/packet/cpu.rs.

use gput.Base.{
  ◌≤◌, ◌<◌, bit_or, ◌≡◌, refl, ap, ◌∙◌, true, false, none, some, [], arith, ok, ==_iff, !=_self,
  !=_iff, le→leb, lt→leb,
}
use gput.Packet.Wire.Header.{tcp_fin, tcp_syn, tcp_ack, TcpPacketView, add_u32, sub_u32}
use gput.Packet.Flow.{Flow, FlowTable, lookup, insert, size}
use gput.Packet.Config.{PacketEngineConfig}
use gput.Packet.Cpu.{
  emit, has_flag, some_packet, server_isn, fresh_flow, syn_flow, process_syn, accept_ack,
  advance_unacked, process_empty, is_empty, process_established, process_known, process_tcp,
}
use gput.Packet.Cpu.Valid.{InRange, server_isn-lt}
use gput.Packet.Cpu.Emits.{answer, Emits, nothing-Sendable, emit-Emits}
use gput.Packet.Cpu.Flows.{opened_flow}
use gput.Packet.Cpu.Steps.{
  lookup-insert_self, IsSegment, IsSyn, process_tcp-known, process_tcp-syn,
  process_established-empty,
}

-- The third segment of a handshake that `syn` began.
pub record Completes (config : PacketEngineConfig) (syn tcp : TcpPacketView) : Type 0 where
  pub key : tcp.key ≡ syn.key
  pub segment : IsSegment config tcp
  pub ack_flag : has_flag tcp tcp_ack ≡ true
  pub no_fin : has_flag tcp tcp_fin ≡ false
  pub seq : tcp.seq ≡ add_u32 syn.seq 1
  pub ack : tcp.ack ≡ add_u32 (server_isn syn.key) 1
  pub payload : tcp.payload ≡ []

module _ {config : PacketEngineConfig} (flows : FlowTable) {syn : TcpPacketView}
    (ranged : InRange syn) (start : IsSyn config syn) (absent : lookup syn.key flows ≡ none) where
  -- With no room for a new flow the SYN is dropped, and nothing changes.
  pub syn_dropped :
      config.flow_capacity ≤ size flows → process_tcp flows config syn ≡ (ok none, flows)
  syn_dropped full =
      process_tcp-syn flows config syn start
      ∙ (unfold process_syn in rw (absent, le→leb config.flow_capacity (size flows) full))

  module _ (room : size flows < config.flow_capacity) where
    process_syn-fresh : process_syn flows config syn ≡ (
      some_packet (
          emit syn.key
            (sub_u32 (add_u32 (server_isn syn.key) 1) 1)
            (add_u32 syn.seq 1)
            (bit_or tcp_syn tcp_ack)
            []),
      insert syn.key (fresh_flow syn) flows,
    )
    unfolding process_syn syn_flow
    process_syn-fresh = rw (absent, lt→leb config.flow_capacity (size flows) room)

    isn_back : sub_u32 (add_u32 (server_isn syn.key) 1) 1 ≡ server_isn syn.key
    isn_back = omega (arith, server_isn-lt syn.key)

    -- If the table has room, a SYN of a new flow, its fields in range, is answered by a SYN and ACK with the server's initial sequence number
    -- and the client's next one, and the flow waits for its acknowledgement.
    pub syn_answered :
        Emits
          (process_tcp flows config syn).0
          (answer syn.key (server_isn syn.key) (add_u32 syn.seq 1) (bit_or tcp_syn tcp_ack) [])
        × ((process_tcp flows config syn).1 ≡ insert syn.key (fresh_flow syn) flows)
    syn_answered =
        rw (process_tcp-syn flows config syn start, process_syn-fresh, isn_back)
          (
            emit-Emits syn.key ranged.key (server_isn syn.key) (add_u32 syn.seq 1)
                (bit_or tcp_syn tcp_ack) [] (server_isn-lt syn.key) (omega arith) (omega arith)
                nothing-Sendable,
            refl,
          )

    module _ {tcp : TcpPacketView} (c : Completes config syn tcp) where
      accept-Completes : accept_ack (fresh_flow syn) tcp ≡ some (opened_flow (fresh_flow syn) tcp)
      unfolding accept_ack
      accept-Completes = rw (c.ack_flag, (!=_iff _ _).1 c.ack, (!=_iff _ _).1 c.seq)

      advance-Completes :
          advance_unacked (opened_flow (fresh_flow syn) tcp) tcp ≡ opened_flow (fresh_flow syn) tcp
      unfolding advance_unacked
      advance-Completes = rw (c.ack_flag, (==_iff _ _).1 c.ack, !=_self tcp.ack)

      process_known-Completes :
          (t : FlowTable)
          → process_known t (fresh_flow syn) tcp
            ≡ (ok none, insert tcp.key (opened_flow (fresh_flow syn) tcp) t)
      process_known-Completes t =
          let flow = opened_flow (fresh_flow syn) tcp in
          let accepted : process_known t (fresh_flow syn) tcp
              ≡ process_established t (advance_unacked flow tcp) tcp =
            (unfold process_known in rw (accept-Completes, process_known)) in
          accepted
          ∙ ap (λ (f : Flow). process_established t f tcp) advance-Completes
          ∙ process_established-empty t config tcp flow c.seq (ap is_empty c.payload)
          ∙ (unfold process_empty in rw c.no_fin)

      -- If the table has room for the flow of a SYN, the acknowledgement of the answer to that SYN,
      -- without data and without a FIN, opens the flow, and nothing is sent.
      pub handshake :
          let t = process_tcp (process_tcp flows config syn).1 config tcp in
          (t.0 ≡ ok none) × (lookup syn.key t.1 ≡ some (opened_flow (fresh_flow syn) tcp))
      handshake =
          let flow = opened_flow (fresh_flow syn) tcp in
          let t = insert syn.key (fresh_flow syn) flows in
          let there : lookup tcp.key t ≡ some (fresh_flow syn) =
            rw c.key (lookup-insert_self syn.key (fresh_flow syn) flows) in
          let ends : process_tcp t config tcp ≡ (ok none, insert tcp.key flow t) =
            process_tcp-known t config tcp (fresh_flow syn) c.segment there
            ∙ process_known-Completes t in
          rw (syn_answered.1, ends) (refl, rw c.key (lookup-insert_self syn.key flow t))
