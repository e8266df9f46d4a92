-- ===== src/Packet/Cpu/Flows.antt =====
-- The flows that the steps of `process_packet` of src/packet/cpu.rs compute.

use gput.Base.{
  ◌≡◌, ◌⊎◌, inl, inr, refl, true, not, ◌&&◌, ◌||◌, Option, none, some, arith, ◌==◌, ◌!=◌,
  Bool-cases,
}
use gput.Packet.Wire.Header.{tcp_ack, TcpPacketView, add_u32}
use gput.Packet.Flow.{FlowState, syn_received, established, is_syn_received, Flow}
use gput.Packet.Cpu.{has_flag, fresh_flow, syn_flow, accept_ack, advance_unacked, answered}
use gput.Packet.Cpu.Valid.{InRange, server_isn-lt, FlowIsValid}

pub FlowState-cases : (s : FlowState) → (s ≡ syn_received) ⊎ (s ≡ established)
FlowState-cases syn_received = inl refl
FlowState-cases established = inr refl

abbrev pub opened_flow : Flow → TcpPacketView → Flow
opened_flow flow tcp = record flow { state = established; send_unacked = tcp.ack }

-- The three ends of the handshake test.
pub data Accepted (flow : Flow) (tcp : TcpPacketView) : Type 0 where
  dropped : accept_ack flow tcp ≡ none → Accepted flow tcp
  opened :
      flow.state ≡ syn_received
      → has_flag tcp tcp_ack ≡ true
      → tcp.ack ≡ flow.send_next
      → tcp.seq ≡ flow.recv_next
      → accept_ack flow tcp ≡ some (opened_flow flow tcp)
      → Accepted flow tcp
  already : flow.state ≡ established → accept_ack flow tcp ≡ some flow → Accepted flow tcp

pub accept_ack-Accepted : (flow : Flow) (tcp : TcpPacketView) → Accepted flow tcp
unfolding accept_ack
accept_ack-Accepted flow tcp = elim (FlowState-cases flow.state) [
  | inr e ↦ already e (rw e)
  | inl e ↦
      elim (Bool-cases
        (not (has_flag tcp tcp_ack) || tcp.ack != flow.send_next || tcp.seq != flow.recv_next)) [
          | inl bad ↦ dropped (rw (e, bad))
          | inr good ↦ opened e (ground arith) (ground arith) (ground arith) (rw (e, good))
        ]
]

module _ {tcp : TcpPacketView} (ranged : InRange tcp) where
  fresh_flow-FlowIsValid : FlowIsValid tcp.key (fresh_flow tcp)
  fresh_flow-FlowIsValid = record {
    recv_next = omega arith;
    send_next = omega arith;
    send_unacked = server_isn-lt tcp.key;
    last = tt;
    handshake = λ _. record { send_next = refl; send_unacked = refl; last_response = refl };
  }

  pub syn_flow-FlowIsValid :
      (old : Option Flow)
      → ((flow : Flow) → old ≡ some flow → FlowIsValid tcp.key flow)
      → FlowIsValid tcp.key (syn_flow old tcp)
  unfolding syn_flow
  syn_flow-FlowIsValid none h = fresh_flow-FlowIsValid
  syn_flow-FlowIsValid (some flow) h =
      let v = h flow refl in
      elim (Bool-cases (is_syn_received flow.state && flow.recv_next != add_u32 tcp.seq 1)) [
        | inl restart ↦ rw restart (record {
          recv_next = omega arith;
          send_next = omega arith;
          send_unacked = server_isn-lt tcp.key;
          last = tt;
          handshake = λ _. record { send_next = refl; send_unacked = refl; last_response = refl };
        })
        | inr keep ↦ rw keep v
      ]

  pub accept_ack-FlowIsValid :
      (flow flow' : Flow)
      → FlowIsValid tcp.key flow
      → accept_ack flow tcp ≡ some flow'
      → FlowIsValid tcp.key flow' × (flow'.state ≡ established)
  accept_ack-FlowIsValid flow flow' v h = elim (accept_ack-Accepted flow tcp) [
    | dropped e ↦ cc
    | opened was _ _ _ e ↦
        let same : opened_flow flow tcp ≡ flow' = cc in
        rw (← same) (
          record {
            recv_next = v.recv_next;
            send_next = v.send_next;
            send_unacked = ranged.ack;
            last = v.last;
            handshake = λ k. cc;
          },
          refl,
        )
    | already was e ↦ let same : flow ≡ flow' = cc in rw (← same) (v, was)
  ]

  pub advance_unacked-FlowIsValid :
      (flow : Flow)
      → FlowIsValid tcp.key flow
      → flow.state ≡ established
      → FlowIsValid tcp.key (advance_unacked flow tcp)
        × ((advance_unacked flow tcp).state ≡ established)
  unfolding advance_unacked
  advance_unacked-FlowIsValid flow v e =
      elim (Bool-cases
        (has_flag tcp tcp_ack && tcp.ack == flow.send_next && tcp.ack != flow.send_unacked)) [
          | inl moves ↦ rw moves (
            record {
              recv_next = v.recv_next;
              send_next = v.send_next;
              send_unacked = ranged.ack;
              last = v.last;
              handshake = λ k. cc;
            },
            e,
          )
          | inr stays ↦ rw stays (v, e)
        ]

  pub answered-FlowIsValid :
      (flow : Flow)
      → FlowIsValid tcp.key flow
      → flow.state ≡ established
      → FlowIsValid tcp.key (answered flow tcp)
  answered-FlowIsValid flow v e = record {
    recv_next = omega arith;
    send_next = omega arith;
    send_unacked = v.send_unacked;
    last = record { response_seq = v.send_next; response_ack = omega arith };
    handshake = λ h. cc;
  }
