-- ===== src/Packet/Cpu/Conversation.antt =====
-- Requests on an open flow and their repetition, in src/packet/cpu.rs.

use gput.Base.{
  ℕ, ◌+◌, ◌%◌, ◌^◌, ◌<◌, bit_or, ◌≡◌, ◌≢◌, refl, sym, ap, subst, ◌∙◌, Bool, false, Option, some,
  List, [], ◌∷◌, ◌++◌, arith, if◌then◌else◌, length, Outcome, ==_self,
}
use gput.Packet.Raw.{RawPacket}
use gput.Packet.Wire.Header.{tcp_fin, tcp_psh, tcp_ack, TcpPacketView, add_u32}
use gput.Packet.Flow.{established, LastResponse, Flow, FlowTable, lookup, insert, remove}
use gput.Packet.Http.{classify_http_request}
use gput.Packet.Config.{PacketEngineConfig}
use gput.Packet.Cpu.{
  cpu_response, emit, Reply, has_flag, some_packet, advance_unacked, repeats, process_out_of_order,
  next_ack_of, answered, is_empty, process_tcp,
}
use gput.Packet.Cpu.Valid.{InRange}
use gput.Packet.Cpu.Served.{Line, IsLine, line_text, Responds, classify_http_request-Responds}
use gput.Packet.Cpu.Emits.{answer, Emits, response-Sendable, emit-Emits}
use gput.Packet.Cpu.Steps.{
  lookup-insert_self, IsSegment, process_tcp-known, process_known-established,
  process_established-in_order, process_established-out_of_order, process_request-eq,
  advance_unacked-SameBut,
}

nonempty-length : (xs : List ℕ) → is_empty xs ≡ false → 0 < length xs
nonempty-length [] h = cc
nonempty-length (x ∷ xs) h = omega arith

-- A request in order on an open connection, which does not close it.
pub record IsRequest (config : PacketEngineConfig) (flows : FlowTable) (flow : Flow)
    (tcp : TcpPacketView) : Type 0 where
  pub segment : IsSegment config tcp
  pub known : lookup tcp.key flows ≡ some flow
  pub open_flow : flow.state ≡ established
  pub in_order : tcp.seq ≡ flow.recv_next
  pub payload : is_empty tcp.payload ≡ false
  pub no_fin : has_flag tcp tcp_fin ≡ false

module _ (flow : Flow) (tcp : TcpPacketView) where
  -- The flow after `response` was sent for the request.
  pub record Recorded (response : List ℕ) (after_it : Flow) : Type 0 where
    pub state : after_it.state ≡ established
    pub recv_next : after_it.recv_next ≡ (tcp.seq + length tcp.payload) % 2 ^ 32
    pub send_next : after_it.send_next ≡ (flow.send_next + length response) % 2 ^ 32
    pub last : LastResponse
    pub remembered : after_it.last_response ≡ some last
    pub client_seq : last.client_seq ≡ tcp.seq
    pub client_len : last.client_len ≡ length tcp.payload
    pub response_seq : last.response_seq ≡ flow.send_next
    pub response_ack : last.response_ack ≡ (tcp.seq + length tcp.payload) % 2 ^ 32
    pub response_kept : cpu_response last.response_id ≡ response

  -- The response to the line, sent and recorded.
  pub record Served (line : Line) (result : Reply) : Type 0 where
    pub response : List ℕ
    pub responds : Responds line response
    pub emits :
        Emits result.0
          (answer tcp.key flow.send_next ((tcp.seq + length tcp.payload) % 2 ^ 32) 0x18 response)
    pub after_it : Flow
    pub entry : lookup tcp.key result.1 ≡ some after_it
    pub recorded : Recorded response after_it

module _ {config : PacketEngineConfig} {flows : FlowTable} {flow : Flow} {tcp : TcpPacketView}
    (ranged : InRange tcp) (send : flow.send_next < 2 ^ 32)
    (req : IsRequest config flows flow tcp) where
  current : Flow
  current = advance_unacked flow tcp

  abbrev after : FlowTable
  after =
      insert tcp.key (answered (advance_unacked flow tcp) tcp)
        (insert tcp.key (advance_unacked flow tcp) flows)

  abbrev response_packet : Outcome (Option RawPacket)
  response_packet = some_packet (
      emit tcp.key (advance_unacked flow tcp).send_next (next_ack_of tcp) (bit_or tcp_ack tcp_psh)
        (cpu_response (classify_http_request tcp.payload)))

  process_tcp-request : process_tcp flows config tcp ≡ (response_packet, after)
  process_tcp-request =
      let flow' = advance_unacked flow tcp in
      let same = advance_unacked-SameBut flow tcp in
      process_tcp-known flows config tcp flow req.segment req.known
      ∙ process_known-established flows config tcp flow req.open_flow
      ∙ process_established-in_order flows config tcp flow' (req.in_order ∙ sym same.recv_next)
          req.payload
      ∙ process_request-eq (insert tcp.key flow' flows) flow' tcp ranged (rw same.send_next send)
      ∙ ap (λ (b : Bool). (response_packet, if b then remove tcp.key after else after)) req.no_fin

  next_ack : next_ack_of tcp ≡ (tcp.seq + length tcp.payload) % 2 ^ 32
  next_ack =
      let b = ranged.short in
      let f : next_ack_of tcp ≡ add_u32 (add_u32 tcp.seq (length tcp.payload % 2 ^ 32)) 0 =
        ap
          (λ (b : Bool).
            add_u32 (add_u32 tcp.seq (length tcp.payload % 2 ^ 32)) (if b then 1 else 0))
          req.no_fin in
      omega arith

  moved : tcp.seq ≢ next_ack_of tcp
  moved = λ e.
      let n = nonempty-length tcp.payload req.payload in
      let b = ranged.short in let s = ranged.seq in omega (arith, next_ack)

  out_of_order-answered :
      (g : Flow)
      → g.last_response ≡ (answered current tcp).last_response
      → process_out_of_order g tcp ≡ response_packet
  unfolding process_out_of_order current
  out_of_order-answered g e =
      let again : repeats g.last_response tcp ≡ (answered current tcp).last_response =
        ap (λ (o : Option LastResponse). repeats o tcp) e
        ∙ (rw (==_self tcp.seq, ==_self (length tcp.payload))) in
      rw (again, process_out_of_order)

  process_tcp-again : (process_tcp after config tcp).0 ≡ response_packet
  unfolding current
  process_tcp-again =
      let flow' = advance_unacked flow tcp in
      let g = answered flow' tcp in
      let g' = advance_unacked g tcp in
      let same = advance_unacked-SameBut flow tcp in
      let same' = advance_unacked-SameBut g tcp in
      let there : lookup tcp.key after ≡ some g =
        lookup-insert_self tcp.key g (insert tcp.key flow' flows) in
      ap (λ (r : Reply). r.0)
        (process_tcp-known after config tcp g req.segment there
          ∙ process_known-established after config tcp g (same.state ∙ req.open_flow)
          ∙ process_established-out_of_order after config tcp g' (λ e. moved (e ∙ same'.recv_next)))
      ∙ out_of_order-answered g' same'.last_response

  -- A request in order on an established flow, without a FIN and with its fields in the range of
  -- their types, is answered by the same packet, byte for byte, when it arrives again.
  pub request_again :
      (process_tcp (process_tcp flows config tcp).1 config tcp).0 ≡ (process_tcp flows config tcp).0
  request_again =
      ap (λ (r : Reply). (process_tcp r.1 config tcp).0) process_tcp-request
      ∙ process_tcp-again
      ∙ sym (ap (λ (r : Reply). r.0) process_tcp-request)

  response_recorded :
      Emits (process_tcp flows config tcp).0 (
        answer tcp.key flow.send_next
          (next_ack_of tcp)
          (bit_or tcp_ack tcp_psh)
          (cpu_response (classify_http_request tcp.payload)))
      × (lookup tcp.key (process_tcp flows config tcp).1
          ≡ some (answered (advance_unacked flow tcp) tcp))
  response_recorded =
      let flow' = advance_unacked flow tcp in
      let id = classify_http_request tcp.payload in
      let same = advance_unacked-SameBut flow tcp in
      rw (process_tcp-request, same.send_next)
        (
          emit-Emits tcp.key ranged.key flow.send_next (next_ack_of tcp) (bit_or tcp_ack tcp_psh)
              (cpu_response id) send (omega arith) (omega arith) (response-Sendable id),
          lookup-insert_self tcp.key _ _,
        )

  -- A request in order on an established flow, without a FIN and with its fields in the range of
  -- their types, whose payload begins with a line of a method, a target and a version: it is answered
  -- by a valid packet with ACK and PSH that carries the response to that line, written out for each
  -- kind of line, at the flow's next sequence number and acknowledging the request to its end. The
  -- flow then expects the byte behind the request, sends behind the response, and keeps what a
  -- repetition needs.
  pub request_answered :
      (line : Line) (rest : List ℕ)
      → IsLine line
      → tcp.payload ≡ line_text line ++ 13 ∷ 10 ∷ rest
      → Served flow tcp line (process_tcp flows config tcp)
  request_answered line rest is_line starts =
      let (emits, entry) = response_recorded in
      let same = advance_unacked-SameBut flow tcp in
      let response = cpu_response (classify_http_request tcp.payload) in
      let responds = classify_http_request-Responds line rest is_line in
      let sendable = response-Sendable (classify_http_request tcp.payload) in
      record {
        response = response;
        responds =
            subst (λ p. Responds line (cpu_response (classify_http_request p))) (sym starts)
              responds;
        emits =
            subst
              (λ n.
                Emits (process_tcp flows config tcp).0
                  (answer tcp.key flow.send_next n 0x18 response))
              next_ack emits;
        after_it = answered (advance_unacked flow tcp) tcp;
        entry = entry;
        recorded = record {
          state = same.state ∙ req.open_flow;
          recv_next = next_ack;
          send_next = omega (arith, same.send_next, sendable.short);
          last = _;
          remembered = refl;
          client_seq = refl;
          client_len = refl;
          response_seq = same.send_next;
          response_ack = next_ack;
          response_kept = refl;
        };
      }
