-- ===== src/Packet/Cpu.antt =====
-- `CpuPacketEngine` of src/packet/cpu.rs. Each function that takes `&mut flows` returns the table
-- beside its result, since what was written before an error stays written.
pub mod Valid
pub mod Emits
pub mod Batch
pub mod Isolation
pub mod Handshake
pub mod Conversation
pub mod Served
pub mod Steps
pub mod Safety
pub mod Flows
pub mod Tables
use mathlib.Core.Logic.{dite, dif_pos, dif_neg}
use mathlib.Core.WellFounded.{Acc}
use gput.Base.{
  ℕ, zero, suc, ◌+◌, ◌-◌, ◌*◌, ◌/◌, ◌%◌, ◌^◌, ◌≤◌, ◌<◌, bit_and, bit_or, bit_xor, min, max, ◌≡◌,
  ◌≢◌, ◌↔◌, ◌⊎◌, inl, inr, refl, sym, ap, ◌∙◌, Bool, true, false, not, ◌&&◌, ◌||◌, Option, none,
  some, List, [], ◌∷◌, ◌++◌, map, arith, dec_lt, dec_le, ltb, leb, ◌==◌, ◌!=◌, if◌then◌else◌,
  length, replicate, take, drop, All, get_or, get_elem?, set, Outcome, Error, ok, err, panic, ◌>>=◌,
  ◌>>◌, ensure, index, slice, store, copy_at, ipv4_tcp_too_large, ipv4_length_limit,
  packet_too_small, bad_header_length, total_length_exceeds, bad_ipv4_checksum, bad_tcp_checksum,
  packet_empty, packet_too_large, Bool-cases, Option-cases, ==_self, ==_iff, !=_self, lt→ltb,
  le→ltb, le→leb, lt→leb, ltb→lt, length-append, length-set, length-take, length-drop,
  length-replicate, take-length_self, take-append_left, drop-append_left, take-append-drop,
  replicate-add, All-append, All-take, All-drop, index-get_or, store-set, slice-eq_ok,
}
use gput.Base.Order.{lt_wf}
use gput.Base.Bits.{bit_and_0xffff, bit_and_0x0f, bit_or-byte, bit_and_mask, bit_and-zero}
use gput.Base.Text.{codes, bytes_eq, bytes_eq_iff, starts_with, find_window, split_on, overwrite}
use gput.Packet.Raw
use gput.Packet.Raw.{RawPacket, max_raw_packet_bytes, as_bytes, IsByte}
use gput.Packet.Wire.Header.{
  tcp_fin, tcp_syn, tcp_rst, tcp_psh, tcp_ack, FlowKey, TcpPacketView, TcpPacketSpec, add_u32,
  sub_u32, mul_u32, read_u16, read_u32, write_u16, write_u32, be_bytes_u16, be_bytes_u32,
}
use gput.Packet.Flow.{
  FlowState, syn_received, established, is_syn_received, LastResponse, Flow, FlowTable, lookup,
  insert, remove, size, key_eq, key_eq_iff, lookup-insert, lookup-remove, size-insert,
  size-remove-le,
}
use gput.Packet.Http.{
  packet_responses, packet_response, response_or_bad, classify_http_request,
  max_response_packet_bytes,
}
use gput.Packet.Config.{PacketEngineConfig, validate_config}
use gput.Packet.Wire.Build.{build_ipv4_tcp_packet, validate_ipv4_tcp_checksums}
use gput.Packet.Wire.Parse.{parse_ipv4_tcp, flow_hash, scheduling_flow_key}

-- `cpu_response`: the table of responses with the backend's name overwritten.
unfoldable pub patch_response : List ℕ → List ℕ
patch_response response = elim (find_window (codes "gpu-packet") response) [
  | some offset ↦ overwrite response offset (codes "cpu-packet")
  | none ↦ response
]

unfoldable pub cpu_response : ℕ → List ℕ
cpu_response response_id = response_or_bad (map patch_response packet_responses) response_id

abbrev pub reverse_key : FlowKey → FlowKey
reverse_key key = record {
  src_ip = key.dst_ip;
  dst_ip = key.src_ip;
  src_port = key.dst_port;
  dst_port = key.src_port;
}

unfoldable pub emit : FlowKey → ℕ → ℕ → ℕ → List ℕ → Outcome RawPacket
emit key seq ack flags payload =
    build_ipv4_tcp_packet
      (record { key = reverse_key key; seq = seq; ack = ack; flags = flags; payload = payload })

-- What `process_packet` returns, and the table as it leaves it.
abbrev pub Reply : Type 0
Reply = Outcome (Option RawPacket) × FlowTable

abbrev pub has_flag : TcpPacketView → ℕ → Bool
has_flag tcp flag = bit_and tcp.flags flag != 0

-- `emit(..).map(Some)`.
abbrev pub some_packet : Outcome RawPacket → Outcome (Option RawPacket)
some_packet result = result >>= λ packet. ok (some packet)

-- `let output = emit(..)?; <write flows>; Ok(Some(output))`.
abbrev pub emit_then : Outcome RawPacket → FlowTable → FlowTable → Reply
emit_then (ok packet) written flows = (ok (some packet), written)
emit_then (err e) written flows = (err e, flows)
emit_then panic written flows = (panic, flows)

unfoldable pub server_isn : FlowKey → ℕ
server_isn key = bit_xor (flow_hash key) 0xa5a55a5a

abbrev pub fresh_flow : TcpPacketView → Flow
fresh_flow tcp = record {
  state = syn_received;
  recv_next = add_u32 tcp.seq 1;
  send_next = add_u32 (server_isn tcp.key) 1;
  send_unacked = server_isn tcp.key;
  last_response = none;
}

-- A SYN at an entry that is still in its handshake restarts it if the sequence number differs.
unfoldable pub syn_flow : Option Flow → TcpPacketView → Flow
syn_flow none tcp = fresh_flow tcp
syn_flow (some flow) tcp =
    if is_syn_received flow.state && flow.recv_next != add_u32 tcp.seq 1
    then (record flow {
      recv_next = add_u32 tcp.seq 1;
      send_next = add_u32 (server_isn tcp.key) 1;
      send_unacked = server_isn tcp.key;
      last_response = none;
    })
    else flow

abbrev pub is_none : Option Flow → Bool
is_none none = true
is_none (some flow) = false

-- The branch for a SYN without an ACK.
unfoldable pub process_syn : FlowTable → PacketEngineConfig → TcpPacketView → Reply
process_syn flows config tcp =
    if is_none (lookup tcp.key flows) && leb config.flow_capacity (size flows)
    then (ok none, flows)
    else (let flow = syn_flow (lookup tcp.key flows) tcp in
        let sequence =
          if is_syn_received flow.state then sub_u32 flow.send_next 1 else flow.send_next in
        let flags = if is_syn_received flow.state then bit_or tcp_syn tcp_ack else tcp_ack in
        (some_packet (emit tcp.key sequence flow.recv_next flags []), insert tcp.key flow flows))

-- The handshake's last step: `none` where the packet is dropped.
unfoldable pub accept_ack : Flow → TcpPacketView → Option Flow
accept_ack flow tcp =
    if is_syn_received flow.state
    then if not (has_flag tcp tcp_ack) || tcp.ack != flow.send_next || tcp.seq != flow.recv_next
      then none
      else some (record flow { state = established; send_unacked = tcp.ack })
    else some flow

unfoldable pub advance_unacked : Flow → TcpPacketView → Flow
advance_unacked flow tcp =
    if has_flag tcp tcp_ack && tcp.ack == flow.send_next && tcp.ack != flow.send_unacked
    then (record flow { send_unacked = tcp.ack })
    else flow

-- `tcp.seq == last.client_seq && tcp.payload.len() == last.client_len`.
abbrev pub repeats : Option LastResponse → TcpPacketView → Option LastResponse
repeats none tcp = none
repeats (some last) tcp =
    if tcp.seq == last.client_seq && length tcp.payload == last.client_len then some last else none

-- The branch for `tcp.seq != flow.recv_next`: the last response once more, or a plain ACK.
unfoldable pub process_out_of_order : Flow → TcpPacketView → Outcome (Option RawPacket)
process_out_of_order flow tcp = elim (repeats flow.last_response tcp) [
  | some last ↦ some_packet (
      emit tcp.key last.response_seq last.response_ack (bit_or tcp_ack tcp_psh)
        (cpu_response last.response_id))
  | none ↦ some_packet (emit tcp.key flow.send_next flow.recv_next tcp_ack [])
]

-- The branch for an empty payload.
unfoldable pub process_empty : FlowTable → Flow → TcpPacketView → Reply
process_empty flows flow tcp =
    if not (has_flag tcp tcp_fin)
    then (ok none, flows)
    else emit_then (emit tcp.key flow.send_next (add_u32 tcp.seq 1) tcp_ack [])
        (remove tcp.key flows) flows

abbrev pub next_ack_of : TcpPacketView → ℕ
next_ack_of tcp =
    add_u32 (add_u32 tcp.seq (length tcp.payload % 2 ^ 32)) (if has_flag tcp tcp_fin then 1 else 0)

-- The flow after a request was answered.
abbrev pub answered : Flow → TcpPacketView → Flow
answered flow tcp =
    let response_id = classify_http_request tcp.payload in
    record flow {
      recv_next = next_ack_of tcp;
      send_next = add_u32 flow.send_next (length (cpu_response response_id) % 2 ^ 32);
      last_response = some (record {
        client_seq = tcp.seq;
        client_len = length tcp.payload;
        response_seq = flow.send_next;
        response_ack = next_ack_of tcp;
        response_id = response_id;
      });
    }

-- The branch for a payload in order.
unfoldable pub process_request : FlowTable → Flow → TcpPacketView → Reply
process_request flows flow tcp =
    let response = cpu_response (classify_http_request tcp.payload) in
    let written = insert tcp.key (answered flow tcp) flows in
    emit_then (emit tcp.key flow.send_next (next_ack_of tcp) (bit_or tcp_ack tcp_psh) response)
      (if has_flag tcp tcp_fin then remove tcp.key written else written) written

abbrev pub is_empty : List ℕ → Bool
is_empty [] = true
is_empty (x ∷ xs) = false

-- From the acknowledgement on; the flow's changes are in the table from here.
unfoldable pub process_established : FlowTable → Flow → TcpPacketView → Reply
process_established flows flow tcp =
    let flows' = insert tcp.key flow flows in
    if tcp.seq != flow.recv_next
    then (process_out_of_order flow tcp, flows')
    else if is_empty tcp.payload
    then process_empty flows' flow tcp
    else process_request flows' flow tcp

unfoldable pub process_known : FlowTable → Flow → TcpPacketView → Reply
process_known flows flow tcp = elim (accept_ack flow tcp) [
  | none ↦ (ok none, flows)
  | some flow' ↦ process_established flows (advance_unacked flow' tcp) tcp
]

unfoldable pub process_tcp : FlowTable → PacketEngineConfig → TcpPacketView → Reply
process_tcp flows config tcp =
    if tcp.key.dst_port != config.listen_port
    then (ok none, flows)
    else if has_flag tcp tcp_rst
    then (ok none, remove tcp.key flows)
    else if has_flag tcp tcp_syn && not (has_flag tcp tcp_ack)
    then process_syn flows config tcp
    else elim (lookup tcp.key flows) [
      | none ↦ (ok none, flows)
      | some flow ↦ process_known flows flow tcp
    ]

abbrev pub process_parsed : FlowTable → PacketEngineConfig → Outcome (Option TcpPacketView) → Reply
process_parsed flows config (ok none) = (ok none, flows)
process_parsed flows config (ok (some tcp)) = process_tcp flows config tcp
process_parsed flows config (err e) = (err e, flows)
process_parsed flows config panic = (panic, flows)

unfoldable pub process_packet : FlowTable → PacketEngineConfig → RawPacket → Reply
process_packet flows config packet = process_parsed flows config (parse_ipv4_tcp packet)
