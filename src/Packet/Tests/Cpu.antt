-- ===== src/Packet/Tests/Cpu.antt =====
-- Theorems about src/packet/cpu.rs at concrete inputs.

use gput.Base.{bit_or, ◌≡◌, ◌⊎◌, refl, ap, false, none, some, [], ◌∷◌, arith, ok}
use gput.Base.Text.{codes}
use gput.Packet.Wire.Header.{tcp_syn, tcp_ack, FlowKey, TcpPacketView, add_u32}
use gput.Packet.Flow.{established, Flow, FlowTable, lookup, insert}
use gput.Packet.Wire.Parse.{parse_ipv4_tcp}
use gput.Packet.Cpu.{server_isn, fresh_flow, process_tcp, process_packet}
use gput.Packet.Cpu.Valid.{InRange}
use gput.Packet.Cpu.Safety.{Safe, process_packet-Safe}
use gput.Packet.Cpu.Steps.{IsSyn}
use gput.Packet.Cpu.Isolation.{process_packet-isolates}
use gput.Packet.Cpu.Handshake.{handshake, syn_answered}
use gput.Packet.Cpu.Conversation.{IsRequest, Served, request_again, request_answered}
use gput.Packet.Cpu.Served.{Line, IsLine}
use gput.Packet.Cpu.Batch.{CpuPacketEngine, process_batch_into, process_batch_into-Batched}
use gput.Packet.Tests.Data.{
  client_key, get_packet, syn_packet, get_packet-IsValid, syn_packet-IsValid, client_key-KeyInRange,
  syn_view, syn_parsed,
}
use gput.Packet.Flow.{lookup-empty}
use gput.Packet.Cpu.Batch.{Batched, empty-IsValid}
use gput.Packet.Config.{default_config}
use gput.Packet.Cpu.Steps.{lookup-insert_self}
use gput.Packet.Cpu.Emits.{Emits, answer}
use gput.Packet.Cpu.Flows.{opened_flow}

abbrev ack_view : TcpPacketView
ack_view = record {
  key = client_key;
  seq = 124;
  ack = add_u32 (server_isn client_key) 1;
  flags = 0x10;
  payload = [];
}

abbrev request_view : TcpPacketView
request_view = record {
  key = client_key;
  seq = 124;
  ack = 457;
  flags = 0x18;
  payload = codes "GET /health HTTP/1.1\r\n\r\n";
}

abbrev other_key : FlowKey
other_key = record client_key { src_port = 50001 }

abbrev open_flow : Flow
open_flow = record {
  state = established;
  recv_next = 124;
  send_next = 457;
  send_unacked = 457;
  last_response = none;
}

syn_view-IsSyn : IsSyn default_config syn_view
syn_view-IsSyn = record { port = refl; no_reset = refl; syn = refl; no_ack = refl }

syn_view-InRange : InRange syn_view
syn_view-InRange = record {
  key = client_key-KeyInRange;
  seq = omega arith;
  ack = omega arith;
  flags = omega arith;
  payload = tt;
  short = omega arith;
}

request_view-InRange : InRange request_view
request_view-InRange = record {
  key = client_key-KeyInRange;
  seq = omega arith;
  ack = omega arith;
  flags = omega arith;
  payload = omega arith;
  short = omega arith;
}

process_packet-Safe_example :
    ((process_packet [] default_config syn_packet ≡ (ok none, []))
      × (parse_ipv4_tcp syn_packet ≡ ok none))
    ⊎ ((tcp : TcpPacketView) × (parse_ipv4_tcp syn_packet ≡ ok (some tcp))
        × Safe default_config tcp.key (process_packet [] default_config syn_packet))
process_packet-Safe_example =
    process_packet-Safe (empty-IsValid default_config) syn_packet syn_packet-IsValid

process_packet-isolates_example :
    lookup other_key (process_packet ((other_key, open_flow) ∷ []) default_config syn_packet).1
    ≡ lookup other_key ((other_key, open_flow) ∷ [])
process_packet-isolates_example =
    process_packet-isolates ((other_key, open_flow) ∷ []) default_config syn_packet syn_view
      other_key syn_parsed
      (λ e. let n : 50000 ≡ 50001 = ap (λ (k : FlowKey). k.src_port) e in omega arith)

syn_answered_example :
    Emits
      (process_tcp [] default_config syn_view).0
      (answer client_key (server_isn client_key) 124 (bit_or tcp_syn tcp_ack) [])
    × ((process_tcp [] default_config syn_view).1 ≡ insert client_key (fresh_flow syn_view) [])
syn_answered_example =
    syn_answered [] syn_view-InRange syn_view-IsSyn (lookup-empty client_key) (omega arith)

handshake_example :
    let t = process_tcp (process_tcp [] default_config syn_view).1 default_config ack_view in
    (t.0 ≡ ok none) × (lookup client_key t.1 ≡ some (opened_flow (fresh_flow syn_view) ack_view))
handshake_example =
    handshake [] syn_view-InRange syn_view-IsSyn (lookup-empty client_key) (omega arith) (record {
      key = refl;
      segment = record { port = refl; no_reset = refl; no_syn = refl };
      ack_flag = refl;
      no_fin = refl;
      seq = refl;
      ack = refl;
      payload = refl;
    })

abbrev open_table : FlowTable
open_table = insert client_key open_flow []

request_view-IsRequest : IsRequest default_config open_table open_flow request_view
request_view-IsRequest = record {
  segment = record { port = refl; no_reset = refl; no_syn = refl };
  known = lookup-insert_self client_key open_flow [];
  open_flow = refl;
  in_order = refl;
  payload = refl;
  no_fin = refl;
}

request_again_example :
    (process_tcp
      (process_tcp open_table default_config request_view).1
      default_config
      request_view).0
    ≡ (process_tcp open_table default_config request_view).0
request_again_example = request_again request_view-InRange (omega arith) request_view-IsRequest

abbrev health_line : Line
health_line = record {
  method = codes "GET";
  path = codes "/health";
  query = none;
  version = codes "HTTP/1.1";
}

health_line-IsLine : IsLine health_line
health_line-IsLine = record {
  method_word = ground arith;
  target_word = ground arith;
  version_word = ground arith;
  no_mark = ground arith;
  no_return = ground arith;
}

request_answered_example :
    Served open_flow request_view health_line (process_tcp open_table default_config request_view)
request_answered_example =
    request_answered request_view-InRange (omega arith) request_view-IsRequest health_line
      (13 ∷ 10 ∷ []) health_line-IsLine refl

abbrev engine : CpuPacketEngine
engine = record {
  config = default_config;
  flows = [];
  poisoned = false;
  dispatches = 0;
  packets = 0;
}

process_batch_into-Batched_example :
    Batched engine
      (syn_packet ∷ get_packet ∷ [])
      (process_batch_into engine (syn_packet ∷ get_packet ∷ []) [])
process_batch_into-Batched_example =
    process_batch_into-Batched engine (syn_packet ∷ get_packet ∷ []) []
      (empty-IsValid default_config) refl (syn_packet-IsValid, (get_packet-IsValid, tt))
