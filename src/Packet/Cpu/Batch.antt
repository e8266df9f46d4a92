-- ===== src/Packet/Cpu/Batch.antt =====
-- `CpuPacketEngine` of src/packet/cpu.rs: the engine's state and its batches.

use mathlib.Core.List.{append-nil, append_assoc}
use gput.Base.{
  ℕ, suc, ◌+◌, ◌%◌, ◌^◌, ◌≡◌, inl, inr, refl, ap, ◌∙◌, Bool, true, false, Option, none, some, List,
  [], ◌∷◌, ◌++◌, arith, if◌then◌else◌, length, All, Outcome, ok, err, panic, ◌>>◌, lock_poisoned,
}
use gput.Packet.Raw
use gput.Packet.Raw.{RawPacket, max_raw_packet_bytes, as_bytes, IsByte}
use gput.Packet.Wire.Header.{FlowKey}
use gput.Packet.Flow.{FlowTable, lookup-empty}
use gput.Packet.Config.{PacketEngineConfig, validate_config}
use gput.Packet.Cpu.{process_packet}
use gput.Packet.Cpu.Valid.{IsValid}
use gput.Packet.Cpu.Safety.{Answers, process_packet-Safe}

-- `poisoned` is the state of the mutex around the flows: set by a panic that holds it.
pub record CpuPacketEngine : Type 0 where
  pub config : PacketEngineConfig
  pub flows : FlowTable
  pub poisoned : Bool
  pub dispatches : ℕ
  pub packets : ℕ

-- `AtomicU64::fetch_add`.
abbrev pub add_u64 : ℕ → ℕ → ℕ
add_u64 a b = (a + b) % 2 ^ 64

unfoldable pub new : PacketEngineConfig → Outcome CpuPacketEngine
new config = do
  validate_config config
  ok (record { config = config; flows = []; poisoned = false; dispatches = 0; packets = 0 })

abbrev pub Output : Type 0
Output = List (Option RawPacket)

-- The loop over the packets: how it ends, the table and the output that it leaves.
unfoldable pub process_packets :
    PacketEngineConfig
    → List RawPacket
    → FlowTable
    → Output
    → Outcome (Unit {0}) × FlowTable × Output
process_packets config [] flows output = (ok tt, flows, output)
process_packets config (packet ∷ packets) flows output =
    let reply = process_packet flows config packet in
    elim reply.0 [
      | ok answer ↦ process_packets config packets reply.1 (output ++ answer ∷ [])
      | err e ↦ (err e, reply.1, output)
      | panic ↦ (panic, reply.1, output)
    ]

abbrev pub is_panic : Outcome (Unit {0}) → Bool
is_panic (ok u) = false
is_panic (err e) = false
is_panic panic = true

-- The counters are written before the lock is taken, and the output is cleared after it.
unfoldable pub process_batch_into :
    CpuPacketEngine → List RawPacket → Output → Outcome (Unit {0}) × CpuPacketEngine × Output
process_batch_into engine packets output =
    let counted = record engine {
      dispatches = add_u64 engine.dispatches 1;
      packets = add_u64 engine.packets (length packets);
    } in
    if engine.poisoned
    then (err lock_poisoned, counted, output)
    else (let (result, flows, output') = process_packets engine.config packets engine.flows [] in
        (result, record counted { flows = flows; poisoned = is_panic result }, output'))

process_packets-cons :
    (config : PacketEngineConfig) (p : RawPacket) (packets : List RawPacket) (flows : FlowTable)
    (output : Output) (answer : Option RawPacket)
    → (process_packet flows config p).0 ≡ ok answer
    → process_packets config (p ∷ packets) flows output
      ≡ process_packets config packets (process_packet flows config p).1 (output ++ answer ∷ [])
unfolding process_packets
process_packets-cons config p packets flows output answer e = rw (e, process_packets) refl

returns :
    {key : FlowKey} (result : Outcome (Option RawPacket))
    → Answers key result
    → (answer : Option RawPacket) × (result ≡ ok answer)
returns result (inl e) = (none, e)
returns result (inr (spec, same, emits)) = (some emits.packet, emits.sent)

-- What a packet leaves the loop with.
step_ok :
    {config : PacketEngineConfig} {flows : FlowTable}
    → IsValid config flows
    → (packet : RawPacket) → Raw.IsValid packet
    → ((answer : Option RawPacket) × ((process_packet flows config packet).0 ≡ ok answer))
      × IsValid config (process_packet flows config packet).1
step_ok v packet p = elim (process_packet-Safe v packet p) [
  | inl (e, _) ↦ rw e ((none, refl), v)
  | inr (tcp, _, safe) ↦ (returns _ safe.answers, safe.table)
]

-- How the loop ends on valid packets.
pub record Processed (config : PacketEngineConfig) (packets : List RawPacket) (output : Output)
    (result : Outcome (Unit {0}) × FlowTable × Output) : Type 0 where
  pub flows : FlowTable
  pub answers : Output
  pub returned : result ≡ (ok tt, flows, output ++ answers)
  pub aligned : length answers ≡ length packets
  pub table : IsValid config flows

process_packets-Processed :
    {config : PacketEngineConfig} (packets : List RawPacket) (flows : FlowTable) (output : Output)
    → IsValid config flows
    → All Raw.IsValid packets
    → Processed config packets output (process_packets config packets flows output)
unfolding process_packets
process_packets-Processed [] flows output v ps = record {
  flows = flows;
  answers = [];
  returned = rw (append-nil output) refl;
  aligned = refl;
  table = v;
}
process_packets-Processed {config} (p ∷ packets) flows output v (pv, ps) =
    let ((answer, e), w) = step_ok v p pv in
    let reply = process_packet flows config p in
    let rest = process_packets-Processed packets reply.1 (output ++ answer ∷ []) w ps in
    record {
      flows = rest.flows;
      answers = answer ∷ rest.answers;
      returned =
          process_packets-cons config p packets flows output answer e
          ∙ rest.returned
          ∙ ap (λ xs. (ok tt, rest.flows, xs)) (append_assoc output (answer ∷ []) rest.answers);
      aligned = ap suc rest.aligned;
      table = rest.table;
    }

-- What a batch leaves on an engine that no panic has poisoned.
pub record Batched (engine : CpuPacketEngine) (packets : List RawPacket)
    (result : Outcome (Unit {0}) × CpuPacketEngine × Output) : Type 0 where
  pub returned : result.0 ≡ ok tt
  pub aligned : length result.2 ≡ length packets
  pub table : IsValid engine.config result.1.flows
  pub config : result.1.config ≡ engine.config
  pub unpoisoned : result.1.poisoned ≡ false
  pub dispatches : result.1.dispatches ≡ add_u64 engine.dispatches 1
  pub counted : result.1.packets ≡ add_u64 engine.packets (length packets)

-- On an engine whose table is valid and whose mutex is not poisoned, a batch of valid packets
-- returns without an error, with as many outputs as packets, and leaves such an engine, its two
-- counters advanced; what the output held before does not matter.
pub process_batch_into-Batched :
    (engine : CpuPacketEngine) (packets : List RawPacket) (output : Output)
    → IsValid engine.config engine.flows
    → engine.poisoned ≡ false
    → All Raw.IsValid packets
    → Batched engine packets (process_batch_into engine packets output)
unfolding process_batch_into
process_batch_into-Batched engine packets output v clean ps =
    let done = process_packets-Processed packets engine.flows [] v ps in
    rw (clean, process_batch_into, done.returned)
      (record {
        returned = refl;
        aligned = done.aligned;
        table = done.table;
        config = refl;
        unpoisoned = refl;
        dispatches = refl;
        counted = refl;
      })

pub empty-IsValid : (config : PacketEngineConfig) → IsValid config []
empty-IsValid config = record {
  room = omega arith;
  each = λ key flow e. absurd (let n = lookup-empty key in cc);
}

-- A configuration that `new` accepts gives an engine with that configuration, a valid table, no
-- poisoned mutex and counters at 0.
pub new-IsValid :
    (config : PacketEngineConfig)
    → validate_config config ≡ ok tt
    → (engine : CpuPacketEngine) × (new config ≡ ok engine)
      × (engine.config ≡ config)
      × IsValid engine.config engine.flows
      × (engine.poisoned ≡ false)
unfolding new
new-IsValid config h = (
  record { config = config; flows = []; poisoned = false; dispatches = 0; packets = 0 },
  rw h refl,
  refl,
  empty-IsValid config,
  refl,
)
