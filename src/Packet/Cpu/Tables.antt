-- ===== src/Packet/Cpu/Tables.antt =====
-- Validity of the table of flows, of src/packet/cpu.rs, under insertion and removal.

use gput.Base.{◌≤◌, ◌≡◌, inl, inr, none, some, arith, Bool-cases}
use gput.Packet.Wire.Header.{FlowKey}
use gput.Packet.Flow.{
  Flow, FlowTable, lookup, insert, remove, size, key_eq, key_eq_iff, lookup-insert, lookup-remove,
  size-insert, size-remove-le,
}
use gput.Packet.Config.{PacketEngineConfig}
use gput.Packet.Cpu.Valid.{FlowIsValid, IsValid}

module _ {config : PacketEngineConfig} {flows : FlowTable} (valid : IsValid config flows) where
  insert-each :
      (key j : FlowKey) (flow f : Flow)
      → FlowIsValid key flow
      → key.dst_port ≡ config.listen_port
      → lookup j (insert key flow flows) ≡ some f
      → FlowIsValid j f × (j.dst_port ≡ config.listen_port)
  insert-each key j flow f v port h = elim (Bool-cases (key_eq key j)) [
    | inl same ↦
        let e : some flow ≡ some f = rw (lookup-insert key j flow flows, same) at h in
        let k : key ≡ j = (key_eq_iff key j).0 same in
        let g : flow ≡ f = cc in rw (← k, ← g) (v, port)
    | inr other ↦
        let e : lookup j flows ≡ some f = rw (lookup-insert key j flow flows, other) at h in
        valid.each j f e
  ]

  pub insert-IsValid :
      (key : FlowKey) (flow : Flow)
      → FlowIsValid key flow
      → key.dst_port ≡ config.listen_port
      → size (insert key flow flows) ≤ config.flow_capacity
      → IsValid config (insert key flow flows)
  insert-IsValid key flow v port room = record {
    room = room;
    each = λ j f h. insert-each key j flow f v port h;
  }

  -- A write to a flow that is there takes no room.
  pub insert_known-IsValid :
      (key : FlowKey) (old flow : Flow)
      → lookup key flows ≡ some old
      → FlowIsValid key flow
      → IsValid config (insert key flow flows)
  insert_known-IsValid key old flow e v =
      insert-IsValid key flow v (valid.each key old e).1
        (rw (size-insert key flow flows, e) valid.room)

  pub remove-IsValid : (key : FlowKey) → IsValid config (remove key flows)
  remove-IsValid key = record {
    room = omega (arith, valid.room, size-remove-le key flows);
    each = λ j f h. elim (Bool-cases (key_eq key j)) [
      | inl same ↦ (let e : none ≡ some f = rw (lookup-remove key j flows, same) at h in cc)
      | inr other ↦ valid.each j f (rw (lookup-remove key j flows, other) at h)
    ];
  }
