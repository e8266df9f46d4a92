-- ===== src/Packet/Wave/FlowSet.antt =====
-- `FlowSet` of src/packet/mod.rs: a hash set of flow keys with linear probing, emptied by a new
-- generation. An index that is masked lies inside the table, whose length is a power of two.
pub mod Probing
pub mod Members
pub mod Begin
use mathlib.Core.Logic.{dite, dif_pos, dif_neg}
use mathlib.Core.WellFounded.{Acc}
use gput.Base.{
  ℕ, zero, suc, ◌+◌, ◌-◌, ◌*◌, ◌/◌, ◌%◌, ◌^◌, ◌≤◌, ◌<◌, bit_and, bit_or, bit_xor, min, max, ◌≡◌,
  ◌≢◌, ◌↔◌, ◌⊎◌, inl, inr, refl, sym, ap, ◌∙◌, Bool, true, false, not, ◌&&◌, ◌||◌, Option, none,
  some, List, [], ◌∷◌, ◌++◌, map, arith, dec_lt, dec_le, ltb, leb, ◌==◌, ◌!=◌, if◌then◌else◌,
  length, replicate, take, drop, All, get_or, get_elem?, set as replace, Outcome, Error, ok, err,
  panic, ◌>>=◌, ◌>>◌, ensure, index, slice, store, copy_at, ipv4_tcp_too_large, ipv4_length_limit,
  packet_too_small, bad_header_length, total_length_exceeds, bad_ipv4_checksum, bad_tcp_checksum,
  zero_batch_size, zero_flow_capacity, flow_capacity_not_power_of_two, zero_probe_limit,
  probe_limit_exceeds_capacity, batch_size_not_u32, flow_capacity_not_u32, response_does_not_fit,
  lock_poisoned, packet_empty, packet_too_large, Bool-cases, Option-cases, ==_self, ==_iff, !=_self,
  !=_iff, ne→!=, lt→ltb, le→ltb, le→leb, lt→leb, ltb→lt, length-append, length-set, length-take,
  length-drop, length-replicate, take-length_self, take-append_left, drop-append_left,
  take-append-drop, replicate-add, All-append, All-take, All-drop, index-get_or, store-set,
  slice-eq_ok,
}
use gput.Base.Order.{lt_wf}
use gput.Base.Bits.{bit_and_0xffff, bit_and_0x0f, bit_or-byte, bit_and_mask, bit_and-zero}
use gput.Base.Text.{
  codes, bytes_eq, bytes_eq_iff, starts_with, find_window, split_on, overwrite, all_bytes,
}
use gput.Packet.Raw
use gput.Packet.Raw.{RawPacket, as_bytes}
use gput.Packet.Wire.Header.{FlowKey, add_u32}
use gput.Packet.Wire.Parse.{flow_hash, scheduling_flow_key}
use gput.Packet.Wire.Parse.Accepts.{scheduling_flow_key-total, scheduling_flow_key-parse}
use gput.Packet.Flow.{key_eq, key_eq_iff}

pub record FlowSet : Type 0 where
  pub keys : List FlowKey
  pub generations : List ℕ
  pub generation : ℕ

abbrev pub empty_set : FlowSet
empty_set = record { keys = []; generations = []; generation = 0 }

abbrev pub zero_key : FlowKey
zero_key = record { src_ip = 0; dst_ip = 0; src_port = 0; dst_port = 0 }

-- `usize::saturating_mul`.
abbrev pub saturating_mul : ℕ → ℕ → ℕ
saturating_mul a b = min (a * b) (2 ^ 64 - 1)

-- `usize::next_power_of_two`, from `power` on; above `2 ^ 63` it panics.
unfoldable pub power_from : ℕ → ℕ → ℕ → Outcome ℕ
power_from zero power n = panic
power_from (suc steps) power n =
    let rest = power_from steps (power * 2) n in if leb n power then ok power else rest

abbrev pub next_power_of_two : ℕ → Outcome ℕ
next_power_of_two n = power_from 64 1 n

-- `Vec::resize`.
abbrev pub resize {ℓ} : {A : Type ℓ} → List A → ℕ → A → List A
resize xs n a = take n xs ++ replicate (n - length xs) a

unfoldable pub grow : FlowSet → ℕ → FlowSet
grow set capacity =
    if ltb (length set.keys) capacity
    then (record set {
      keys = resize set.keys capacity zero_key;
      generations = resize set.generations capacity 0;
    })
    else set

unfoldable pub next_generation : FlowSet → FlowSet
next_generation set =
    if add_u32 set.generation 1 == 0
    then (record set { generations = replicate (length set.generations) 0; generation = 1 })
    else (record set { generation = add_u32 set.generation 1 })

unfoldable pub begin : FlowSet → ℕ → Outcome FlowSet
begin set expected_keys = do
  capacity ← next_power_of_two (saturating_mul (max expected_keys 1) 2)
  ok (next_generation (grow set capacity))

-- Where the probing for a key ends: at a free slot, or at the key; `endless` if neither comes
-- within the given number of slots.
pub data Probe : Type 0 where
  free : ℕ → Probe
  present endless : Probe

abbrev pub is_current : FlowSet → ℕ → Bool
is_current set i = get_or set.generations i 0 == set.generation

abbrev pub mask : FlowSet → ℕ
mask set = length set.keys - 1

unfoldable pub probe : ℕ → FlowSet → FlowKey → ℕ → Probe
probe zero set key i = endless
probe (suc steps) set key i =
    let rest = probe steps set key (bit_and (i + 1) (mask set)) in
    if not (is_current set i)
    then free i
    else if key_eq (get_or set.keys i zero_key) key
    then present
    else rest

unfoldable pub place : FlowSet → FlowKey → ℕ → FlowSet
place set key i = record set {
  keys = replace set.keys i key;
  generations = replace set.generations i set.generation;
}

abbrev pub home : FlowSet → FlowKey → ℕ
home set key = bit_and (flow_hash key) (mask set)

abbrev pub settle : FlowSet → FlowKey → Probe → Outcome (Option (Bool × FlowSet))
settle set key (free i) = ok (some (true, place set key i))
settle set key present = ok (some (false, set))
settle set key endless = ok none

-- `ok none` where the source's loop goes around a full table for ever; it panics on no slots.
unfoldable pub insert : FlowSet → FlowKey → Outcome (Option (Bool × FlowSet))
insert set key =
    if length set.keys == 0
    then panic
    else settle set key (probe (length set.keys) set key (home set key))
