-- ===== src/Packet/Flow.antt =====
-- The flows of src/packet/cpu.rs, and the map that holds them.

use gput.Base.{
  ℕ, ◌+◌, ◌≤◌, ◌≡◌, ◌↔◌, refl, Bool, true, false, ◌&&◌, Option, none, some, List, [], ◌∷◌, arith,
  ◌==◌, if◌then◌else◌, length,
}
use gput.Packet.Wire.Header.{FlowKey}

pub data FlowState : Type 0 where
  syn_received established : FlowState

pub record LastResponse : Type 0 where
  pub client_seq : ℕ
  pub client_len : ℕ
  pub response_seq : ℕ
  pub response_ack : ℕ
  pub response_id : ℕ

pub record Flow : Type 0 where
  pub state : FlowState
  pub recv_next : ℕ
  pub send_next : ℕ
  pub send_unacked : ℕ
  pub last_response : Option LastResponse

-- The derived `==` of `FlowKey` and of `FlowState`.
abbrev pub key_eq : FlowKey → FlowKey → Bool
key_eq a b =
    a.src_ip == b.src_ip
    && a.dst_ip == b.dst_ip
    && a.src_port == b.src_port
    && a.dst_port == b.dst_port

abbrev pub is_syn_received : FlowState → Bool
is_syn_received syn_received = true
is_syn_received established = false

-- The standard library's `HashMap<FlowKey, Flow>`: at most one flow for a key, in any order.
abbrev pub FlowTable : Type 0
FlowTable = List (FlowKey × Flow)

pub lookup : FlowKey → FlowTable → Option Flow
lookup key [] = none
lookup key ((k, flow) ∷ flows) = if key_eq k key then some flow else lookup key flows

pub insert : FlowKey → Flow → FlowTable → FlowTable
insert key flow [] = (key, flow) ∷ []
insert key flow ((k, old) ∷ flows) =
    if key_eq k key then (k, flow) ∷ flows else (k, old) ∷ insert key flow flows

pub remove : FlowKey → FlowTable → FlowTable
remove key [] = []
remove key ((k, flow) ∷ flows) =
    let rest = remove key flows in if key_eq k key then rest else (k, flow) ∷ rest

-- `flows.len()`.
abbrev pub size : FlowTable → ℕ
size flows = length flows

pub key_eq_iff : (a b : FlowKey) → (key_eq a b ≡ true) ↔ (a ≡ b)
key_eq_iff a b = ground arith

pub lookup-insert :
    (k j : FlowKey) (flow : Flow) (flows : FlowTable)
    → lookup j (insert k flow flows) ≡ (if key_eq k j then some flow else lookup j flows)
unfolding lookup insert
lookup-insert k j flow [] = refl
lookup-insert k j flow ((i, old) ∷ flows) =
    ground (arith, key_eq_iff k j, key_eq_iff i k, key_eq_iff i j, lookup-insert k j flow flows)

pub lookup-remove :
    (k j : FlowKey) (flows : FlowTable)
    → lookup j (remove k flows) ≡ (if key_eq k j then none else lookup j flows)
unfolding lookup remove
lookup-remove k j [] = ground arith
lookup-remove k j ((i, old) ∷ flows) =
    ground (arith, key_eq_iff k j, key_eq_iff i k, key_eq_iff i j, lookup-remove k j flows)

pub size-insert :
    (k : FlowKey) (flow : Flow) (flows : FlowTable)
    → size (insert k flow flows)
      ≡ elim (lookup k flows) [ some _ ↦ size flows | none ↦ size flows + 1 ]
unfolding lookup insert
size-insert k flow [] = refl
size-insert k flow ((i, old) ∷ flows) = ground (arith, size-insert k flow flows)

pub size-remove-le : (k : FlowKey) (flows : FlowTable) → size (remove k flows) ≤ size flows
unfolding remove
size-remove-le k [] = omega arith
size-remove-le k ((i, old) ∷ flows) = ground (arith, size-remove-le k flows)

pub lookup-empty : (key : FlowKey) → lookup key [] ≡ none
unfolding lookup
lookup-empty key = refl
