-- ===== src/Packet/Wave/FlowSet/Members.antt =====
-- The keys that a `FlowSet` of src/packet/mod.rs holds, before and after an insertion.

use gput.Base.{
  ℕ, zero, suc, ◌+◌, ◌-◌, ◌%◌, ◌≤◌, ◌<◌, bit_and, ◌≡◌, ◌≢◌, ◌↔◌, ◌⊎◌, inl, inr, refl, sym, ap, ◌∙◌,
  Bool, true, false, Option, some, List, [], ◌∷◌, arith, leb, ◌==◌, if◌then◌else◌, length, get_or,
  set as replace, Outcome, ok, Bool-cases, ==_iff, length-set, get_or-set_same, get_or-set_other,
}
use native.Mathlib.Nat.{mod-eq_of_lt, add-mod_right}
use gput.Packet.Wire.Header.{FlowKey}
use gput.Packet.Wire.Parse.{flow_hash}
use gput.Packet.Wave.FlowSet.{
  FlowSet, zero_key, Probe, free, present, endless, is_current, probe, place, home, settle, insert,
}
use gput.Packet.Wave.FlowSet.Probing.{
  Shape, masked-lt, free-place, mask-place, current-place_other, probe-keeps, probe-finds,
  probe-slot, probe-ends,
}

abbrev pub Holds : FlowSet → FlowKey → Type 0
Holds set key = probe (length set.keys) set key (home set key) ≡ present

-- The probing finds the key of every slot of this generation.
pub record IsValid (set : FlowSet) : Type 0 where
  pub shape : Shape set
  pub reachable :
      (j : ℕ)
      → j < length set.keys
      → is_current set j ≡ true
      → Holds set (get_or set.keys j zero_key)

-- The number of slots of a generation.
abbrev pub used : ℕ → List ℕ → ℕ
used generation [] = 0
used generation (g ∷ gs) = (if g == generation then 1 else 0) + used generation gs

unused_slot :
    (generation : ℕ) (gs : List ℕ)
    → used generation gs < length gs
    → (j : ℕ) × (j < length gs) × (get_or gs j 0 == generation ≡ false)
unused_slot generation [] h = absurd (omega arith)
unused_slot generation (g ∷ gs) h = elim (Bool-cases (g == generation)) [
  | inr off ↦ (0, omega arith, off)
  | inl on ↦
      let fewer : used generation gs < length gs = ground (arith, on) in
      let (j, inside, off) = unused_slot generation gs fewer in (suc j, omega arith, off)
]

used-set :
    (generation : ℕ) (gs : List ℕ) (i : ℕ)
    → used generation (replace gs i generation) ≤ used generation gs + 1
used-set generation [] i = omega arith
used-set generation (g ∷ gs) zero = ground arith
used-set generation (g ∷ gs) (suc i) = omega (arith, used-set generation gs i)

data Cases (p : Probe) : Type 0 where
  is_free : (v : ℕ) → p ≡ free v → Cases p
  is_present : p ≡ present → Cases p
  is_endless : p ≡ endless → Cases p

probe-Cases : (p : Probe) → Cases p
probe-Cases (free v) = is_free v refl
probe-Cases present = is_present refl
probe-Cases endless = is_endless refl

-- What an insertion returns and leaves.
pub record Inserts (set : FlowSet) (key : FlowKey) (result : Outcome (Option (Bool × FlowSet)))
    : Type 0 where
  pub fresh : Bool
  pub after : FlowSet
  pub returned : result ≡ ok (some (fresh, after))
  pub valid : IsValid after
  pub decides : (fresh ≡ false) ↔ Holds set key
  pub members : (k : FlowKey) → Holds after k ↔ ((k ≡ key) ⊎ Holds set k)
  pub generation : after.generation ≡ set.generation
  pub size : length after.keys ≡ length set.keys
  pub filled : used after.generation after.generations ≤ used set.generation set.generations + 1

module _ (set : FlowSet) (valid : IsValid set) (key : FlowKey) where
  Holds-slot :
      (k : FlowKey)
      → Holds set k
      → (j : ℕ) × (j < length set.keys)
        × (is_current set j ≡ true)
        × (get_or set.keys j zero_key ≡ k)
  Holds-slot k h =
      probe-slot set valid.shape (length set.keys) k (home set k)
        (masked-lt set valid.shape (flow_hash k)) h

  -- With a slot left, the probing ends.
  probe-settles :
      used set.generation set.generations < length set.keys
      → probe (length set.keys) set key (home set key) ≢ endless
  probe-settles room =
      let size = length set.keys in
      let h = home set key in
      let h_in = masked-lt set valid.shape (flow_hash key) in
      let (j, inside, off) =
        unused_slot set.generation set.generations (omega (arith, valid.shape.aligned)) in
      let j_in : j < size = omega (arith, valid.shape.aligned) in
      elim (Bool-cases (leb h j)) [
        | inl ahead ↦
            let at : (h + (j - h)) % size ≡ j =
              ap (λ x. x % size) (let e : h + (j - h) ≡ j = ground arith in e)
              ∙ mod-eq_of_lt j_in in
            probe-ends set valid.shape (j - h) size key h h_in (rw at off) (omega arith)
        | inr behind ↦
            let at : (h + (j + size - h)) % size ≡ j =
              ap (λ x. x % size) (let e : h + (j + size - h) ≡ j + size = ground arith in e)
              ∙ add-mod_right j size
              ∙ mod-eq_of_lt j_in in
            probe-ends set valid.shape (j + size - h) size key h h_in (rw at off) (ground arith)
      ]

  module _ (v : ℕ) (found : probe (length set.keys) set key (home set key) ≡ free v) where
    slot : (is_current set v ≡ false) × (v < length set.keys)
    slot =
        free-place set valid.shape (length set.keys) key (home set key) v
          (masked-lt set valid.shape (flow_hash key)) found

    size-place : length (place set key v).keys ≡ length set.keys
    unfolding place
    size-place = length-set set.keys v key

    Shape-place : Shape (place set key v)
    unfolding place
    Shape-place = record {
      exponent = valid.shape.exponent;
      slots = length-set set.keys v key ∙ valid.shape.slots;
      aligned =
          length-set set.generations v set.generation
          ∙ valid.shape.aligned
          ∙ sym (length-set set.keys v key);
    }

    Holds-place :
        (k : FlowKey)
        → probe (length set.keys) (place set key v) k (home set k) ≡ present
        → Holds (place set key v) k
    Holds-place k h =
        let m = mask-place set valid.shape key v slot.0 slot.1 in
        ap (λ n. probe n (place set key v) k (home (place set key v) k)) size-place
        ∙ ap (λ n. probe (length set.keys) (place set key v) k (bit_and (flow_hash k) n)) m
        ∙ h

    Holds-place_new : Holds (place set key v) key
    Holds-place_new =
        Holds-place key
          (probe-finds set valid.shape key v slot.0 slot.1 (length set.keys) (home set key) found)

    Holds-place_old : (k : FlowKey) → Holds set k → Holds (place set key v) k
    Holds-place_old k h =
        Holds-place k
          (probe-keeps set valid.shape key v slot.0 slot.1 (length set.keys) k (home set k) h)

    key-place_other :
        (j : ℕ) → v ≢ j → get_or (place set key v).keys j zero_key ≡ get_or set.keys j zero_key
    unfolding place
    key-place_other j away = get_or-set_other set.keys v j key zero_key away

    key-place_same : get_or (place set key v).keys v zero_key ≡ key
    unfolding place
    key-place_same = get_or-set_same set.keys v key zero_key slot.1

    -- A slot of the generation is the new one, or an old one.
    slot-place :
        (j : ℕ)
        → j < length set.keys
        → is_current (place set key v) j ≡ true
        → (get_or (place set key v).keys j zero_key ≡ key)
          ⊎ Holds set (get_or (place set key v).keys j zero_key)
    slot-place j inside on = elim (Bool-cases (v == j)) [
      | inl here ↦
          let e : v ≡ j = (==_iff v j).0 here in
          inl (ap (λ i. get_or (place set key v).keys i zero_key) (sym e) ∙ key-place_same)
      | inr there ↦
          let away : v ≢ j = λ e. (let x = (==_iff v j).1 e in cc) in
          let on' = sym (current-place_other set valid.shape key v slot.0 slot.1 j away) ∙ on in
          inr (rw (key-place_other j away) (valid.reachable j inside on'))
    ]

    IsValid-place : IsValid (place set key v)
    IsValid-place = record {
      shape = Shape-place;
      reachable = λ j inside on. elim (slot-place j (omega (arith, size-place)) on) [
        | inl e ↦ rw e Holds-place_new
        | inr h ↦ Holds-place_old (get_or (place set key v).keys j zero_key) h
      ];
    }

    members-place : (k : FlowKey) → Holds (place set key v) k ↔ ((k ≡ key) ⊎ Holds set k)
    members-place k = (
      λ h.
          (let (j, inside, on, e) =
              probe-slot (place set key v) Shape-place (length (place set key v).keys) k
                (home (place set key v) k) (masked-lt (place set key v) Shape-place (flow_hash k))
                h in
            elim (slot-place j (omega (arith, size-place)) on) [
              | inl same ↦ inl (sym e ∙ same)
              | inr old ↦ inr (rw (← e) old)
            ]),
      λ s. elim s [ inl same ↦ rw same Holds-place_new | inr old ↦ Holds-place_old k old ],
    )

    Inserts-place : Inserts set key (ok (some (true, place set key v)))
    unfolding place
    Inserts-place = record {
      fresh = true;
      after = place set key v;
      returned = refl;
      valid = IsValid-place;
      decides = (λ e. cc, λ h. (let e : free v ≡ present = sym found ∙ h in cc));
      members = members-place;
      generation = refl;
      size = size-place;
      filled = used-set set.generation set.generations v;
    }

  Inserts-present : Holds set key → Inserts set key (ok (some (false, set)))
  Inserts-present h = record {
    fresh = false;
    after = set;
    returned = refl;
    valid = valid;
    decides = (λ _. h, λ _. refl);
    members = λ k. (λ old. inr old, λ s. elim s [ inl e ↦ rw e h | inr old ↦ old ]);
    generation = refl;
    size = refl;
    filled = omega arith;
  }

  settle-Inserts :
      used set.generation set.generations < length set.keys
      → Inserts set key (settle set key (probe (length set.keys) set key (home set key)))
  settle-Inserts room = elim (probe-Cases (probe (length set.keys) set key (home set key))) [
    | is_free v e ↦ rw e (Inserts-place v e)
    | is_present e ↦ rw e (Inserts-present e)
    | is_endless e ↦ absurd (probe-settles room e)
  ]

-- An insertion into a valid set with a slot left returns; it reports a new key exactly if the set
-- did not hold it, the set then holds what it held and that key, and it stays valid.
pub insert-Inserts :
    (set : FlowSet) (key : FlowKey)
    → IsValid set
    → used set.generation set.generations < length set.keys
    → Inserts set key (insert set key)
unfolding insert
insert-Inserts set key valid room =
    let some_slot : length set.keys == 0 ≡ false = ground arith in
    rw some_slot (settle-Inserts set valid key room)
