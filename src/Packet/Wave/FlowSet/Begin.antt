-- ===== src/Packet/Wave/FlowSet/Begin.antt =====
-- `FlowSet::begin`, src/packet/mod.rs: the table between batches and in a new generation.

use gput.Base.{
  ℕ, zero, suc, ◌+◌, ◌-◌, ◌*◌, ◌^◌, ◌≤◌, ◌<◌, max, ◌≡◌, ◌⊎◌, inl, inr, refl, sym, ◌∙◌, false, List,
  [], ◌∷◌, arith, ltb, leb, ◌==◌, length, replicate, take, All, get_or, ok, Bool-cases, le→leb,
  length-append, length-take, length-replicate, All-append, All-take,
}
use native.Mathlib.Nat.{one-le-pow, pow-suc}
use gput.Packet.Wire.Header.{FlowKey, add_u32}
use gput.Packet.Wire.Parse.{flow_hash}
use gput.Packet.Wave.FlowSet.{
  FlowSet, zero_key, home, power_from, resize, saturating_mul, grow, next_generation, begin,
  empty_set,
}
use gput.Packet.Wave.FlowSet.Probing.{Shape, masked-lt, probe-slot}
use gput.Packet.Wave.FlowSet.Members.{Holds, IsValid, used}

power_from-doubles :
    (steps e n : ℕ)
    → n ≤ 2 ^ (e + steps)
    → (k : ℕ) × (power_from (suc steps) (2 ^ e) n ≡ ok (2 ^ k)) × (n ≤ 2 ^ k)
unfolding power_from
power_from-doubles zero e n h =
    let at : n ≤ 2 ^ e = (let s : e + 0 ≡ e = omega arith in rw (← s) h) in
    (e, rw (le→leb n (2 ^ e) at) refl, at)
power_from-doubles (suc steps) e n h = elim (Bool-cases (leb n (2 ^ e))) [
  | inl small ↦ (e, rw small refl, ground arith)
  | inr more ↦
      let double : 2 ^ suc e ≡ 2 ^ e * 2 = pow-suc 2 e in
      let s : suc e + steps ≡ e + suc steps = omega arith in
      let (k, r, at) = power_from-doubles steps (suc e) n (rw s h) in
      (k, rw more (rw (← double) r), at)
]

-- Between batches: an empty table or one of a power of two slots, whose generations are past.
pub record IsStored (set : FlowSet) : Type 0 where
  pub slots : ((length set.keys ≡ 0) × (length set.generations ≡ 0)) ⊎ Shape set
  pub past : All (λ g. g ≤ set.generation) set.generations
  pub small : set.generation < 2 ^ 32

-- A set of a new generation.
pub record IsFresh (set : FlowSet) (expected : ℕ) : Type 0 where
  pub valid : IsValid set
  pub none_held : (key : FlowKey) → ¬ Holds set key
  pub none_used : used set.generation set.generations ≡ 0
  pub room : expected < length set.keys
  pub stored : IsStored set

All-replicate : (P : ℕ → Type 0) (n x : ℕ) → P x → All P (replicate n x)
All-replicate P zero x h = tt
All-replicate P (suc n) x h = (h, All-replicate P n x h)

All-weaken : (P Q : ℕ → Type 0) (xs : List ℕ) → ((x : ℕ) → P x → Q x) → All P xs → All Q xs
All-weaken P Q [] f h = tt
All-weaken P Q (x ∷ xs) f h = (f x h.0, All-weaken P Q xs f h.1)

used-past : (n : ℕ) (gs : List ℕ) → All (λ g. g < n) gs → used n gs ≡ 0
used-past n [] h = refl
used-past n (g ∷ gs) h = ground (arith, used-past n gs h.1, h.0)

not_current-past :
    (n : ℕ) (gs : List ℕ) (j : ℕ) → 0 < n → All (λ g. g < n) gs → get_or gs j 0 == n ≡ false
not_current-past n [] j pos h = ground arith
not_current-past n (g ∷ gs) zero pos h = ground (arith, h.0)
not_current-past n (g ∷ gs) (suc j) pos h = not_current-past n gs j pos h.1

past-IsFresh :
    (set : FlowSet) (expected : ℕ)
    → Shape set
    → 0 < set.generation
    → set.generation < 2 ^ 32
    → All (λ g. g < set.generation) set.generations
    → expected < length set.keys
    → IsFresh set expected
past-IsFresh set expected shape pos small past room =
    let off = λ (j : ℕ). not_current-past set.generation set.generations j pos past in
    record {
      valid = record { shape = shape; reachable = λ j inside on. absurd (let e = off j in cc) };
      none_held = λ key h.
          let (j, inside, on, e) =
            probe-slot set shape (length set.keys) key (home set key)
              (masked-lt set shape (flow_hash key)) h in
          let o = off j in cc;
      none_used = used-past set.generation set.generations past;
      room = room;
      stored = record {
        slots = inr shape;
        past =
            All-weaken (λ g. g < set.generation) (λ g. g ≤ set.generation) set.generations
              (λ x h. omega arith) past;
        small = small;
      };
    }

next_generation-IsFresh :
    (set : FlowSet) (expected : ℕ)
    → Shape set
    → set.generation < 2 ^ 32
    → All (λ g. g ≤ set.generation) set.generations
    → expected < length set.keys
    → IsFresh (next_generation set) expected
unfolding next_generation
next_generation-IsFresh set expected shape small past room =
    elim (Bool-cases (add_u32 set.generation 1 == 0)) [
      | inl wraps ↦ rw wraps (
          past-IsFresh
            (record set { generations = replicate (length set.generations) 0; generation = 1 })
            expected
            (record {
              exponent = shape.exponent;
              slots = shape.slots;
              aligned = length-replicate (length set.generations) 0 ∙ shape.aligned;
            })
            (omega arith) (omega arith)
            (All-replicate (λ g. g < 1) (length set.generations) 0 (omega arith)) room)
      | inr moves ↦ rw moves (
          past-IsFresh (record set { generation = add_u32 set.generation 1 }) expected
            (record { exponent = shape.exponent; slots = shape.slots; aligned = shape.aligned })
            (ground arith) (omega arith)
            (All-weaken (λ g. g ≤ set.generation) (λ g. g < add_u32 set.generation 1)
              set.generations (λ x h. ground arith) past)
            room)
    ]

length-resize {ℓ} : {A : Type ℓ} (xs : List A) (n : ℕ) (a : A) → length (resize xs n a) ≡ n
length-resize xs n a = omega (
  arith,
  length-append (take n xs) (replicate (n - length xs) a),
  length-take n xs,
  length-replicate (n - length xs) a,
)

-- A table after it has grown to at least `2 ^ k` slots.
record Grown (set : FlowSet) (k : ℕ) (after : FlowSet) : Type 0 where
  shape : Shape after
  past : All (λ g. g ≤ set.generation) after.generations
  generation : after.generation ≡ set.generation
  size : 2 ^ k ≤ length after.keys

grow-Grown : (set : FlowSet) (k : ℕ) → IsStored set → Grown set k (grow set (2 ^ k))
unfolding grow
grow-Grown set k stored = elim (Bool-cases (ltb (length set.keys) (2 ^ k))) [
  | inl small ↦ rw small (record {
    shape = record {
      exponent = k;
      slots = length-resize set.keys (2 ^ k) zero_key;
      aligned =
          length-resize set.generations (2 ^ k) 0 ∙ sym (length-resize set.keys (2 ^ k) zero_key);
    };
    past =
        All-append (λ g. g ≤ set.generation) (take (2 ^ k) set.generations)
          (replicate (2 ^ k - length set.generations) 0)
          (All-take (λ g. g ≤ set.generation) (2 ^ k) set.generations stored.past)
          (All-replicate (λ g. g ≤ set.generation) (2 ^ k - length set.generations) 0
            (omega arith));
    generation = refl;
    size = omega (arith, length-resize set.keys (2 ^ k) zero_key);
  })
  | inr large ↦
      let size : 2 ^ k ≤ length set.keys = ground arith in
      let pos = one-le-pow k 2 (omega arith) in
      rw large (elim stored.slots [
        | inl none_yet ↦ absurd (omega (arith, none_yet.0))
        | inr shape ↦ record { shape = shape; past = stored.past; generation = refl; size = size }
      ])
]

-- A stored set begins a new generation without a panic: it is valid, holds no key, and has more
-- slots than the keys that are expected, if those are at most `2 ^ 62`.
pub begin-IsFresh :
    (set : FlowSet) (expected : ℕ)
    → IsStored set
    → expected ≤ 2 ^ 62
    → (after : FlowSet) × (begin set expected ≡ ok after) × IsFresh after expected
unfolding begin
begin-IsFresh set expected stored few =
    let n = saturating_mul (max expected 1) 2 in
    let (k, power, at) = power_from-doubles 63 0 n (omega arith) in
    let grown = grow-Grown set k stored in
    let small : (grow set (2 ^ k)).generation < 2 ^ 32 = rw grown.generation stored.small in
    let past : All (λ g. g ≤ (grow set (2 ^ k)).generation) (grow set (2 ^ k)).generations =
      rw grown.generation grown.past in
    (
      next_generation (grow set (2 ^ k)),
      rw power refl,
      next_generation-IsFresh (grow set (2 ^ k)) expected grown.shape small past
          (omega (arith, grown.size, at)),
    )

pub empty-IsStored : IsStored empty_set
empty-IsStored = record { slots = inl (refl, refl); past = tt; small = omega arith }
