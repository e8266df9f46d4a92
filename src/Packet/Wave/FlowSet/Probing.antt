-- ===== src/Packet/Wave/FlowSet/Probing.antt =====
-- The probing of `FlowSet::insert`, src/packet/mod.rs.

use gput.Base.{
  ℕ, zero, suc, ◌+◌, ◌-◌, ◌%◌, ◌^◌, ◌<◌, bit_and, ◌≡◌, ◌≢◌, inl, inr, refl, sym, ap, ◌∙◌, Bool,
  true, false, arith, ◌==◌, length, get_or, Bool-cases, ==_self, length-set, get_or-set_same,
  get_or-set_other,
}
use native.Mathlib.Nat.{mod-lt, one-le-pow, mod-eq_of_lt, mod-add-mod}
use gput.Base.Bits.{bit_and_mask}
use gput.Packet.Wire.Header.{FlowKey}
use gput.Packet.Flow.{key_eq, key_eq_iff}
use gput.Packet.Wave.FlowSet.{
  FlowSet, zero_key, free, present, endless, is_current, mask, probe, place,
}

-- A table of a power of two slots.
pub record Shape (set : FlowSet) : Type 0 where
  pub exponent : ℕ
  pub slots : length set.keys ≡ 2 ^ exponent
  pub aligned : length set.generations ≡ length set.keys

abbrev pub holds_at : FlowSet → FlowKey → ℕ → Bool
holds_at set key i = key_eq (get_or set.keys i zero_key) key

abbrev pub next : FlowSet → ℕ → ℕ
next set i = bit_and (i + 1) (mask set)

-- One step of the probing.
data Step (set : FlowSet) (key : FlowKey) (n i : ℕ) : Type 0 where
  ends : is_current set i ≡ false → probe (suc n) set key i ≡ free i → Step set key n i
  hits :
      is_current set i ≡ true
      → holds_at set key i ≡ true
      → probe (suc n) set key i ≡ present
      → Step set key n i
  passes :
      is_current set i ≡ true
      → holds_at set key i ≡ false
      → probe (suc n) set key i ≡ probe n set key (next set i)
      → Step set key n i

probe-Step : (set : FlowSet) (key : FlowKey) (n i : ℕ) → Step set key n i
unfolding probe
probe-Step set key n i = elim (Bool-cases (is_current set i)) [
  | inr off ↦ ends off (rw off refl)
  | inl on ↦ elim (Bool-cases (holds_at set key i)) [
    | inl same ↦ hits on same (rw (on, same) refl)
    | inr other ↦ passes on other (rw (on, other) refl)
  ]
]

probe-zero : (set : FlowSet) (key : FlowKey) (i : ℕ) → probe 0 set key i ≡ endless
unfolding probe
probe-zero set key i = refl

next-mod : (set : FlowSet) → Shape set → (i : ℕ) → next set i ≡ (i + 1) % length set.keys
next-mod set shape i =
    let m : mask set ≡ 2 ^ shape.exponent - 1 = omega (arith, shape.slots) in
    ap (bit_and (i + 1)) m
    ∙ bit_and_mask shape.exponent (i + 1)
    ∙ ap (λ s. (i + 1) % s) (sym shape.slots)

module _ (set : FlowSet) (shape : Shape set) where
  pub masked-lt : (x : ℕ) → bit_and x (mask set) < length set.keys
  masked-lt x =
      let e = bit_and_mask shape.exponent x in
      let m : mask set ≡ 2 ^ shape.exponent - 1 = omega (arith, shape.slots) in
      rw (m, e, shape.slots) (mod-lt x (one-le-pow shape.exponent 2 (omega arith)))

  pub free-place :
      (n : ℕ) (key : FlowKey) (i v : ℕ)
      → i < length set.keys
      → probe n set key i ≡ free v
      → (is_current set v ≡ false) × (v < length set.keys)
  free-place zero key i v inside h = let z = probe-zero set key i in cc
  free-place (suc n) key i v inside h = elim (probe-Step set key n i) [
    | ends off e ↦
        let same : free i ≡ free v = sym e ∙ h in let at : i ≡ v = cc in rw (← at) (off, inside)
    | hits on same e ↦ cc
    | passes on other e ↦ free-place n key (next set i) v (masked-lt (i + 1)) (sym e ∙ h)
  ]

  module _ (key : FlowKey) (v : ℕ) (off : is_current set v ≡ false)
      (inside : v < length set.keys) where
    after : FlowSet
    after = place set key v

    pub mask-place : mask (place set key v) ≡ mask set
    unfolding place
    mask-place = ap (λ n. n - 1) (length-set set.keys v key)

    next-place : (i : ℕ) → next (place set key v) i ≡ next set i
    next-place i = ap (λ m. bit_and (i + 1) m) mask-place

    not_there : (i : ℕ) → is_current set i ≡ true → v ≢ i
    not_there i on e = let x : is_current set v ≡ true = rw e on in cc

    pub current-place_other : (i : ℕ) → v ≢ i → is_current (place set key v) i ≡ is_current set i
    unfolding place
    current-place_other i away =
        ap (λ g. g == set.generation) (get_or-set_other set.generations v i set.generation 0 away)

    pub holds_at-place_other :
        (k : FlowKey) (i : ℕ) → v ≢ i → holds_at (place set key v) k i ≡ holds_at set k i
    unfolding place
    holds_at-place_other k i away =
        ap (λ j. key_eq j k) (get_or-set_other set.keys v i key zero_key away)

    pub current-place_same : is_current (place set key v) v ≡ true
    unfolding place
    current-place_same =
        ap (λ g. g == set.generation)
          (get_or-set_same set.generations v set.generation 0 (omega (arith, shape.aligned)))
        ∙ ==_self set.generation

    holds_at-place_same : holds_at (place set key v) key v ≡ true
    unfolding place
    holds_at-place_same =
        ap (λ j. key_eq j key) (get_or-set_same set.keys v key zero_key inside)
        ∙ (key_eq_iff key key).1 refl

    -- A slot that the probing passes in the old table, it passes in the new one.
    stays :
        (k : FlowKey) (n i : ℕ) (h : Bool)
        → is_current set i ≡ true
        → holds_at set k i ≡ h
        → (is_current (place set key v) i ≡ true) × (holds_at (place set key v) k i ≡ h)
    stays k n i h on e =
        let away = not_there i on in
        (current-place_other i away ∙ on, holds_at-place_other k i away ∙ e)

    pub probe-keeps :
        (n : ℕ) (k : FlowKey) (i : ℕ)
        → probe n set k i ≡ present
        → probe n (place set key v) k i ≡ present
    probe-keeps zero k i h = let z = probe-zero set k i in cc
    probe-keeps (suc n) k i h = elim (probe-Step set k n i) [
      | ends free_slot e ↦ cc
      | hits on same e ↦
          let there = stays k n i true on same in
          elim (probe-Step (place set key v) k n i) [
            | ends a b ↦ cc
            | hits a b c ↦ c
            | passes a b c ↦ cc
          ]
      | passes on other e ↦
          let there = stays k n i false on other in
          let rest = probe-keeps n k (next set i) (sym e ∙ h) in
          elim (probe-Step (place set key v) k n i) [
            | ends a b ↦ cc
            | hits a b c ↦ c
            | passes a b c ↦ c ∙ ap (probe n (place set key v) k) (next-place i) ∙ rest
          ]
    ]

    pub probe-finds :
        (n i : ℕ) → probe n set key i ≡ free v → probe n (place set key v) key i ≡ present
    probe-finds zero i h = let z = probe-zero set key i in cc
    probe-finds (suc n) i h = elim (probe-Step set key n i) [
      | ends free_slot e ↦
          let same : free i ≡ free v = sym e ∙ h in
          let at : v ≡ i = cc in
          let on : is_current (place set key v) i ≡ true = rw (← at) current-place_same in
          let found : holds_at (place set key v) key i ≡ true = rw (← at) holds_at-place_same in
          elim (probe-Step (place set key v) key n i) [
            | ends a b ↦ cc
            | hits a b c ↦ c
            | passes a b c ↦ cc
          ]
      | hits on found e ↦ cc
      | passes on other e ↦
          let there = stays key n i false on other in
          let rest = probe-finds n (next set i) (sym e ∙ h) in
          elim (probe-Step (place set key v) key n i) [
            | ends a b ↦ cc
            | hits a b c ↦ c
            | passes a b c ↦ c ∙ ap (probe n (place set key v) key) (next-place i) ∙ rest
          ]
    ]

-- The slot where the probing finds a key.
pub probe-slot :
    (set : FlowSet) (shape : Shape set) (n : ℕ) (key : FlowKey) (i : ℕ)
    → i < length set.keys
    → probe n set key i ≡ present
    → (j : ℕ) × (j < length set.keys)
      × (is_current set j ≡ true)
      × (get_or set.keys j zero_key ≡ key)
probe-slot set shape zero key i inside h = let z = probe-zero set key i in cc
probe-slot set shape (suc n) key i inside h = elim (probe-Step set key n i) [
  | ends free_slot e ↦ cc
  | hits on same e ↦ (i, inside, on, (key_eq_iff (get_or set.keys i zero_key) key).0 same)
  | passes on other e ↦
      probe-slot set shape n key (next set i) (masked-lt set shape (i + 1)) (sym e ∙ h)
]

-- The probing goes around the table, so it ends if a slot `d` steps ahead is free.
pub probe-ends :
    (set : FlowSet) (shape : Shape set) (d n : ℕ) (key : FlowKey) (i : ℕ)
    → i < length set.keys
    → is_current set ((i + d) % length set.keys) ≡ false
    → d < n
    → probe n set key i ≢ endless
probe-ends set shape d zero key i inside off more h = omega arith
probe-ends set shape zero (suc n) key i inside off more h =
    let at : (i + 0) % length set.keys ≡ i =
      ap (λ x. x % length set.keys) (let e : i + 0 ≡ i = omega arith in e) ∙ mod-eq_of_lt inside in
    let here : is_current set i ≡ false = rw (← at) off in
    elim (probe-Step set key n i) [
      | ends free_slot e ↦ cc
      | hits on same e ↦ cc
      | passes on other e ↦ cc
    ]
probe-ends set shape (suc d) (suc n) key i inside off more h =
    let size = length set.keys in
    let step : next set i ≡ (i + 1) % size = next-mod set shape i in
    let around : (next set i + d) % size ≡ (i + suc d) % size =
      ap (λ x. (x + d) % size) step
      ∙ mod-add-mod (i + 1) size d
      ∙ ap (λ x. x % size) (let e : i + 1 + d ≡ i + suc d = omega arith in e) in
    let later : is_current set ((next set i + d) % size) ≡ false = rw around off in
    elim (probe-Step set key n i) [
      | ends free_slot e ↦ cc
      | hits on same e ↦ cc
      | passes on other e ↦
          probe-ends set shape d n key (next set i) (masked-lt set shape (i + 1)) later
            (omega arith) (sym e ∙ h)
    ]
