-- ===== src/Base/Failure.antt =====
-- How a call ends: with a value, with an error of `anyhow::Result`, or in a panic (an index or a
-- slice out of range, an arithmetic underflow, `expect` on `None`).
use Prim.Native.Nat.{ℕ, zero, suc, ◌-◌, ◌<◌, ◌≤◌}
use mathlib.Core.Logic.{inl, inr}
use mathlib.Core.Bool.{Bool, true, false, ◌&&◌}
use mathlib.Core.List.{List, [], ◌∷◌}
use mathlib.Core.Path.{◌≡◌, refl, ap}
use native.Mathlib.Omega.{arith}
use gput.Base.Lists.{length, get_or, set, take, drop}
use gput.Base.Tests.{leb, if◌then◌else◌, le→leb, lt→leb, Bool-cases}

-- The messages of the `ensure!`, `bail!` and `context` calls.
pub data Error : Type 0 where
  packet_empty packet_too_large : Error
  ipv4_tcp_too_large ipv4_length_limit : Error
  packet_too_small bad_header_length total_length_exceeds : Error
  bad_ipv4_checksum bad_tcp_checksum : Error
  zero_batch_size zero_flow_capacity flow_capacity_not_power_of_two : Error
  zero_probe_limit probe_limit_exceeds_capacity batch_size_not_u32 flow_capacity_not_u32 : Error
  response_does_not_fit : Error
  word_count_overflow length_not_u32 word_offset_not_u32 : Error
  output_out_of_bounds output_outside_slot : Error
  lock_poisoned sink_failed : Error
  batch_wait_zero queue_below_batch request_too_small slot_too_small no_connections : Error
  read_timeout_zero stride_overflow request_buffer_overflow response_buffer_overflow : Error
  request_slots_too_large response_slots_too_large : Error
  route_count_not_u32 duplicate_route path_without_slash path_with_query path_with_control : Error
  path_length_not_u32 status_not_three_digits header_value_empty header_value_not_printable : Error
  limit_not_u32 body_size_overflow route_table_overflow router_offset_not_u32 : Error
  program_offset_overflow program_offset_not_u32 operation_count_not_u32 : Error
  response_header_overflow response_size_overflow response_size_not_u32 : Error
  router_program_not_u32 slot_below_response : Error
  shader_failed invalid_response_length request_beyond_slot : Error

pub data Outcome {ℓ} (A : Type ℓ) : Type ℓ where
  ok : A → Outcome A
  err : Error → Outcome A
  panic : Outcome A

infixl 5 ◌>>=◌ ◌>>◌
abbrev pub ◌>>=◌ {ℓ κ} : {A : Type ℓ} {B : Type κ} → Outcome A → (A → Outcome B) → Outcome B
ok a >>= f = f a
err e >>= f = err e
panic >>= f = panic

abbrev pub ◌>>◌ {ℓ κ} : {A : Type ℓ} {B : Type κ} → Outcome A → Outcome B → Outcome B
m >> k = m >>= λ _. k

-- `ensure!(test, message)`.
abbrev pub ensure : Bool → Error → Outcome (Unit {0})
ensure true e = ok tt
ensure false e = err e

module _ {ℓ} {A : Type ℓ} where
  -- `xs[i]`.
  abbrev pub index : List A → ℕ → Outcome A
  index [] i = panic
  index (x ∷ xs) zero = ok x
  index (x ∷ xs) (suc i) = index xs i

  -- `&xs[a..b]`.
  unfoldable pub slice : List A → ℕ → ℕ → Outcome (List A)
  slice xs a b = if leb a b && leb b (length xs) then ok (take (b - a) (drop a xs)) else panic

  -- `xs[i] = v`.
  abbrev pub store : List A → ℕ → A → Outcome (List A)
  store [] i v = panic
  store (x ∷ xs) zero v = ok (v ∷ xs)
  store (x ∷ xs) (suc i) v = store xs i v >>= λ ys. ok (x ∷ ys)

  -- `xs[a..b].copy_from_slice(ys)`, whose lengths must agree.
  abbrev pub copy_at : List A → ℕ → List A → Outcome (List A)
  copy_at xs zero [] = ok xs
  copy_at [] zero (y ∷ ys) = panic
  copy_at (x ∷ xs) zero (y ∷ ys) = copy_at xs zero ys >>= λ zs. ok (y ∷ zs)
  copy_at [] (suc a) ys = panic
  copy_at (x ∷ xs) (suc a) ys = copy_at xs a ys >>= λ zs. ok (x ∷ zs)

module _ {ℓ} {A : Type ℓ} where
  pub index-get_or : (xs : List A) (i : ℕ) (d : A) → i < length xs → index xs i ≡ ok (get_or xs i d)
  index-get_or [] i d h = absurd (omega arith)
  index-get_or (x ∷ xs) zero d h = refl
  index-get_or (x ∷ xs) (suc i) d h = index-get_or xs i d (omega arith)

  pub store-set : (xs : List A) (i : ℕ) (v : A) → i < length xs → store xs i v ≡ ok (set xs i v)
  store-set [] i v h = absurd (omega arith)
  store-set (x ∷ xs) zero v h = refl
  store-set (x ∷ xs) (suc i) v h = ground (arith, store-set xs i v)

  pub slice_outside : (xs : List A) (a b : ℕ) → length xs < b → slice xs a b ≡ panic
  unfolding slice
  slice_outside xs a b h = elim (Bool-cases (leb a b)) [
    | inl e ↦ rw (e, lt→leb b (length xs) h)
    | inr e ↦ rw e
  ]

  pub slice-eq_ok :
      (xs : List A) (a b : ℕ) → a ≤ b → b ≤ length xs → slice xs a b ≡ ok (take (b - a) (drop a xs))
  unfolding slice
  slice-eq_ok xs a b h k = rw (le→leb a b h, le→leb b (length xs) k)

-- What a chain that ends in a value went through.
pub ok_of_ensure {ℓ} :
    {A : Type ℓ} (b : Bool) (e : Error) (k : Outcome A) (x : A)
    → ensure b e >> k ≡ ok x
    → (b ≡ true) × (k ≡ ok x)
ok_of_ensure true e k x h = (refl, h)
ok_of_ensure false e k x h = cc

pub ok_of_bind {ℓ κ} :
    {A : Type ℓ} {B : Type κ} (m : Outcome A) (f : A → Outcome B) (x : B)
    → m >>= f ≡ ok x
    → (a : A) × (m ≡ ok a) × (f a ≡ ok x)
ok_of_bind (ok a) f x h = (a, refl, h)
ok_of_bind (err e) f x h = cc
ok_of_bind panic f x h = cc

pub test_of_ensure : (b : Bool) (e : Error) → ensure b e ≡ ok tt → b ≡ true
test_of_ensure true e h = refl
test_of_ensure false e h = cc

abbrev value_or {ℓ} : {A : Type ℓ} → A → Outcome A → A
value_or d (ok a) = a
value_or d (err e) = d
value_or d panic = d

pub ok_injective {ℓ} : {A : Type ℓ} (a b : A) → ok a ≡ ok b → a ≡ b
ok_injective a b h = ap (value_or a) h
