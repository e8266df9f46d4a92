-- ===== src/Base/Bits.antt =====
-- The laws of the bit operations that the program uses: masks, and joining of disjoint parts.
use Prim.Native.Nat.{
  ℕ, zero, suc, ◌+◌, ◌-◌, ◌*◌, ◌/◌, ◌%◌, ◌^◌, ◌≤◌, ◌<◌, min, max, bit_and, bit_or, digits,
  bit_and-bitwise, bit_or-bitwise,
}
use mathlib.Core.Path.{◌≡◌, refl, ap, ◌∙◌}
use native.Mathlib.Nat.{
  mod-lt, mod-eq_of_lt, div-add-mod, add-mul-mod_self_left, one-le-pow, pow-suc,
}
use native.Mathlib.Omega.{arith}

-- What the native operations stand for: a digit of the result is made of a digit of each.
module _ (rest : ℕ → ℕ) (join : ℕ → ℕ → ℕ) where
  -- Fuel beyond the first number changes nothing.
  pub digits_settle :
      (least most a b : ℕ)
      → least ≤ most
      → a ≤ least
      → digits rest join most a b ≡ digits rest join least a b
  digits_settle zero zero a b up in_reach = refl
  digits_settle zero (suc most) zero b up in_reach = refl
  digits_settle zero (suc most) (suc a) b up in_reach = absurd (omega arith)
  digits_settle (suc least) zero a b up in_reach = absurd (omega arith)
  digits_settle (suc least) (suc most) zero b up in_reach = refl
  digits_settle (suc least) (suc most) (suc a) b up in_reach =
      let half = suc a / 2 in
      let inner = digits_settle least most half (b / 2) (omega arith) (omega arith) in
      omega (arith, inner)

  -- The halves of the two numbers, where the operation itself takes the first one for its fuel.
  pub digits_half :
      (a b : ℕ)
      → digits rest join a (suc a / 2) (b / 2) ≡ digits rest join (suc a / 2) (suc a / 2) (b / 2)
  digits_half a b =
      let half = suc a / 2 in digits_settle half a half (b / 2) (omega arith) (omega arith)

bit_and_none : (y : ℕ) → bit_and 0 y ≡ 0
bit_and_none y = bit_and-bitwise 0 y

-- One digit: both last digits are kept, and the halves are joined above them.
pub bit_and_step : (x y : ℕ) → bit_and x y ≡ min (x % 2) (y % 2) + 2 * bit_and (x / 2) (y / 2)
bit_and_step (suc x) y =
    let halves = bit_and-bitwise (suc x / 2) (y / 2) in
    omega (arith, bit_and-bitwise (suc x) y, digits_half (λ d. zero) min x y, halves)
bit_and_step zero y = let low = bit_and_none (y / 2) in omega (arith, low, bit_and_none y)

bit_and-zero_below : (bound a : ℕ) → a < bound → bit_and a 0 ≡ 0
bit_and-zero_below zero a below = absurd (omega arith)
bit_and-zero_below (suc bound) zero below = bit_and_none 0
bit_and-zero_below (suc bound) (suc a) below =
    let half = bit_and-zero_below bound (suc a / 2) (omega arith) in
    omega (arith, half, bit_and_step (suc a) 0)

pub bit_and-zero : (a : ℕ) → bit_and a 0 ≡ 0
bit_and-zero a = bit_and-zero_below (a + 1) a (omega arith)

-- Four ones at the end of a mask keep four digits.
bit_and_nibble : (a m : ℕ) → bit_and a (m * 16 + 15) ≡ bit_and (a / 16) m * 16 + a % 16
bit_and_nibble a m =
    let m₁ = m * 16 + 15 in
    omega (
      arith,
      bit_and_step a m₁,
      bit_and_step (a / 2) (m₁ / 2),
      bit_and_step (a / 2 / 2) (m₁ / 2 / 2),
      bit_and_step (a / 2 / 2 / 2) (m₁ / 2 / 2 / 2),
      ap (λ (t : ℕ). bit_and t m) (let e : a / 2 / 2 / 2 / 2 ≡ a / 16 = omega arith in e),
      ap (λ (t : ℕ). bit_and (a / 2 / 2 / 2 / 2) t)
          (let e : m₁ / 2 / 2 / 2 / 2 ≡ m = omega arith in e),
    )

pub bit_and_0x0f : (a : ℕ) → bit_and a 0x0f ≡ a % 16
bit_and_0x0f a = omega (arith, bit_and_nibble a 0, bit_and-zero (a / 16))

bit_and_0xff : (a : ℕ) → bit_and a 0xff ≡ a % 256
bit_and_0xff a = omega (arith, bit_and_nibble a 15, bit_and_0x0f (a / 16))

bit_and_0xfff : (a : ℕ) → bit_and a 0xfff ≡ a % 4096
bit_and_0xfff a = omega (arith, bit_and_nibble a 255, bit_and_0xff (a / 16))

pub bit_and_0xffff : (a : ℕ) → bit_and a 0xffff ≡ a % 65536
bit_and_0xffff a = omega (arith, bit_and_nibble a 4095, bit_and_0xfff (a / 16))

zero-bit_or : (b : ℕ) → bit_or 0 b ≡ b
zero-bit_or b = bit_or-bitwise 0 b

bit_or_step : (a b : ℕ) → bit_or a b ≡ bit_or (a / 2) (b / 2) * 2 + max (a % 2) (b % 2)
bit_or_step zero b = omega (arith, zero-bit_or b, zero-bit_or (b / 2))
bit_or_step (suc a) b =
    let whole = bit_or-bitwise (suc a) b in
    let halves = bit_or-bitwise (suc a / 2) (b / 2) in
    omega (arith, whole, digits_half (λ d. d) max a b, halves)

bit_or-zero_fuel : (n a : ℕ) → a ≤ n → bit_or a 0 ≡ a
bit_or-zero_fuel n zero h = refl
bit_or-zero_fuel zero (suc a) h = absurd (omega arith)
bit_or-zero_fuel (suc n) (suc a) h =
    omega (arith, bit_or_step (suc a) 0, bit_or-zero_fuel n (suc a / 2) (omega arith))

bit_or_nibble : (h l : ℕ) → bit_or (h * 16) l ≡ bit_or h (l / 16) * 16 + l % 16
bit_or_nibble h l =
    let a = h * 16 in
    omega (
      arith,
      bit_or_step a l,
      bit_or_step (a / 2) (l / 2),
      bit_or_step (a / 2 / 2) (l / 2 / 2),
      bit_or_step (a / 2 / 2 / 2) (l / 2 / 2 / 2),
      ap (λ (t : ℕ). bit_or t (l / 16)) (let e : a / 2 / 2 / 2 / 2 ≡ h = omega arith in e),
      ap (λ (t : ℕ). bit_or (a / 2 / 2 / 2 / 2) t)
          (let e : l / 2 / 2 / 2 / 2 ≡ l / 16 = omega arith in e),
    )

-- `high << 8 | low` joins two bytes.
pub bit_or-byte : (h l : ℕ) → l < 256 → bit_or (h * 256) l ≡ h * 256 + l
bit_or-byte h l p = omega (
  arith,
  ap (λ (t : ℕ). bit_or t l) (let e : h * 256 ≡ h * 16 * 16 = omega arith in e),
  bit_or_nibble (h * 16) l,
  bit_or_nibble h (l / 16),
  ap (λ (t : ℕ). bit_or h t) (let e : l / 16 / 16 ≡ 0 = omega arith in e),
  bit_or-zero_fuel h h (omega arith),
)

mod_double : (a m : ℕ) → 0 < m → a % (m * 2) ≡ a / 2 % m * 2 + a % 2
mod_double a m pos =
    let q = a / 2 / m in
    let r = a / 2 % m * 2 + a % 2 in
    let small : r < m * 2 = omega (arith, mod-lt (a / 2) pos) in
    let split : a ≡ r + m * 2 * q = omega (arith, ap (λ (t : ℕ). t * 2) (div-add-mod (a / 2) m)) in
    ap (λ (t : ℕ). t % (m * 2)) split ∙ add-mul-mod_self_left r (m * 2) q ∙ mod-eq_of_lt small

-- The mask of a power of two takes the remainder.
pub bit_and_mask : (k a : ℕ) → bit_and a (2 ^ k - 1) ≡ a % 2 ^ k
bit_and_mask zero a = omega (arith, bit_and-zero a)
bit_and_mask (suc k) a =
    let pos : 0 < 2 ^ k = one-le-pow k 2 (omega arith) in
    let double : 2 ^ suc k ≡ 2 ^ k * 2 = pow-suc 2 k in
    let mask = 2 ^ suc k - 1 in
    omega (
      arith,
      bit_and_step a mask,
      bit_and_mask k (a / 2),
      ap (λ (t : ℕ). bit_and (a / 2) t) (let e : mask / 2 ≡ 2 ^ k - 1 = omega arith in e),
      mod_double a (2 ^ k) pos,
      ap (λ (t : ℕ). a % t) double,
    )

-- A mask whose last two digits are 0 clears two digits.
pub bit_and-clear_two : (x m : ℕ) → bit_and x (m * 4) ≡ bit_and (x / 4) m * 4
bit_and-clear_two x m =
    let once : m * 4 / 2 ≡ m * 2 = omega arith in
    let twice : m * 2 / 2 ≡ m = omega arith in
    let quarter : x / 2 / 2 ≡ x / 4 = omega arith in
    omega (
      arith,
      bit_and_step x (m * 4),
      ap (λ (t : ℕ). bit_and (x / 2) t) once,
      bit_and_step (x / 2) (m * 2),
      ap (λ (t : ℕ). bit_and (x / 2 / 2) t) twice,
      ap (λ (t : ℕ). bit_and t m) quarter,
    )
