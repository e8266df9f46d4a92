-- ===== src/Router/Decimal.antt =====
-- Numbers in decimal: what `format!`, `to_string` and `ilog10` of the standard library compute on a
-- `usize`, and `decimal_digits` of src/router.rs. Twenty digits hold every `usize`.

use native.Mathlib.Nat.{pow-suc}
use gput.Base.{
  ℕ, zero, suc, ◌+◌, ◌-◌, ◌*◌, ◌/◌, ◌%◌, ◌^◌, ◌≤◌, ◌<◌, max, ◌≡◌, inl, inr, refl, sym, ap, ◌∙◌,
  true, false, [], ◌∷◌, ◌++◌, arith, leb, ◌==◌, if◌then◌else◌, length, Bool-cases, length-append,
  Outcome, ok, panic, ◌>>=◌,
}
use gput.Router.Body.{Bytes}

unfoldable pub decimal_from : ℕ → ℕ → Bytes
decimal_from zero n = []
decimal_from (suc digits) n = elim (leb n 9) [
  | true ↦ (b'0' + n) ∷ []
  | false ↦ decimal_from digits (n / 10) ++ (b'0' + n % 10) ∷ []
]

abbrev pub decimal : ℕ → Bytes
decimal n = decimal_from 20 n

-- How often a number can be divided by 10 before it is below 10.
unfoldable pub ilog10_from : ℕ → ℕ → ℕ
ilog10_from zero n = 0
ilog10_from (suc digits) n = elim (leb n 9) [ true ↦ 0 | false ↦ ilog10_from digits (n / 10) + 1 ]

-- `ilog10`, which panics at 0.
unfoldable pub ilog10 : ℕ → Outcome ℕ
ilog10 n = if n == 0 then panic else ok (ilog10_from 20 n)

unfoldable pub decimal_digits : ℕ → Outcome ℕ
decimal_digits value = do log ← ilog10 (max value 1); ok (log + 1)

-- What `decimal_digits` returns.
pub digit_count : ℕ → ℕ
digit_count n = ilog10_from 20 (max n 1) + 1

pub decimal_digits-digit_count : (n : ℕ) → decimal_digits n ≡ ok (digit_count n)
unfolding decimal_digits digit_count ilog10
decimal_digits-digit_count zero = refl
decimal_digits-digit_count (suc n) =
    let e : max (suc n) 1 ≡ suc n = omega arith in
    let nonzero : suc n == 0 ≡ false = ground arith in rw (e, nonzero) refl

pub length-decimal_from :
    (digits n : ℕ)
    → n < 10 ^ suc digits
    → length (decimal_from (suc digits) n) ≡ ilog10_from (suc digits) n + 1
unfolding decimal_from ilog10_from
length-decimal_from zero n h = ground arith
length-decimal_from (suc digits) n h = elim (Bool-cases (leb n 9)) [
  | inl small ↦ rw (small, decimal_from, ilog10_from, length) refl
  | inr large ↦
      let power : 10 ^ suc (suc digits) ≡ 10 ^ suc digits * 10 = pow-suc 10 (suc digits) in
      let ih = length-decimal_from digits (n / 10) (omega (arith, power, h)) in
      rw (large, decimal_from, ilog10_from)
        (omega
          (arith, length-append (decimal_from (suc digits) (n / 10)) ((b'0' + n % 10) ∷ []), ih))
]

pub ilog10_from_mono : (digits m n : ℕ) → m ≤ n → ilog10_from digits m ≤ ilog10_from digits n
unfolding ilog10_from
ilog10_from_mono zero m n h = omega arith
ilog10_from_mono (suc digits) m n h =
    ground (arith, ilog10_from_mono digits (m / 10) (n / 10) (omega arith))

pub ilog10_from-le : (k digits n : ℕ) → n < 10 ^ suc k → ilog10_from digits n ≤ k
unfolding ilog10_from
ilog10_from-le k zero n h = omega arith
ilog10_from-le zero (suc digits) n h = ground arith
ilog10_from-le (suc k) (suc digits) n h = elim (Bool-cases (leb n 9)) [
  | inl small ↦ rw (small, ilog10_from) (omega arith)
  | inr large ↦
      let power : 10 ^ suc (suc k) ≡ 10 ^ suc k * 10 = pow-suc 10 (suc k) in
      rw (large, ilog10_from)
        (omega (arith, ilog10_from-le k digits (n / 10) (omega (arith, power, h))))
]

ilog10_from-one : (n : ℕ) → ilog10_from 20 (max n 1) ≡ ilog10_from 20 n
unfolding ilog10_from
ilog10_from-one zero = refl
ilog10_from-one (suc n) = ap (ilog10_from 20) (omega arith)

-- A number has at most that many digits, also beyond the range of `usize`.
pub length-decimal_from_le :
    (digits n : ℕ) → length (decimal_from digits n) ≤ ilog10_from digits n + 1
unfolding decimal_from ilog10_from
length-decimal_from_le zero n = omega arith
length-decimal_from_le (suc digits) n = elim (Bool-cases (leb n 9)) [
  | inl small ↦ rw (small, decimal_from, ilog10_from, length) (omega arith)
  | inr large ↦
      rw (large, decimal_from, ilog10_from)
        (omega (
          arith,
          length-append (decimal_from digits (n / 10)) ((b'0' + n % 10) ∷ []),
          length-decimal_from_le digits (n / 10),
        ))
]

-- The digits of a number are no more than those of a larger one.
pub length-decimal_le : (m n : ℕ) → m ≤ n → length (decimal m) ≤ digit_count n
unfolding digit_count
length-decimal_le m n h =
    omega (arith, length-decimal_from_le 20 m, ilog10_from_mono 20 m (max n 1) (omega arith))

-- A number of 32 bits has at most ten digits.
pub length-decimal_u32 : (n : ℕ) → n < 2 ^ 32 → length (decimal n) ≤ 10
length-decimal_u32 n h =
    omega (arith, length-decimal_from_le 20 n, ilog10_from-le 9 20 n (omega arith))

-- `d` is the number of digits of `n`: the least that is positive and has `n` below `10 ^ d`; and `n`
-- is written with as many.
pub record HasDigits (n d : ℕ) : Type 0 where
  pub positive : 0 < d
  pub below : n < 10 ^ d
  pub least : 10 ^ (d - 1) ≤ max n 1
  pub written : length (decimal n) ≡ d

ilog10_from-between :
    (digits n : ℕ)
    → 0 < n
    → n < 10 ^ suc digits
    → (10 ^ ilog10_from (suc digits) n ≤ n) × (n < 10 ^ suc (ilog10_from (suc digits) n))
unfolding ilog10_from
ilog10_from-between zero n pos h = elim (Bool-cases (leb n 9)) [
  | inl small ↦ rw (small, ilog10_from) (omega arith, omega arith)
  | inr large ↦ absurd (ground arith)
]
ilog10_from-between (suc digits) n pos h = elim (Bool-cases (leb n 9)) [
  | inl small ↦ rw (small, ilog10_from) (omega arith, ground arith)
  | inr large ↦
      let ten : 9 < n = ground arith in
      let power : 10 ^ suc (suc digits) ≡ 10 ^ suc digits * 10 = pow-suc 10 (suc digits) in
      let (low, high) =
        ilog10_from-between digits (n / 10) (omega arith) (omega (arith, power, h)) in
      let k = ilog10_from (suc digits) (n / 10) in
      let once : 10 ^ (k + 1) ≡ 10 ^ k * 10 =
        ap (λ e. 10 ^ e) (let e : k + 1 ≡ suc k = omega arith in e) ∙ pow-suc 10 k in
      let twice : 10 ^ suc (k + 1) ≡ 10 ^ suc k * 10 =
        ap (λ e. 10 ^ suc e) (let e : k + 1 ≡ suc k = omega arith in e) ∙ pow-suc 10 (suc k) in
      rw (large, ilog10_from) (omega (arith, low, once), omega (arith, high, twice))
]

-- For every `usize`, 0 included, `decimal_digits` returns the number of digits: the least positive
-- `d` with the number below `10 ^ d`, and as many bytes as the number is written with.
pub decimal_digits-HasDigits :
    (n : ℕ) → n < 2 ^ 64 → (d : ℕ) × (decimal_digits n ≡ ok d) × HasDigits n d
unfolding digit_count
decimal_digits-HasDigits n h =
    let (low, high) = ilog10_from-between 19 (max n 1) (omega arith) (omega arith) in
    let log = ilog10_from 20 (max n 1) in
    (
      digit_count n,
      decimal_digits-digit_count n,
      record {
        positive = omega arith;
        below =
            let e : 10 ^ (log + 1) ≡ 10 ^ suc log =
              ap (λ k. 10 ^ k) (let k : log + 1 ≡ suc log = omega arith in k) in
            omega (arith, high, e);
        least =
            let e : 10 ^ (log + 1 - 1) ≡ 10 ^ log =
              ap (λ k. 10 ^ k) (let k : log + 1 - 1 ≡ log = omega arith in k) in
            omega (arith, low, e);
        written =
            length-decimal_from 19 n (omega arith) ∙ ap (λ k. k + 1) (sym (ilog10_from-one n));
      },
    )
