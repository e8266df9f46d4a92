-- ===== src/Packet/Wire/Checksum/Sums.antt =====
-- What `checksum` and `fold_checksum` of src/packet/wire.rs compute.
use mathlib.Core.Logic.{dif_pos, dif_neg}
use mathlib.Core.WellFounded.{Acc}
use gput.Base.{
  ℕ, ◌+◌, ◌*◌, ◌/◌, ◌%◌, ◌^◌, ◌≤◌, ◌<◌, bit_and, ◌≡◌, ◌↔◌, inl, inr, refl, true, false, List, [],
  ◌∷◌, arith, dec_lt, ◌==◌, if◌then◌else◌, length, All, Bool-cases,
}
use native.Mathlib.Bridge.{le_prop}
use gput.Base.Order.{lt_wf}
use gput.Base.Bits.{bit_and_0xffff, bit_or-byte}
use gput.Packet.Raw.{IsByte}
use gput.Packet.Wire.Header.{add_u32}
use gput.Packet.Wire.Checksum.{
  fold_loop, carry_shrinks, fold_checksum, chunk_word, sum_chunks, checksum, sum_tcp_chunks,
}

-- The value that the carry loop ends with.
record Folds (sum r : ℕ) : Type 0 where
  small : r < 65536
  same : r % 65535 ≡ sum % 65535
  nonzero : 0 < sum → 0 < r
  below : r ≤ sum

fold_loop-Folds : (sum : ℕ) (w : Acc ◌<◌ sum) → Folds sum (fold_loop sum w)
unfolding fold_loop
fold_loop-Folds sum (Acc.intro _ smaller) = elim (dec_lt 0 (sum / 2 ^ 16)) [
  | yes more ↦
      let next = bit_and sum 0xffff + sum / 2 ^ 16 in
      let ih = fold_loop-Folds next (smaller next (carry_shrinks sum more)) in
      rw (dif_pos (dec_lt 0 (sum / 2 ^ 16)) le_prop more) (record {
        small = ih.small;
        same = omega (arith, ih.same, bit_and_0xffff sum);
        nonzero = λ h. omega (arith, ih.nonzero, bit_and_0xffff sum);
        below = omega (arith, ih.below, bit_and_0xffff sum);
      })
  | no done ↦
      rw (dif_neg (dec_lt 0 (sum / 2 ^ 16)) done)
        (record { small = omega arith; same = refl; nonzero = λ h. h; below = omega arith })
]

-- A checksum is zero exactly when the sum is a positive multiple of 65535.
pub fold_checksum-eq-zero : (sum : ℕ) → (fold_checksum sum ≡ 0) ↔ ((sum % 65535 ≡ 0) × (0 < sum))
unfolding fold_checksum
fold_checksum-eq-zero sum =
    let f = fold_loop-Folds sum (lt_wf.apply sum) in
    (λ h. omega (arith, f.below), λ h. omega (arith, f.nonzero h.1))

-- The sum of the big-endian words, the last byte padded with 0.
abbrev pub word_sum : List ℕ → ℕ
word_sum [] = 0
word_sum (a ∷ []) = a * 256
word_sum (a ∷ b ∷ rest) = a * 256 + b + word_sum rest

pub word_sum-le : (bytes : List ℕ) → All IsByte bytes → word_sum bytes ≤ 65535 * length bytes
word_sum-le [] h = omega arith
word_sum-le (a ∷ []) h = omega arith
word_sum-le (a ∷ b ∷ rest) h = omega (arith, word_sum-le rest h.1.1)

chunk_word-add : (a b : ℕ) → b < 256 → chunk_word a b ≡ a * 256 + b
chunk_word-add a b h = bit_or-byte a b h

pub sum_chunks-mod :
    (bytes : List ℕ) (sum : ℕ)
    → All IsByte bytes
    → sum < 2 ^ 32
    → sum_chunks sum bytes ≡ (sum + word_sum bytes) % 2 ^ 32
unfolding sum_chunks
sum_chunks-mod [] sum h k = omega arith
sum_chunks-mod (a ∷ []) sum h k = omega (arith, chunk_word-add a 0 (omega arith))
sum_chunks-mod (a ∷ b ∷ rest) sum h k = omega (
  arith,
  chunk_word-add a b h.1.0,
  sum_chunks-mod rest (add_u32 sum (chunk_word a b)) h.1.1 (omega arith),
)

-- Over at most 65535 bytes no carry is lost: the checksum is 0 exactly if the sum of the
-- big-endian words is a positive multiple of 65535.
pub checksum-eq-zero :
    (bytes : List ℕ)
    → All IsByte bytes
    → length bytes ≤ 65535
    → (checksum bytes ≡ 0) ↔ ((word_sum bytes % 65535 ≡ 0) × (0 < word_sum bytes))
unfolding checksum
checksum-eq-zero bytes h k =
    let sum : sum_chunks 0 bytes ≡ word_sum bytes =
      omega (arith, sum_chunks-mod bytes 0 h (omega arith), word_sum-le bytes h) in
    rw sum (fold_checksum-eq-zero (word_sum bytes))

-- A sum together with its own checksum is a positive multiple of 65535.
pub fold_checksum-completes :
    (sum : ℕ)
    → ((sum + fold_checksum sum) % 65535 ≡ 0)
      × (0 < sum + fold_checksum sum)
      × (fold_checksum sum < 2 ^ 16)
unfolding fold_checksum
fold_checksum-completes sum =
    let f = fold_loop-Folds sum (lt_wf.apply sum) in omega (arith, f.small, f.same, f.below)

-- `word_sum` without the word at index 8, where a segment holds its own checksum.
abbrev pub skip_sum : ℕ → List ℕ → ℕ
skip_sum i [] = 0
skip_sum i (a ∷ []) = if i == 8 then 0 else a * 256
skip_sum i (a ∷ b ∷ rest) = (if i == 8 then 0 else a * 256 + b) + skip_sum (i + 1) rest

pub skip_sum-after : (bytes : List ℕ) (i : ℕ) → 8 < i → skip_sum i bytes ≡ word_sum bytes
skip_sum-after [] i h = refl
skip_sum-after (a ∷ []) i h = ground arith
skip_sum-after (a ∷ b ∷ rest) i h = ground (arith, skip_sum-after rest (i + 1))

pub sum_tcp_chunks-whole :
    (bytes : List ℕ) (i sum : ℕ) → sum_tcp_chunks false i sum bytes ≡ sum_chunks sum bytes
unfolding sum_tcp_chunks sum_chunks
sum_tcp_chunks-whole [] i sum = refl
sum_tcp_chunks-whole (a ∷ []) i sum = refl
sum_tcp_chunks-whole (a ∷ b ∷ rest) i sum = sum_tcp_chunks-whole rest (i + 1) _

pub sum_tcp_chunks-skip :
    (bytes : List ℕ) (i sum : ℕ)
    → All IsByte bytes
    → sum < 2 ^ 32
    → sum_tcp_chunks true i sum bytes ≡ (sum + skip_sum i bytes) % 2 ^ 32
unfolding sum_tcp_chunks
sum_tcp_chunks-skip [] i sum h k = omega arith
sum_tcp_chunks-skip (a ∷ []) i sum h k = ground (arith, chunk_word-add a 0)
sum_tcp_chunks-skip (a ∷ b ∷ rest) i sum h k = elim (Bool-cases (i == 8)) [
  | inl at ↦ rw at (omega (arith, sum_tcp_chunks-skip rest (i + 1) sum h.1.1 k))
  | inr off ↦ rw off (
      omega (
        arith,
        chunk_word-add a b h.1.0,
        sum_tcp_chunks-skip rest (i + 1) (add_u32 sum (chunk_word a b)) h.1.1 (omega arith),
      ))
]

pub skip_sum-le :
    (bytes : List ℕ) (i : ℕ) → All IsByte bytes → skip_sum i bytes ≤ 65535 * length bytes
skip_sum-le [] i h = omega arith
skip_sum-le (a ∷ []) i h = ground arith
skip_sum-le (a ∷ b ∷ rest) i h = ground (arith, skip_sum-le rest (i + 1))

-- Bytes together with their own checksum sum to a multiple of 65535.
pub checksum-completes :
    (bytes : List ℕ)
    → All IsByte bytes
    → length bytes ≤ 65535
    → ((word_sum bytes + checksum bytes) % 65535 ≡ 0) × (checksum bytes < 2 ^ 16)
unfolding checksum
checksum-completes bytes h k =
    let sum : sum_chunks 0 bytes ≡ word_sum bytes =
      omega (arith, sum_chunks-mod bytes 0 h (omega arith), word_sum-le bytes h) in
    let c = fold_checksum-completes (sum_chunks 0 bytes) in omega (arith, c.0, c.2, sum)
