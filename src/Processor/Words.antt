-- ===== src/Processor/Words.antt =====
-- Words of 32 bits and their bytes in memory, as src/processor/gpu.rs casts them.

use gput.Base.{
  ℕ, zero, suc, ◌*◌, ◌/◌, ◌%◌, ◌≤◌, ◌<◌, ◌≡◌, refl, ap, ◌∙◌, List, [], ◌∷◌, ◌++◌, arith, length,
  replicate, drop, All, ok, copy_at,
}
use gput.Router.Body.{Bytes}
use gput.Processor.Pack.{word_bytes, cast_slice, le_word, words_of}

abbrev pub AreBytes : Bytes → Type 0
AreBytes xs = All (λ (x : ℕ). x < 256) xs

pub word_bytes-le_word :
    (a b c d : ℕ) → a < 256 → b < 256 → c < 256 → word_bytes (le_word a b c d) ≡ a ∷ b ∷ c ∷ d ∷ []
word_bytes-le_word a b c d ha hb hc =
    let e₀ : le_word a b c d % 256 ≡ a = omega arith in
    let e₁ : le_word a b c d / 256 % 256 ≡ b = omega arith in
    let e₂ : le_word a b c d / 65536 % 256 ≡ c = omega arith in
    let e₃ : le_word a b c d / 16777216 ≡ d = omega arith in λ i. e₀ i ∷ e₁ i ∷ e₂ i ∷ e₃ i ∷ []

-- Bytes of whole words are what their words stand for.
pub cast_slice-words_of :
    (n : ℕ) (xs : Bytes) → length xs ≡ n * 4 → AreBytes xs → cast_slice (words_of xs) ≡ xs
unfolding cast_slice words_of
cast_slice-words_of n [] h k = refl
cast_slice-words_of n (a ∷ []) h k = absurd (omega (arith, h))
cast_slice-words_of n (a ∷ b ∷ []) h k = absurd (omega (arith, h))
cast_slice-words_of n (a ∷ b ∷ c ∷ []) h k = absurd (omega (arith, h))
cast_slice-words_of zero (a ∷ b ∷ c ∷ d ∷ xs) h k = absurd (omega (arith, h))
cast_slice-words_of (suc n) (a ∷ b ∷ c ∷ d ∷ xs) h k =
    ap (λ t. t ++ cast_slice (words_of xs)) (word_bytes-le_word a b c d k.0 k.1.0 k.1.1.0)
    ∙ ap (λ t. a ∷ b ∷ c ∷ d ∷ t) (cast_slice-words_of n xs (omega (arith, h)) k.1.1.1.1)

pub cast_slice-append : (xs ys : List ℕ) → cast_slice (xs ++ ys) ≡ cast_slice xs ++ cast_slice ys
unfolding cast_slice
cast_slice-append [] ys = refl
cast_slice-append (x ∷ xs) ys = ap (λ t. word_bytes x ++ t) (cast_slice-append xs ys)

pub length-cast_slice : (xs : List ℕ) → length (cast_slice xs) ≡ length xs * 4
unfolding cast_slice
length-cast_slice [] = refl
length-cast_slice (x ∷ xs) = omega (arith, length-cast_slice xs)

pub cast_slice-zeros : (n : ℕ) → cast_slice (replicate n 0) ≡ replicate (n * 4) 0
unfolding cast_slice
cast_slice-zeros zero = refl
cast_slice-zeros (suc n) =
    ap (λ t. 0 ∷ 0 ∷ 0 ∷ 0 ∷ t) (cast_slice-zeros n)
    ∙ ap (λ k. replicate k 0) (let e : suc (suc (suc (suc (n * 4)))) ≡ suc n * 4 = omega arith in e)

pub copy_at-front :
    (xs ys : Bytes) → length ys ≤ length xs → copy_at xs 0 ys ≡ ok (ys ++ drop (length ys) xs)
copy_at-front xs [] h = refl
copy_at-front [] (y ∷ ys) h = absurd (omega arith)
copy_at-front (x ∷ xs) (y ∷ ys) h = rw (copy_at-front xs ys (omega arith)) refl

pub All-replicate : (n : ℕ) → AreBytes (replicate n 0)
All-replicate zero = tt
All-replicate (suc n) = (omega arith, All-replicate n)
