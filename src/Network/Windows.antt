-- ===== src/Network/Windows.antt =====
-- The search for a terminator in bytes that arrive in parts.

use gput.Base.{
  ℕ, suc, ◌+◌, ◌≤◌, ◌<◌, ◌≡◌, inl, inr, refl, sym, ap, ◌∙◌, Bool, true, false, ◌&&◌, Option, none,
  some, [], ◌∷◌, ◌++◌, arith, ◌==◌, length, Bool-cases,
}
use gput.Base.Text.{starts_with, find_window}
use mathlib.Core.Option
use gput.Router.Body.{Bytes}

starts_with-within :
    (pat xs ys : Bytes) → length pat ≤ length xs → starts_with pat (xs ++ ys) ≡ starts_with pat xs
starts_with-within [] xs ys h = refl
starts_with-within (p ∷ pat) [] ys h = absurd (omega arith)
starts_with-within (p ∷ pat) (x ∷ xs) ys h =
    ap (λ b. p == x && b) (starts_with-within pat xs ys (omega arith))

starts_with-length : (pat xs : Bytes) → starts_with pat xs ≡ true → length pat ≤ length xs
starts_with-length [] xs h = omega arith
starts_with-length (p ∷ pat) [] h = cc
starts_with-length (p ∷ pat) (x ∷ xs) h =
    let fits = starts_with-length pat xs (and_second (p == x) (starts_with pat xs) h) in
    omega (arith, fits)
  where
    and_second : (a b : Bool) → a && b ≡ true → b ≡ true
    and_second true b h = h
    and_second false b h = cc

find_window-here :
    (pat : Bytes) (x : ℕ) (xs : Bytes)
    → starts_with pat (x ∷ xs) ≡ true
    → find_window pat (x ∷ xs) ≡ some 0
unfolding find_window
find_window-here pat x xs h = rw h refl

find_window-next :
    (pat : Bytes) (x : ℕ) (xs : Bytes)
    → starts_with pat (x ∷ xs) ≡ false
    → find_window pat (x ∷ xs) ≡ Option.map suc (find_window pat xs)
unfolding find_window
find_window-next pat x xs h = rw h refl

some_injective : (m n : ℕ) → some m ≡ some n → m ≡ n
some_injective m n h = ground (arith, h)

map-some :
    (f : ℕ → ℕ) (o : Option ℕ) (n : ℕ)
    → Option.map f o ≡ some n
    → (m : ℕ) × (o ≡ some m) × (n ≡ f m)
map-some f none n h = cc
map-some f (some m) n h = (m, refl, sym (some_injective (f m) n h))

-- Where a pattern is found, it is there, or it is found behind the first byte.
data Found (pat : Bytes) (x : ℕ) (xs : Bytes) (n : ℕ) : Type 0 where
  here : starts_with pat (x ∷ xs) ≡ true → n ≡ 0 → Found pat x xs n
  later :
      (m : ℕ)
      → starts_with pat (x ∷ xs) ≡ false
      → find_window pat xs ≡ some m
      → n ≡ suc m
      → Found pat x xs n

Found-at :
    (pat : Bytes) (x : ℕ) (xs : Bytes) (n : ℕ)
    → find_window pat (x ∷ xs) ≡ some n
    → Found pat x xs n
Found-at pat x xs n h = elim (Bool-cases (starts_with pat (x ∷ xs))) [
  | inl first ↦ here first (some_injective n 0 (sym h ∙ find_window-here pat x xs first))
  | inr behind ↦
      let (m, at, is) =
        map-some suc (find_window pat xs) n (sym (find_window-next pat x xs behind) ∙ h) in
      later m behind at is
]

no_window {ℓ} : {A : Type ℓ} (pat : Bytes) (n : ℕ) → find_window pat [] ≡ some n → A
unfolding find_window
no_window pat n h = cc

pub find_window-length :
    (pat xs : Bytes) (n : ℕ) → find_window pat xs ≡ some n → n + length pat ≤ length xs
find_window-length pat [] n h = no_window pat n h
find_window-length pat (x ∷ xs) n h = elim (Found-at pat x xs n h) [
  | here first is ↦ let fits = starts_with-length pat (x ∷ xs) first in omega (arith, is, fits)
  | later m behind at is ↦ let fits = find_window-length pat xs m at in omega (arith, is, fits)
]

-- What is found stays where it is when more bytes come.
pub find_window-append :
    (pat xs ys : Bytes) (n : ℕ) → find_window pat xs ≡ some n → find_window pat (xs ++ ys) ≡ some n
find_window-append pat [] ys n h = no_window pat n h
find_window-append pat (x ∷ xs) ys n h =
    let fits = find_window-length pat (x ∷ xs) n h in
    let same = starts_with-within pat (x ∷ xs) ys (omega (arith, fits)) in
    elim (Found-at pat x xs n h) [
      | here first is ↦ find_window-here pat x (xs ++ ys) (same ∙ first) ∙ ap some (sym is)
      | later m behind at is ↦
          find_window-next pat x (xs ++ ys) (same ∙ behind)
          ∙ ap (Option.map suc) (find_window-append pat xs ys m at)
          ∙ ap some (sym is)
    ]

-- What is found among the first bytes is found there alone.
pub find_window-within :
    (pat xs ys : Bytes) (n : ℕ)
    → 0 < length pat
    → find_window pat (xs ++ ys) ≡ some n
    → n + length pat ≤ length xs
    → find_window pat xs ≡ some n
find_window-within pat [] ys n pos h k = absurd (omega (arith, k, pos))
find_window-within pat (x ∷ xs) ys n pos h k =
    let same = starts_with-within pat (x ∷ xs) ys (omega (arith, k)) in
    elim (Found-at pat x (xs ++ ys) n h) [
      | here first is ↦ find_window-here pat x xs (sym same ∙ first) ∙ ap some (sym is)
      | later m behind at is ↦
          let inner : find_window pat xs ≡ some m =
            find_window-within pat xs ys m pos at (omega (arith, is, k)) in
          find_window-next pat x xs (sym same ∙ behind)
          ∙ ap (Option.map suc) inner
          ∙ ap some (sym is)
    ]
