-- ===== src/Base/Text.antt =====
-- Byte string literals.
use Prim.Native.Char.{code}
use Prim.Native.String.{String}
use Prim.Native.Nat.{ℕ, suc, ◌+◌}
use mathlib.Core.List.{List, [], ◌∷◌, ◌++◌}
use mathlib.Core.Bool.{Bool, true, false, ◌&&◌}
use mathlib.Core.Path.{◌≡◌, refl}
use mathlib.Core.Logic.{◌↔◌}
use native.Mathlib.Omega.{arith}
use mathlib.Core.Option
use mathlib.Core.Option.{Option, none, some}
use gput.Base.Lists.{length, take, drop}
use gput.Base.Tests.{◌==◌, ltb, if◌then◌else◌}

-- The code points of a text: its bytes, if it is ASCII.
abbrev pub codes : String → List ℕ
codes String.[] = []
codes (String.◌∷◌ c s) = code c ∷ codes s

-- `==` on byte slices.
abbrev pub bytes_eq : List ℕ → List ℕ → Bool
bytes_eq [] [] = true
bytes_eq [] (y ∷ ys) = false
bytes_eq (x ∷ xs) [] = false
bytes_eq (x ∷ xs) (y ∷ ys) = x == y && bytes_eq xs ys

pub bytes_eq_iff : (xs ys : List ℕ) → (bytes_eq xs ys ≡ true) ↔ (xs ≡ ys)
bytes_eq_iff [] [] = (λ _. refl, λ _. refl)
bytes_eq_iff [] (y ∷ ys) = (λ h. cc, λ h. cc)
bytes_eq_iff (x ∷ xs) [] = (λ h. cc, λ h. cc)
bytes_eq_iff (x ∷ xs) (y ∷ ys) = ground (arith, bytes_eq_iff xs ys)

-- The bytes begin with the pattern.
abbrev pub starts_with : List ℕ → List ℕ → Bool
starts_with [] xs = true
starts_with (p ∷ ps) [] = false
starts_with (p ∷ ps) (x ∷ xs) = p == x && starts_with ps xs

-- `xs.windows(pat.len()).position(|window| window == pat)`, for a pattern that is not empty.
unfoldable pub find_window : List ℕ → List ℕ → Option ℕ
find_window pat [] = none
find_window pat (x ∷ xs) =
    let rest = Option.map suc (find_window pat xs) in
    if starts_with pat (x ∷ xs) then some 0 else rest

abbrev prepend : ℕ → List (List ℕ) → List (List ℕ)
prepend x [] = (x ∷ []) ∷ []
prepend x (part ∷ parts) = (x ∷ part) ∷ parts

-- `xs.split(|byte| *byte == sep)`: at least one part, and one more for each separator.
unfoldable pub split_on : ℕ → List ℕ → List (List ℕ)
split_on sep [] = [] ∷ []
split_on sep (x ∷ xs) = let rest = split_on sep xs in if x == sep then [] ∷ rest else prepend x rest

-- `xs[a..a + ys.len()].copy_from_slice(ys)`, at a range that lies inside `xs`.
unfoldable pub overwrite : List ℕ → ℕ → List ℕ → List ℕ
overwrite xs a ys = take a xs ++ ys ++ drop (a + length ys) xs

-- Every number is a byte.
abbrev pub all_bytes : List ℕ → Bool
all_bytes [] = true
all_bytes (x ∷ xs) = ltb x 256 && all_bytes xs
