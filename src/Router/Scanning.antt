-- ===== src/Router/Scanning.antt =====
-- The searches and cuts that `parse_request` of src/router.rs makes in a line.

use gput.Base.{
  ℕ, suc, ◌+◌, ◌≡◌, refl, ap, ◌∙◌, false, none, some, [], ◌∷◌, ◌++◌, arith, ◌==◌, length, drop, All,
  ==_self,
}
use gput.Base.Text.{split_on, find_window}
use gput.Router.Body.{Bytes}
use gput.Router.Request.{position, strip_last}

-- The byte does not stand there.
abbrev pub Without : ℕ → Bytes → Type 0
Without b xs = All (λ (x : ℕ). x == b ≡ false) xs

pub position-Without :
    (b : ℕ) (xs rest : Bytes) → Without b xs → position b (xs ++ b ∷ rest) ≡ some (length xs)
unfolding position
position-Without b [] rest h = rw (==_self b) refl
position-Without b (x ∷ xs) rest h = rw (h.0, position-Without b xs rest h.1) refl

pub position-none : (b : ℕ) (xs : Bytes) → Without b xs → position b xs ≡ none
unfolding position
position-none b [] h = refl
position-none b (x ∷ xs) h = rw (h.0, position-none b xs h.1) refl

pub strip_last-append : (b : ℕ) (xs : Bytes) → strip_last b (xs ++ b ∷ []) ≡ xs
unfolding strip_last
strip_last-append b [] = rw (==_self b) refl
strip_last-append b (x ∷ []) = ap (λ t. x ∷ t) (strip_last-append b [])
strip_last-append b (x ∷ y ∷ xs) = ap (λ t. x ∷ t) (strip_last-append b (y ∷ xs))

pub strip_last-Without : (b : ℕ) (xs : Bytes) → Without b xs → strip_last b xs ≡ xs
unfolding strip_last
strip_last-Without b [] h = refl
strip_last-Without b (x ∷ []) h = rw h.0 refl
strip_last-Without b (x ∷ y ∷ xs) h = ap (λ t. x ∷ t) (strip_last-Without b (y ∷ xs) h.1)

pub split_on-Without : (b : ℕ) (xs : Bytes) → Without b xs → split_on b xs ≡ xs ∷ []
unfolding split_on
split_on-Without b [] h = refl
split_on-Without b (x ∷ xs) h = rw (h.0, split_on-Without b xs h.1) refl

pub split_on-append :
    (b : ℕ) (xs rest : Bytes) → Without b xs → split_on b (xs ++ b ∷ rest) ≡ xs ∷ split_on b rest
unfolding split_on
split_on-append b [] rest h = rw (==_self b) refl
split_on-append b (x ∷ xs) rest h = rw (h.0, split_on-append b xs rest h.1) refl

pub drop-append_right : (b : ℕ) (xs ys : Bytes) → drop (length xs + 1) (xs ++ b ∷ ys) ≡ ys
drop-append_right b xs ys =
    ap (λ k. drop k (xs ++ b ∷ ys)) (let e : length xs + 1 ≡ suc (length xs) = omega arith in e)
    ∙ drop_past xs
  where
    drop_past : (xs : Bytes) → drop (suc (length xs)) (xs ++ b ∷ ys) ≡ ys
    drop_past [] = refl
    drop_past (x ∷ xs) = drop_past xs

pub find_crlf :
    (xs rest : Bytes)
    → Without 13 xs
    → find_window (13 ∷ 10 ∷ []) (xs ++ 13 ∷ 10 ∷ rest) ≡ some (length xs)
unfolding find_window
find_crlf [] rest h = refl
find_crlf (x ∷ xs) rest h = rw (==_flip x 13 h.0, find_crlf xs rest h.1) refl
  where
    ==_flip : (a b : ℕ) → a == b ≡ false → b == a ≡ false
    ==_flip a b h = ground (arith, h)
