-- ===== src/Network/Whole.antt =====
-- `read_raw_request` of src/network.rs against the whole of the bytes that arrive: how the stream cuts
-- them into reads makes no difference.

use gput.Base.{
  ℕ, zero, suc, ◌+◌, ◌≤◌, ◌<◌, ◌≡◌, ◌⊎◌, inl, inr, refl, sym, ap, ◌∙◌, false, Option, none, some,
  List, [], ◌∷◌, ◌++◌, arith, dec_le, length, take, drop, All, Option-cases, lt→ltb, le→ltb, le→leb,
  lt→leb, length-append,
}
use gput.Base.Text.{find_window}
use mathlib.Core.Option
use gput.Router.Body.{Bytes, is_empty}
use gput.Network.Framing.{
  header_terminator, Read, received, too_large, Framed, request, failed, complete_header_len,
  settled,
}
use gput.Network.Windows.{find_window-append, find_window-within, find_window-length}

-- The bytes of the parts, in order.
abbrev pub joined : List Bytes → Bytes
joined [] = []
joined (c ∷ chunks) = c ++ joined chunks

-- The reads that return the parts.
abbrev pub reads_of : List Bytes → List Read
reads_of [] = []
reads_of (c ∷ chunks) = received c ∷ reads_of chunks

-- A read that returns no bytes is the end of the stream.
abbrev pub AreRead : List Bytes → Type 0
AreRead chunks = All (λ (c : Bytes). is_empty c ≡ false) chunks

complete_header_len-some :
    (xs : Bytes) (p : ℕ)
    → find_window header_terminator xs ≡ some p
    → complete_header_len xs ≡ some (p + 4)
unfolding complete_header_len
complete_header_len-some xs p h = rw h refl

header_position :
    (xs : Bytes) (n : ℕ)
    → complete_header_len xs ≡ some n
    → (p : ℕ) × (find_window header_terminator xs ≡ some p) × (n ≡ p + 4)
unfolding complete_header_len
header_position xs n h = position_of (find_window header_terminator xs) n h
  where
    position_of :
        (o : Option ℕ) (n : ℕ)
        → Option.map (λ position. position + 4) o ≡ some n
        → (p : ℕ) × (o ≡ some p) × (n ≡ p + 4)
    position_of none n h = cc
    position_of (some p) n h = (p, refl, ground (arith, h))

pub complete_header_len-append :
    (xs ys : Bytes) (n : ℕ)
    → complete_header_len xs ≡ some n
    → complete_header_len (xs ++ ys) ≡ some n
complete_header_len-append xs ys n h =
    let (p, found, is) = header_position xs n h in
    complete_header_len-some (xs ++ ys) p (find_window-append header_terminator xs ys p found)
    ∙ ap some (sym is)

pub complete_header_len-within :
    (xs ys : Bytes) (n : ℕ)
    → complete_header_len (xs ++ ys) ≡ some n
    → n ≤ length xs
    → complete_header_len xs ≡ some n
complete_header_len-within xs ys n h k =
    let (p, found, is) = header_position (xs ++ ys) n h in
    complete_header_len-some xs p
      (find_window-within header_terminator xs ys p (omega arith) found (omega (arith, is, k)))
    ∙ ap some (sym is)

pub complete_header_len-le : (xs : Bytes) (n : ℕ) → complete_header_len xs ≡ some n → n ≤ length xs
complete_header_len-le xs n h =
    let (p, found, is) = header_position xs n h in
    let fits = find_window-length header_terminator xs p found in omega (arith, is, fits)

module _ (max : ℕ) where
  pub settled-request :
      (xs : Bytes) (n : ℕ)
      → complete_header_len xs ≡ some n
      → n ≤ max
      → settled max xs ≡ some (request (take n xs), drop n xs)
  unfolding settled
  settled-request xs n h k = rw (h, settled, le→ltb max n k) refl

  pub settled-large :
      (xs : Bytes) (n : ℕ)
      → complete_header_len xs ≡ some n
      → max < n
      → settled max xs ≡ some (failed too_large, xs)
  unfolding settled
  settled-large xs n h k = rw (h, settled, lt→ltb max n k) refl

  pub settled-full :
      (xs : Bytes)
      → complete_header_len xs ≡ none
      → max ≤ length xs
      → settled max xs ≡ some (failed too_large, xs)
  unfolding settled
  settled-full xs h k = rw (h, settled, le→leb max (length xs) k) refl

  pub settled-short :
      (xs : Bytes) → complete_header_len xs ≡ none → length xs < max → settled max xs ≡ none
  unfolding settled
  settled-short xs h k = rw (h, settled, lt→leb max (length xs) k) refl

  -- The four ways of `settled`.
  pub data Settles (xs : Bytes) : Type 0 where
    framed : (n : ℕ) → complete_header_len xs ≡ some n → n ≤ max → Settles xs
    beyond : (n : ℕ) → complete_header_len xs ≡ some n → max < n → Settles xs
    full : complete_header_len xs ≡ none → max ≤ length xs → Settles xs
    short : complete_header_len xs ≡ none → length xs < max → Settles xs

  pub settles : (xs : Bytes) → Settles xs
  settles xs = elim (Option-cases (complete_header_len xs)) [
    | inl absent ↦ elim (dec_le max (length xs)) [
      | yes k ↦ full absent k
      | no k ↦ short absent (omega (arith, k))
    ]
    | inr (n, found) ↦ elim (dec_le n max) [
      | yes k ↦ framed n found k
      | no k ↦ beyond n found (omega (arith, k))
    ]
  ]

  pub take-within : (n : ℕ) (xs ys : Bytes) → n ≤ length xs → take n (xs ++ ys) ≡ take n xs
  take-within zero xs ys h = refl
  take-within (suc n) [] ys h = absurd (omega arith)
  take-within (suc n) (x ∷ xs) ys h = ap (λ t. x ∷ t) (take-within n xs ys (omega arith))

  drop-within : (n : ℕ) (xs ys : Bytes) → n ≤ length xs → drop n (xs ++ ys) ≡ drop n xs ++ ys
  drop-within zero xs ys h = refl
  drop-within (suc n) [] ys h = absurd (omega arith)
  drop-within (suc n) (x ∷ xs) ys h = drop-within n xs ys (omega arith)

  -- What is settled by the bytes so far stays so, with the bytes that come behind the rest.
  pub settled-append :
      (xs ys : Bytes)
      → (settled max xs ≡ none)
        ⊎ ((out : Framed × Bytes) × (settled max xs ≡ some out)
            × (settled max (xs ++ ys) ≡ some (out.0, out.1 ++ ys)))
  settled-append xs ys = elim (settles xs) [
    | framed n found k ↦
        let fits = complete_header_len-le xs n found in
        inr (
          (request (take n xs), drop n xs),
          settled-request xs n found k,
          settled-request (xs ++ ys) n (complete_header_len-append xs ys n found) k
              ∙ ap some (λ i. (request (take-within n xs ys fits i), drop-within n xs ys fits i)),
        )
    | beyond n found k ↦ inr (
      (failed too_large, xs),
      settled-large xs n found k,
      settled-large (xs ++ ys) n (complete_header_len-append xs ys n found) k,
    )
    | full absent k ↦
        inr ((failed too_large, xs), settled-full xs absent k, still_full xs ys absent k)
    | short absent k ↦ inl (settled-short xs absent k)
  ]
    where
      still_full :
          (xs ys : Bytes)
          → complete_header_len xs ≡ none
          → max ≤ length xs
          → settled max (xs ++ ys) ≡ some (failed too_large, xs ++ ys)
      still_full xs ys absent k =
          let longer = length-append xs ys in
          elim (Option-cases (complete_header_len (xs ++ ys))) [
            | inl none_yet ↦ settled-full (xs ++ ys) none_yet (omega (arith, longer, k))
            | inr (n, found) ↦ elim (dec_le n (length xs)) [
              | yes inside ↦
                  let early = sym absent ∙ complete_header_len-within xs ys n found inside in cc
              | no outside ↦ settled-large (xs ++ ys) n found (omega (arith, outside, k))
            ]
          ]
