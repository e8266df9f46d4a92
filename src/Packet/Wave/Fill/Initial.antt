-- ===== src/Packet/Wave/Fill/Initial.antt =====
-- `fill_initial_wave` beside `fill_next_wave`, src/packet/mod.rs.

use gput.Base.{
  ℕ, suc, ◌+◌, ◌≡◌, refl, sym, ap, ◌∙◌, Option, none, some, List, [], ◌∷◌, ◌++◌, arith, length,
  Outcome, ok, err, panic, ◌>>=◌, index, length-append,
}
use mathlib.Core.List.{append_assoc, append-nil}
use gput.Packet.Raw.{RawPacket}
use gput.Packet.Wire.Header.{FlowKey}
use gput.Packet.Wire.Parse.{scheduling_flow_key}
use gput.Packet.Wave.FlowSet.{FlowSet, begin}
use gput.Packet.Wave.Fill.{
  Limits, Filling, next_step, go_on, fill_pending, start, fill_next_wave, initial_step,
  fill_packets, fill_initial_wave,
}

-- The keys that the scheduler reads from the packets.
abbrev pub Keyed : List RawPacket → List (Option FlowKey) → Type 0
Keyed [] [] = Unit
Keyed [] (key ∷ keys) = ⊥
Keyed (packet ∷ packets) [] = ⊥
Keyed (packet ∷ packets) (key ∷ keys) = (scheduling_flow_key packet ≡ ok key) × Keyed packets keys

-- `i`, `i + 1`, and so on, one for each packet.
abbrev pub positions : ℕ → List RawPacket → List ℕ
positions i [] = []
positions i (packet ∷ packets) = i ∷ positions (i + 1) packets

-- The result of the next wave with the keys beside it.
abbrev pub beside :
    List (Option FlowKey)
    → Outcome (Option Filling)
    → Outcome (Option (List (Option FlowKey) × Filling))
beside keys (ok none) = ok none
beside keys (ok (some filling)) = ok (some (keys, filling))
beside keys (err e) = err e
beside keys panic = panic

beside-go_on :
    (keys : List (Option FlowKey)) (first : Outcome (Option Filling))
    (rest : Filling → Outcome (Option Filling))
    (rest' : Filling → Outcome (Option (List (Option FlowKey) × Filling)))
    → ((f : Filling) → rest' f ≡ beside keys (rest f))
    → go_on first rest' ≡ beside keys (go_on first rest)
beside-go_on keys (ok none) rest rest' same = refl
beside-go_on keys (ok (some f)) rest rest' same = same f
beside-go_on keys (err e) rest rest' same = refl
beside-go_on keys panic rest rest' same = refl

beside-begin :
    (keys : List (Option FlowKey)) (first : Outcome FlowSet)
    (rest : FlowSet → Outcome (Option Filling))
    (rest' : FlowSet → Outcome (Option (List (Option FlowKey) × Filling)))
    → ((fresh : FlowSet) → rest' fresh ≡ beside keys (rest fresh))
    → first >>= rest' ≡ beside keys (first >>= rest)
beside-begin keys (ok fresh) rest rest' same = same fresh
beside-begin keys (err e) rest rest' same = refl
beside-begin keys panic rest rest' same = refl

index-middle {ℓ} :
    {A : Type ℓ} (xs : List A) (y : A) (ys : List A) → index (xs ++ y ∷ ys) (length xs) ≡ ok y
index-middle [] y ys = refl
index-middle (x ∷ xs) y ys = index-middle xs y ys

length-snoc {ℓ} : {A : Type ℓ} (xs : List A) (y : A) → length (xs ++ y ∷ []) ≡ length xs + 1
length-snoc xs y = length-append xs (y ∷ [])

module _ (limits : Limits) where
  initial_step-next :
      (before after : List RawPacket) (packet : RawPacket) (keys later : List (Option FlowKey))
      (key : Option FlowKey) (f : Filling)
      → length keys ≡ length before
      → initial_step limits f (length before) packet key
        ≡ next_step limits (before ++ packet ∷ after) (keys ++ key ∷ later) f (length before)
  unfolding initial_step next_step
  initial_step-next before after packet keys later key f aligned =
      let read : index (keys ++ key ∷ later) (length before) ≡ ok key =
        ap (index (keys ++ key ∷ later)) (sym aligned) ∙ index-middle keys key later in
      rw (index-middle before packet after, read) refl

  fill_packets-pending :
      (before packets : List RawPacket) (keys later : List (Option FlowKey)) (f : Filling)
      → length keys ≡ length before
      → Keyed packets later
      → fill_packets limits (length before) packets keys f
        ≡ beside (keys ++ later) (
            fill_pending limits
              (before ++ packets)
              (keys ++ later)
              (positions (length before) packets)
              f)
  unfolding fill_packets fill_pending
  fill_packets-pending before [] keys [] f aligned keyed = rw (append-nil keys) refl
  fill_packets-pending before [] keys (key ∷ later) f aligned keyed = absurd keyed
  fill_packets-pending before (packet ∷ packets) keys [] f aligned keyed = absurd keyed
  fill_packets-pending before (packet ∷ packets) keys (key ∷ later) f aligned keyed =
      let before' = before ++ packet ∷ [] in
      let keys' = keys ++ key ∷ [] in
      let aligned' : length keys' ≡ length before' =
        omega (arith, length-snoc keys key, length-snoc before packet, aligned) in
      let rest = λ (g : Filling).
        let again : fill_packets limits (length before + 1) packets keys' g
            ≡ beside (keys ++ key ∷ later) (
                fill_pending limits (before ++ packet ∷ packets) (keys ++ key ∷ later)
                  (positions (length before + 1) packets) g) =
          rw
            (
              ← length-snoc before packet,
              ← append_assoc before (packet ∷ []) packets,
              ← append_assoc keys (key ∷ []) later,
            )
            (fill_packets-pending before' packets keys' later g aligned' keyed.1) in
        again in
      let step = initial_step-next before packets packet keys later key f aligned in
      let same =
        beside-go_on (keys ++ key ∷ later)
          (next_step limits (before ++ packet ∷ packets) (keys ++ key ∷ later) f (length before))
          (fill_pending limits (before ++ packet ∷ packets) (keys ++ key ∷ later)
            (positions (length before + 1) packets))
          (fill_packets limits (length before + 1) packets keys') rest in
      rw (keyed.0, step) same

  length-positions :
      (i : ℕ) (packets : List RawPacket) → length (positions i packets) ≡ length packets
  length-positions i [] = refl
  length-positions i (packet ∷ packets) = ap suc (length-positions (i + 1) packets)

  -- The initial wave of a batch is the next wave in which every packet is pending, from the keys
  -- that the scheduler reads, and it returns those keys: the two loops agree on every outcome.
  pub fill_initial_wave-next :
      (packets : List RawPacket) (keys : List (Option FlowKey)) (seen : FlowSet)
      → Keyed packets keys
      → fill_initial_wave packets limits seen
        ≡ beside keys (fill_next_wave packets keys (positions 0 packets) limits seen)
  unfolding fill_initial_wave fill_next_wave
  fill_initial_wave-next packets keys seen keyed = rw (length-positions 0 packets) (
      beside-begin keys (begin seen (length packets))
        (λ fresh. fill_pending limits packets keys (positions 0 packets) (start fresh))
        (λ fresh. fill_packets limits 0 packets [] (start fresh))
        (λ fresh. fill_packets-pending [] packets [] keys (start fresh) refl keyed))
