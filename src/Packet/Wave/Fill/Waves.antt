-- ===== src/Packet/Wave/Fill/Waves.antt =====
-- The invariant of the loops of `fill_next_wave` and `fill_initial_wave`, src/packet/mod.rs.

use gput.Base.{
  ℕ, ◌+◌, ◌^◌, ◌≤◌, ◌<◌, ◌≡◌, ◌↔◌, ◌⊎◌, inl, inr, refl, sym, ◌∙◌, Bool, true, false, Option, none,
  some, List, [], ◌∷◌, ◌++◌, arith, if◌then◌else◌, length, All, get_or, Outcome, ok, Bool-cases,
  Option-cases, length-append, index-get_or,
}
use mathlib.Core.List.{append_assoc, append-nil}
use gput.Packet.Raw.{RawPacket}
use gput.Packet.Wire.Header.{FlowKey}
use gput.Packet.Wave.Fill.State.{
  nothing, to_wave, to_waiting, Carries, Carries-snoc, OneEach-snoc, count_words,
  words_of-count_words, wave_words-snoc, Good,
}
use gput.Packet.Wave.FlowSet.{FlowSet, insert}
use gput.Packet.Wave.FlowSet.Members.{Holds, IsValid, used, insert-Inserts}
use gput.Packet.Wave.FlowSet.Begin.{IsStored, IsFresh, begin-IsFresh}
use gput.Packet.Wave.Fill.{
  words_of, Limits, Filling, defer, admit, after_insert, admit_key, is_full, next_step,
  fill_pending, start, fill_next_wave,
}

-- The step of both loops, for a packet whose words and key are known.
abbrev pub step : Limits → Filling → ℕ → ℕ → Option FlowKey → Outcome (Option Filling)
step limits filling i packet_words key =
    if is_full limits filling packet_words
    then ok (some (defer filling i))
    else admit_key filling i packet_words key

length-snoc : (xs : List ℕ) (x : ℕ) → length (xs ++ x ∷ []) ≡ length xs + 1
length-snoc xs x = length-append xs (x ∷ [])

module _ {limits : Limits} {words_at : ℕ → ℕ} {key_at : ℕ → Option FlowKey} {n : ℕ} {done : List ℕ}
    {f : Filling} (good : Good limits words_at key_at n done f) (i : ℕ) where
  defer-Good : Good limits words_at key_at n (done ++ i ∷ []) (defer f i)
  defer-Good = record {
    valid = good.valid;
    held = good.held;
    one_each = good.one_each;
    small = good.small;
    counted = good.counted;
    fits = good.fits;
    split = to_waiting i good.split;
    taken = omega (arith, length-snoc done i, good.taken);
    slots = good.slots;
  }

  -- A packet that is admitted, with the set `seen` after its key was looked up.
  admit-Good :
      (words : ℕ) (seen : FlowSet)
      → words ≡ words_at i
      → is_full limits f words ≡ false
      → IsValid seen
      → ((k : FlowKey) → Holds seen k ↔ (Carries key_at k f.wave ⊎ (key_at i ≡ some k)))
      → ((k : FlowKey) → key_at i ≡ some k → ¬ Carries key_at k f.wave)
      → used seen.generation seen.generations ≤ length done + 1
      → length seen.keys ≡ n
      → Good limits words_at key_at n (done ++ i ∷ []) (admit (record f { seen = seen }) i words)
  admit-Good words seen same room valid held new taken slots = record {
    valid = valid;
    held = λ k.
        let s = Carries-snoc key_at k f.wave i in
        (λ h. s.1 ((held k).0 h), λ c. (held k).1 (s.0 c));
    one_each = OneEach-snoc key_at f.wave i good.one_each new;
    small = ground (arith, length-snoc f.wave i, good.small, room);
    counted = omega (arith, wave_words-snoc words_at f.wave i, good.counted, same);
    fits = ground (arith, wave_words-snoc words_at f.wave i, good.counted, same, room);
    split = to_wave i good.split;
    taken = omega (arith, length-snoc done i, taken);
    slots = slots;
  }

  abbrev pub Steps : Outcome (Option Filling) → Type 0
  Steps result =
      (f' : Filling) × (result ≡ ok (some f')) × Good limits words_at key_at n (done ++ i ∷ []) f'

  module _ (words : ℕ) (key : FlowKey) (same : words ≡ words_at i)
      (room : is_full limits f words ≡ false) (at : key_at i ≡ some key) where
    same_key : (k : FlowKey) → key_at i ≡ some k → k ≡ key
    same_key k e = let s : some k ≡ some key = sym e ∙ at in cc

    after-Steps :
        (fresh : Bool) (seen : FlowSet)
        → IsValid seen
        → (fresh ≡ false) ↔ Holds f.seen key
        → ((k : FlowKey) → Holds seen k ↔ ((k ≡ key) ⊎ Holds f.seen k))
        → used seen.generation seen.generations ≤ length done + 1
        → length seen.keys ≡ n
        → Steps (after_insert f i words (ok (some (fresh, seen))))
    after-Steps true seen valid decides members taken slots = (
      admit (record f { seen = seen }) i words,
      refl,
      admit-Good words seen same room valid
          (λ k. (
            λ h. elim ((members k).0 h) [
              | inl e ↦ inr (rw e at)
              | inr old ↦ inl ((good.held k).0 old)
            ],
            λ c. elim c [
              | inl old ↦ (members k).1 (inr ((good.held k).1 old))
              | inr e ↦ (members k).1 (inl (same_key k e))
            ],
          ))
          (λ k e c.
            let held : Holds f.seen key = rw (← same_key k e) ((good.held k).1 c) in
            let no = decides.1 held in cc)
          taken slots,
    )
    after-Steps false seen valid decides members taken slots = (
      defer (record f { seen = seen }) i,
      refl,
      record {
        valid = valid;
        held = λ k. (
          λ h. elim ((members k).0 h) [
            | inl e ↦ (good.held k).0 (rw e (decides.0 refl))
            | inr old ↦ (good.held k).0 old
          ],
          λ c. (members k).1 (inr ((good.held k).1 c)),
        );
        one_each = good.one_each;
        small = good.small;
        counted = good.counted;
        fits = good.fits;
        split = to_waiting i good.split;
        taken = omega (arith, length-snoc done i, taken);
        slots = slots;
      },
    )

    insert-Steps : length done < n → Steps (after_insert f i words (insert f.seen key))
    insert-Steps more =
        let ins = insert-Inserts f.seen key good.valid (omega (arith, good.slots, good.taken)) in
        rw ins.returned (
          after-Steps ins.fresh ins.after ins.valid ins.decides ins.members
            (omega (arith, ins.filled, good.taken)) (ins.size ∙ good.slots))

  step-Steps :
      (words : ℕ) → words ≡ words_at i → length done < n → Steps (step limits f i words (key_at i))
  step-Steps words same more = elim (Bool-cases (is_full limits f words)) [
    | inl full ↦ rw full (defer f i, refl, defer-Good)
    | inr room ↦ elim (Option-cases (key_at i)) [
      | inr (key, at) ↦ rw (room, at) (insert-Steps words key same room at more)
      | inl e ↦
          rw (room, e)
            (
              admit f i words,
              refl,
              admit-Good words f.seen same room good.valid
                  (λ k. (
                    λ h. inl ((good.held k).0 h),
                    λ c. elim c [ inl old ↦ (good.held k).1 old | inr bad ↦ cc ],
                  ))
                  (λ k bad c. cc) (omega (arith, good.taken)) good.slots,
            )
    ]
  ]

start-Good :
    (limits : Limits) (words_at : ℕ → ℕ) (key_at : ℕ → Option FlowKey) (seen : FlowSet)
    (expected : ℕ)
    → IsFresh seen expected
    → Good limits words_at key_at (length seen.keys) [] (start seen)
start-Good limits words_at key_at seen expected fresh = record {
  valid = fresh.valid;
  held = λ k. (λ h. absurd (fresh.none_held k h), λ c. absurd c);
  one_each = tt;
  small = omega arith;
  counted = refl;
  fits = omega arith;
  split = nothing;
  taken = omega (arith, fresh.none_used);
  slots = refl;
}

abbrev pub no_packet : RawPacket
no_packet = record { bytes = [] }

-- The words of the packet at `i`.
abbrev pub packet_words_at : List RawPacket → ℕ → ℕ
packet_words_at packets i = count_words (RawPacket.bytes (get_or packets i no_packet))

module _ (limits : Limits) (packets : List RawPacket) (keys : List (Option FlowKey))
    (aligned : length keys ≡ length packets) where
  abbrev key_of_index : ℕ → Option FlowKey
  key_of_index i = get_or keys i none

  next_step-eq :
      (f : Filling) (i : ℕ)
      → i < length packets
      → next_step limits packets keys f i
        ≡ step limits f i (words_of (get_or packets i no_packet)) (get_or keys i none)
  unfolding next_step
  next_step-eq f i inside =
      rw (index-get_or packets i no_packet inside, index-get_or keys i none (omega arith)) refl

  fill_pending-Good :
      (pending : List ℕ) (n : ℕ) (done : List ℕ) (f : Filling)
      → Good limits (packet_words_at packets) key_of_index n done f
      → All (λ i. i < length packets) pending
      → length done + length pending < n
      → (f' : Filling) × (fill_pending limits packets keys pending f ≡ ok (some f'))
        × Good limits (packet_words_at packets) key_of_index n (done ++ pending) f'
  unfolding fill_pending
  fill_pending-Good [] n done f good inside room = (f, refl, rw (append-nil done) good)
  fill_pending-Good (i ∷ pending) n done f good inside room =
      let words = words_of (get_or packets i no_packet) in
      let same = words_of-count_words (RawPacket.bytes (get_or packets i no_packet)) in
      let (f₁, e₁, g₁) = step-Steps good i words same (omega arith) in
      let more : length (done ++ i ∷ []) + length pending < n = omega (arith, length-snoc done i) in
      let (f', e, g) = fill_pending-Good pending n (done ++ i ∷ []) f₁ g₁ inside.1 more in
      let first : next_step limits packets keys f i ≡ ok (some f₁) =
        next_step-eq f i inside.0 ∙ e₁ in
      (f', rw first e, rw (← append_assoc done (i ∷ []) pending) g)

  -- From a stored set, with a key for each packet and pending indices that are positions of
  -- packets, at most `2 ^ 62` of them, `fill_next_wave` returns. Its wave has no more packets
  -- than the batch size, the words that its packets take together, four bytes to a word, are
  -- within the input words and are what `input_words` says, and it holds at most one packet of a
  -- flow; every pending index is in the wave or waits, once and in order.
  pub fill_next_wave-Good :
      (pending : List ℕ) (seen : FlowSet)
      → IsStored seen
      → length pending ≤ 2 ^ 62
      → All (λ i. i < length packets) pending
      → (n : ℕ) × (f : Filling) × (fill_next_wave packets keys pending limits seen ≡ ok (some f))
        × Good limits (packet_words_at packets) (λ i. get_or keys i none) n pending f
  unfolding fill_next_wave
  fill_next_wave-Good pending seen stored few inside =
      let (fresh, e, is_fresh) = begin-IsFresh seen (length pending) stored few in
      let start_good =
        start-Good limits (packet_words_at packets) key_of_index fresh (length pending) is_fresh in
      let (f, r, g) =
        fill_pending-Good pending (length fresh.keys) [] (start fresh) start_good inside
          (omega (arith, is_fresh.room)) in
      (length fresh.keys, f, rw e r, g)
