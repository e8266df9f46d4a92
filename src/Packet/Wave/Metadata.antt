-- ===== src/Packet/Wave/Metadata.antt =====
-- `prepare_wave_metadata` of src/packet/mod.rs: where each packet of a wave lies in the input words.

use gput.Base.{
  ℕ, ◌+◌, ◌^◌, ◌<◌, ◌≡◌, refl, ap, ◌∙◌, List, [], ◌∷◌, ◌++◌, arith, ltb, if◌then◌else◌, length, All,
  get_or, Outcome, Error, ok, err, ◌>>=◌, index, word_count_overflow, length_not_u32,
  word_offset_not_u32, lt→ltb, index-get_or,
}
use mathlib.Core.List.{append_assoc, append-nil}
use gput.Packet.Raw.{RawPacket}
use gput.Packet.Wave.Fill.{words_of}
use gput.Packet.Wave.Fill.Waves.{no_packet}

pub record PacketMeta : Type 0 where
  pub len : ℕ
  pub word_offset : ℕ

-- `u32::try_from`.
abbrev pub try_u32 : ℕ → Error → Outcome ℕ
try_u32 n e = if ltb n (2 ^ 32) then ok n else err e

abbrev pub add_words : ℕ → ℕ → Outcome ℕ
add_words a b = if ltb (a + b) (2 ^ 64) then ok (a + b) else err word_count_overflow

-- The loop, from the words and the metadata so far.
unfoldable pub prepare_from :
    List RawPacket → List ℕ → ℕ → List PacketMeta → Outcome (ℕ × List PacketMeta)
prepare_from packets [] word_count metadata = ok (word_count, metadata)
prepare_from packets (i ∷ wave) word_count metadata = index packets i >>= λ packet.
    add_words word_count (words_of packet) >>= λ next_count.
    try_u32 (length packet.bytes) length_not_u32 >>= λ len.
    try_u32 word_count word_offset_not_u32 >>= λ word_offset.
    prepare_from packets wave next_count
      (metadata ++ record { len = len; word_offset = word_offset } ∷ [])

unfoldable pub prepare_wave_metadata : List RawPacket → List ℕ → Outcome (ℕ × List PacketMeta)
prepare_wave_metadata packets wave = prepare_from packets wave 0 []

-- The packets one after the other, each in whole words.
module _ (packets : List RawPacket) where
  abbrev pub total_words : List ℕ → ℕ
  total_words [] = 0
  total_words (i ∷ wave) = words_of (get_or packets i no_packet) + total_words wave

  abbrev pub layout : ℕ → List ℕ → List PacketMeta
  layout offset [] = []
  layout offset (i ∷ wave) =
      record { len = length (get_or packets i no_packet).bytes; word_offset = offset }
      ∷ layout (offset + words_of (get_or packets i no_packet)) wave

  prepare_from-layout :
      (wave : List ℕ) (count : ℕ) (metadata : List PacketMeta)
      → All (λ i. i < length packets) wave
      → count + total_words wave < 2 ^ 30
      → prepare_from packets wave count metadata
        ≡ ok (count + total_words wave, metadata ++ layout count wave)
  unfolding prepare_from
  prepare_from-layout [] count metadata inside small =
      let e : count + 0 ≡ count = omega arith in rw (e, append-nil metadata) refl
  prepare_from-layout (i ∷ wave) count metadata inside small =
      let packet = get_or packets i no_packet in
      let words = words_of packet in
      let meta : PacketMeta = record { len = length packet.bytes; word_offset = count } in
      let sum : count + words + total_words wave ≡ count + (words + total_words wave) =
        omega arith in
      let rest =
        prepare_from-layout wave (count + words) (metadata ++ meta ∷ []) inside.1
          (omega (arith, small)) in
      rw
        (
          index-get_or packets i no_packet inside.0,
          lt→ltb (count + words) (2 ^ 64) (omega (arith, small)),
          lt→ltb (length packet.bytes) (2 ^ 32) (omega (arith, small)),
          lt→ltb count (2 ^ 32) (omega (arith, small)),
          ← sum,
          ← append_assoc metadata (meta ∷ []) (layout (count + words) wave),
        )
        rest

  -- For a wave of positions of packets that takes less than `2 ^ 30` words there is no error: the
  -- metadata has the length of each packet, in the order of the wave, at the word behind the
  -- packets before it, and the count is that of all words.
  pub prepare_wave_metadata-layout :
      (wave : List ℕ)
      → All (λ i. i < length packets) wave
      → total_words wave < 2 ^ 30
      → prepare_wave_metadata packets wave ≡ ok (total_words wave, layout 0 wave)
  unfolding prepare_wave_metadata
  prepare_wave_metadata-layout wave inside small =
      prepare_from-layout wave 0 [] inside (omega (arith, small))
      ∙ ap (λ (n : ℕ). ok (n, layout 0 wave))
          (let e : 0 + total_words wave ≡ total_words wave = omega arith in e)
