-- ===== src/Packet/Wave/Fill.antt =====
-- `fill_initial_wave` and `fill_next_wave` of src/packet/mod.rs: the packets of the next dispatch,
-- and those that wait for a later one. An index is a position in the batch.
pub mod State
pub mod Waves
pub mod Initial
use mathlib.Core.Logic.{dite, dif_pos, dif_neg}
use mathlib.Core.WellFounded.{Acc}
use gput.Base.{
  ℕ, zero, suc, ◌+◌, ◌-◌, ◌*◌, ◌/◌, ◌%◌, ◌^◌, ◌≤◌, ◌<◌, bit_and, bit_or, bit_xor, min, max, ◌≡◌,
  ◌≢◌, ◌↔◌, ◌⊎◌, inl, inr, refl, sym, ap, ◌∙◌, Bool, true, false, not, ◌&&◌, ◌||◌, Option, none,
  some, List, [], ◌∷◌, ◌++◌, map, arith, dec_lt, dec_le, ltb, leb, ◌==◌, ◌!=◌, if◌then◌else◌,
  length, replicate, take, drop, All, get_or, get_elem?, set as replace, Outcome, Error, ok, err,
  panic, ◌>>=◌, ◌>>◌, ensure, index, slice, store, copy_at, ipv4_tcp_too_large, ipv4_length_limit,
  packet_too_small, bad_header_length, total_length_exceeds, bad_ipv4_checksum, bad_tcp_checksum,
  zero_batch_size, zero_flow_capacity, flow_capacity_not_power_of_two, zero_probe_limit,
  probe_limit_exceeds_capacity, batch_size_not_u32, flow_capacity_not_u32, response_does_not_fit,
  lock_poisoned, packet_empty, packet_too_large, Bool-cases, Option-cases, ==_self, ==_iff, !=_self,
  !=_iff, ne→!=, lt→ltb, le→ltb, le→leb, lt→leb, ltb→lt, length-append, length-set, length-take,
  length-drop, length-replicate, take-length_self, take-append_left, drop-append_left,
  take-append-drop, replicate-add, All-append, All-take, All-drop, index-get_or, store-set,
  slice-eq_ok,
}
use gput.Base.Order.{lt_wf}
use gput.Base.Bits.{bit_and_0xffff, bit_and_0x0f, bit_or-byte, bit_and_mask, bit_and-zero}
use gput.Base.Text.{
  codes, bytes_eq, bytes_eq_iff, starts_with, find_window, split_on, overwrite, all_bytes,
}
use gput.Packet.Raw
use gput.Packet.Raw.{RawPacket, as_bytes}
use gput.Packet.Wire.Header.{FlowKey, add_u32}
use gput.Packet.Wire.Parse.{flow_hash, scheduling_flow_key}
use gput.Packet.Wire.Parse.Accepts.{scheduling_flow_key-total, scheduling_flow_key-parse}
use gput.Packet.Flow.{key_eq, key_eq_iff}
use gput.Packet.Wave.FlowSet.{FlowSet, begin, insert}

-- `usize::div_ceil` by the size of a `u32`.
abbrev pub words_of : RawPacket → ℕ
words_of packet = (length packet.bytes + 3) / 4

pub record Limits : Type 0 where
  pub max_batch_size : ℕ
  pub max_input_words : ℕ

-- The state of both loops: the set of flows in the wave, the wave, the indices that wait, and the
-- words that the wave takes.
pub record Filling : Type 0 where
  pub seen : FlowSet
  pub wave : List ℕ
  pub deferred : List ℕ
  pub input_words : ℕ

abbrev pub defer : Filling → ℕ → Filling
defer filling i = record filling { deferred = filling.deferred ++ i ∷ [] }

abbrev pub admit : Filling → ℕ → ℕ → Filling
admit filling i packet_words = record filling {
  wave = filling.wave ++ i ∷ [];
  input_words = filling.input_words + packet_words;
}

-- What `seen.insert(key)` says of the packet.
abbrev pub after_insert :
    Filling → ℕ → ℕ → Outcome (Option (Bool × FlowSet)) → Outcome (Option Filling)
after_insert filling i packet_words (ok none) = ok none
after_insert filling i packet_words (ok (some (true, seen))) =
    ok (some (admit (record filling { seen = seen }) i packet_words))
after_insert filling i packet_words (ok (some (false, seen))) =
    ok (some (defer (record filling { seen = seen }) i))
after_insert filling i packet_words (err e) = err e
after_insert filling i packet_words panic = panic

abbrev pub admit_key : Filling → ℕ → ℕ → Option FlowKey → Outcome (Option Filling)
admit_key filling i packet_words none = ok (some (admit filling i packet_words))
admit_key filling i packet_words (some key) =
    after_insert filling i packet_words (insert filling.seen key)

-- The test that leaves a packet for a later wave whatever its flow.
abbrev pub is_full : Limits → Filling → ℕ → Bool
is_full limits filling packet_words =
    length filling.wave == limits.max_batch_size
    || ltb limits.max_input_words (filling.input_words + packet_words)

-- The body of `fill_next_wave`'s loop; the keys are read only where the source reads them.
unfoldable pub next_step :
    Limits → List RawPacket → List (Option FlowKey) → Filling → ℕ → Outcome (Option Filling)
next_step limits packets keys filling i = do
  packet ← index packets i
  if is_full limits filling (words_of packet)
      then ok (some (defer filling i))
      else index keys i >>= λ key. admit_key filling i (words_of packet) key

-- A loop that goes on while its set answers.
abbrev pub go_on {ℓ} :
    {A : Type ℓ} → Outcome (Option Filling) → (Filling → Outcome (Option A)) → Outcome (Option A)
go_on (ok none) rest = ok none
go_on (ok (some filling)) rest = rest filling
go_on (err e) rest = err e
go_on panic rest = panic

unfoldable pub fill_pending :
    Limits → List RawPacket → List (Option FlowKey) → List ℕ → Filling → Outcome (Option Filling)
fill_pending limits packets keys [] filling = ok (some filling)
fill_pending limits packets keys (i ∷ pending) filling =
    go_on (next_step limits packets keys filling i) (fill_pending limits packets keys pending)

abbrev pub start : FlowSet → Filling
start seen = record { seen = seen; wave = []; deferred = []; input_words = 0 }

unfoldable pub fill_next_wave :
    List RawPacket → List (Option FlowKey) → List ℕ → Limits → FlowSet → Outcome (Option Filling)
fill_next_wave packets keys pending limits seen = do
  fresh ← begin seen (length pending)
  fill_pending limits packets keys pending (start fresh)

-- The body of `fill_initial_wave`'s loop, for the packet at `i`.
unfoldable pub initial_step :
    Limits → Filling → ℕ → RawPacket → Option FlowKey → Outcome (Option Filling)
initial_step limits filling i packet key =
    if is_full limits filling (words_of packet)
    then ok (some (defer filling i))
    else admit_key filling i (words_of packet) key

-- The loop from the packet at `i` on, with the keys of those before.
unfoldable pub fill_packets :
    Limits
    → ℕ
    → List RawPacket
    → List (Option FlowKey)
    → Filling
    → Outcome (Option (List (Option FlowKey) × Filling))
fill_packets limits i [] keys filling = ok (some (keys, filling))
fill_packets limits i (packet ∷ packets) keys filling = scheduling_flow_key packet >>= λ key.
    go_on (initial_step limits filling i packet key)
      (fill_packets limits (i + 1) packets (keys ++ key ∷ []))

unfoldable pub fill_initial_wave :
    List RawPacket → Limits → FlowSet → Outcome (Option (List (Option FlowKey) × Filling))
fill_initial_wave packets limits seen = do
  fresh ← begin seen (length packets)
  fill_packets limits 0 packets [] (start fresh)
