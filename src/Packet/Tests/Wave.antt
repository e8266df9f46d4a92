-- ===== src/Packet/Tests/Wave.antt =====
-- Theorems about the wave scheduler of src/packet/mod.rs at concrete inputs.

use gput.Base.{ℕ, ◌≡◌, refl, Option, none, some, List, [], ◌∷◌, arith, get_or, ok}
use gput.Packet.Raw.{RawPacket}
use gput.Packet.Wire.Header.{FlowKey}
use gput.Packet.Tests.Data.{client_key, syn_packet, get_packet}
use gput.Packet.Wave.FlowSet.{FlowSet, empty_set, begin, insert}
use gput.Packet.Wave.FlowSet.Begin.{IsFresh, begin-IsFresh, empty-IsStored}
use gput.Packet.Wave.FlowSet.Members.{Inserts, insert-Inserts}
use gput.Packet.Wave.Fill.{Limits, Filling, fill_next_wave}
use gput.Packet.Wave.Fill.State.{Good}
use gput.Packet.Wave.Fill.Waves.{packet_words_at, fill_next_wave-Good}
use gput.Packet.Wave.Fill.Initial.{Keyed, beside, fill_initial_wave-next}
use gput.Packet.Wire.Parse.Accepts.{scheduling_flow_key-parse}
use gput.Packet.Wire.RoundTrip.{view_of_spec}
use gput.Packet.Wave.Fill.{fill_initial_wave}
use gput.Packet.Tests.Data.{syn_view, syn_parsed, get_spec, get_parsed}
use gput.Packet.Wave.Metadata.{prepare_wave_metadata, layout, prepare_wave_metadata-layout}

abbrev begun : (after : FlowSet) × (begin empty_set 2 ≡ ok after) × IsFresh after 2
begun = begin-IsFresh empty_set 2 empty-IsStored (omega arith)

begin-IsFresh_example : (after : FlowSet) × (begin empty_set 2 ≡ ok after) × IsFresh after 2
begin-IsFresh_example = begin-IsFresh empty_set 2 empty-IsStored (omega arith)

insert-Inserts_example : Inserts begun.0 client_key (insert begun.0 client_key)
insert-Inserts_example =
    insert-Inserts begun.0 client_key begun.2.valid (omega (arith, begun.2.none_used, begun.2.room))

abbrev limits : Limits
limits = record { max_batch_size = 256; max_input_words = 98304 }

abbrev batch : List RawPacket
batch = syn_packet ∷ get_packet ∷ []

abbrev batch_keys : List (Option FlowKey)
batch_keys = some client_key ∷ some client_key ∷ []

fill_next_wave-Good_example :
    (n : ℕ) × (f : Filling) × (fill_next_wave batch batch_keys (0 ∷ 1 ∷ []) limits empty_set
      ≡ ok (some f))
    × Good limits (packet_words_at batch) (λ i. get_or batch_keys i none) n (0 ∷ 1 ∷ []) f
fill_next_wave-Good_example =
    fill_next_wave-Good limits batch batch_keys refl (0 ∷ 1 ∷ []) empty_set empty-IsStored
      (omega arith) (omega arith)

batch-Keyed : Keyed batch batch_keys
batch-Keyed = (
  scheduling_flow_key-parse syn_packet syn_view syn_parsed,
  (scheduling_flow_key-parse get_packet (view_of_spec get_spec) get_parsed, tt),
)

fill_initial_wave-next_example :
    fill_initial_wave batch limits empty_set
    ≡ beside batch_keys (fill_next_wave batch batch_keys (0 ∷ 1 ∷ []) limits empty_set)
fill_initial_wave-next_example =
    fill_initial_wave-next limits batch batch_keys empty_set batch-Keyed

prepare_wave_metadata-layout_example :
    prepare_wave_metadata batch (1 ∷ 0 ∷ []) ≡ ok (21, layout batch 0 (1 ∷ 0 ∷ []))
prepare_wave_metadata-layout_example =
    prepare_wave_metadata-layout batch (1 ∷ 0 ∷ []) (omega arith) (omega arith)
