-- ===== src/Packet/Raw.antt =====
-- `RawPacket` of src/packet/mod.rs: between 1 and `max_raw_packet_bytes` bytes.
use gput.Base.{
  ℕ, ◌≤◌, ◌<◌, List, Outcome, ok, ensure, ◌>>◌, packet_empty, packet_too_large, length, leb, ltb,
  All,
}

abbrev pub max_raw_packet_bytes : ℕ
max_raw_packet_bytes = 1536

pub record RawPacket : Type 0 where
  pub bytes : List ℕ

unfoldable pub new : List ℕ → Outcome RawPacket
new bytes = do
  ensure (ltb 0 (length bytes)) packet_empty
  ensure (leb (length bytes) max_raw_packet_bytes) packet_too_large
  ok (record { bytes = bytes })

unfoldable pub copy_from_slice : List ℕ → Outcome RawPacket
copy_from_slice bytes = new bytes

-- The packet is written only after both checks, so an error leaves it as it was.
unfoldable pub replace_from_slice : RawPacket → List ℕ → Outcome RawPacket
replace_from_slice packet bytes = do
  ensure (ltb 0 (length bytes)) packet_empty
  ensure (leb (length bytes) max_raw_packet_bytes) packet_too_large
  ok (record packet { bytes = bytes })

abbrev pub as_bytes : RawPacket → List ℕ
as_bytes packet = packet.bytes

abbrev pub into_bytes : RawPacket → List ℕ
into_bytes packet = packet.bytes

abbrev pub IsByte : ℕ → Type 0
IsByte b = b < 256

-- What `new` establishes, with the range of a `u8`.
pub record IsValid (packet : RawPacket) : Type 0 where
  pub nonempty : 0 < length packet.bytes
  pub fits : length packet.bytes ≤ max_raw_packet_bytes
  pub in_range : All IsByte packet.bytes
