-- ===== src/Packet/Config.antt =====
-- `PacketEngineConfig` of src/packet/mod.rs and its validation.

use gput.Base.{
  ℕ, ◌-◌, ◌^◌, bit_and, Bool, ◌&&◌, ltb, leb, ◌==◌, ◌!=◌, Outcome, ◌>>◌, ensure, zero_batch_size,
  zero_flow_capacity, flow_capacity_not_power_of_two, zero_probe_limit,
  probe_limit_exceeds_capacity, batch_size_not_u32, flow_capacity_not_u32, response_does_not_fit,
}
use gput.Packet.Raw.{max_raw_packet_bytes}
use gput.Packet.Http.{max_response_packet_bytes}

pub record PacketEngineConfig : Type 0 where
  pub max_batch_size : ℕ
  pub flow_capacity : ℕ
  pub flow_probe_limit : ℕ
  pub listen_port : ℕ

abbrev pub default_config : PacketEngineConfig
default_config = record {
  max_batch_size = 256;
  flow_capacity = 4096;
  flow_probe_limit = 32;
  listen_port = 8080;
}

-- `usize::is_power_of_two`: exactly one bit is set.
unfoldable pub is_power_of_two : ℕ → Bool
is_power_of_two n = n != 0 && bit_and n (n - 1) == 0

unfoldable pub validate_config : PacketEngineConfig → Outcome (Unit {0})
validate_config config = do
  ensure (ltb 0 config.max_batch_size) zero_batch_size
  ensure (ltb 0 config.flow_capacity) zero_flow_capacity
  ensure (is_power_of_two config.flow_capacity) flow_capacity_not_power_of_two
  ensure (ltb 0 config.flow_probe_limit) zero_probe_limit
  ensure (leb config.flow_probe_limit config.flow_capacity) probe_limit_exceeds_capacity
  ensure (leb config.max_batch_size (2 ^ 32 - 1)) batch_size_not_u32
  ensure (leb config.flow_capacity (2 ^ 32 - 1)) flow_capacity_not_u32
  ensure (leb max_response_packet_bytes max_raw_packet_bytes) response_does_not_fit
