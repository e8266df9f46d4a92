-- ===== src/Server/Config.antt =====
-- src/config.rs: the configuration of the server and its validation. A `Duration` is its number of
-- nanoseconds, and `A` stands for the standard library's `SocketAddr`.
pub mod Bounds
use gput.Base.{
  ℕ, ◌+◌, ◌-◌, ◌*◌, ◌^◌, bit_and, ◌≡◌, true, false, Bool, ltb, leb, ◌==◌, not, if◌then◌else◌,
  Outcome, Error, ok, err, panic, ◌>>=◌, ◌>>◌, ensure, zero_batch_size, batch_size_not_u32,
  batch_wait_zero, queue_below_batch, request_too_small, slot_too_small, no_connections,
  read_timeout_zero, stride_overflow, request_buffer_overflow, response_buffer_overflow,
  request_slots_too_large, response_slots_too_large,
}

abbrev pub max_total_buffer_bytes : ℕ
max_total_buffer_bytes = 64 * 1024 * 1024

-- Of src/protocol.rs.
abbrev pub min_gpu_response_slot_bytes : ℕ
min_gpu_response_slot_bytes = 256

pub data BackendChoice : Type 0 where
  auto cpu gpu : BackendChoice

-- The command line after it was parsed.
pub record Cli (A : Type 0) : Type 0 where
  pub bind : A
  pub backend : BackendChoice
  pub batch_size : ℕ
  pub batch_wait_micros : ℕ
  pub queue_depth : ℕ
  pub max_request_bytes : ℕ
  pub response_slot_bytes : ℕ
  pub max_connections : ℕ
  pub read_timeout_secs : ℕ

pub record ServerConfig (A : Type 0) : Type 0 where
  pub bind : A
  pub backend : BackendChoice
  pub batch_size : ℕ
  pub batch_wait : ℕ
  pub queue_depth : ℕ
  pub max_request_bytes : ℕ
  pub response_slot_bytes : ℕ
  pub max_connections : ℕ
  pub read_timeout : ℕ

-- `Duration::from_micros` and `Duration::from_secs`.
abbrev pub from_micros : ℕ → ℕ
from_micros n = n * 1000

abbrev pub from_secs : ℕ → ℕ
from_secs n = n * 1_000_000_000

-- The default, at the address `bind`.
abbrev pub default_server_config : {A : Type 0} → A → ServerConfig A
default_server_config bind = record {
  bind = bind;
  backend = auto;
  batch_size = 256;
  batch_wait = from_micros 50;
  queue_depth = 8192;
  max_request_bytes = 4096;
  response_slot_bytes = 512;
  max_connections = 4096;
  read_timeout = from_secs 5;
}

-- `checked_add` and `checked_mul` of `usize`, with the error for an overflow.
abbrev pub checked_add : ℕ → ℕ → Error → Outcome ℕ
checked_add a b e = if ltb (a + b) (2 ^ 64) then ok (a + b) else err e

abbrev pub checked_mul : ℕ → ℕ → Error → Outcome ℕ
checked_mul a b e = if ltb (a * b) (2 ^ 64) then ok (a * b) else err e

unfoldable pub round_up_to_word : ℕ → Outcome ℕ
round_up_to_word value = do
  rounded ← checked_add value 3 stride_overflow
  ok (bit_and rounded (2 ^ 64 - 1 - 3))

unfoldable pub validate : {A : Type 0} → ServerConfig A → Outcome (Unit {0})
validate config = do
  ensure (not (config.batch_size == 0)) zero_batch_size
  ensure (leb config.batch_size (2 ^ 32 - 1)) batch_size_not_u32
  ensure (not (config.batch_wait == 0)) batch_wait_zero
  ensure (leb config.batch_size config.queue_depth) queue_below_batch
  ensure (leb 16 config.max_request_bytes) request_too_small
  ensure (leb min_gpu_response_slot_bytes config.response_slot_bytes) slot_too_small
  ensure (not (config.max_connections == 0)) no_connections
  ensure (not (config.read_timeout == 0)) read_timeout_zero
  request_stride ← round_up_to_word config.max_request_bytes
  response_stride ← round_up_to_word config.response_slot_bytes
  request_bytes ← checked_mul config.batch_size request_stride request_buffer_overflow
  response_bytes ← checked_mul config.batch_size response_stride response_buffer_overflow
  ensure (leb request_bytes max_total_buffer_bytes) request_slots_too_large
  ensure (leb response_bytes max_total_buffer_bytes) response_slots_too_large

unfoldable pub try_from : {A : Type 0} → Cli A → Outcome (ServerConfig A)
try_from {A} cli =
    let config : ServerConfig A = record {
      bind = cli.bind;
      backend = cli.backend;
      batch_size = cli.batch_size;
      batch_wait = from_micros cli.batch_wait_micros;
      queue_depth = cli.queue_depth;
      max_request_bytes = cli.max_request_bytes;
      response_slot_bytes = cli.response_slot_bytes;
      max_connections = cli.max_connections;
      read_timeout = from_secs cli.read_timeout_secs;
    } in
    validate config >>= λ u. ok config
