-- ===== src/Batcher/Queue.antt =====
-- The data of src/batcher.rs, `submit` and the worker's `collect_jobs`. The one-shot channel of a job
-- is a number; the bounded channel of jobs is a list.

use gput.Base.{ℕ, ◌+◌, ◌%◌, ◌^◌, Bool, ◌&&◌, List, [], ◌∷◌, ◌++◌, ltb, if◌then◌else◌, length}
use gput.Router.Body.{Bytes}

pub record Job : Type 0 where
  pub request : Bytes
  pub reply : ℕ

pub record BatcherConfig : Type 0 where
  pub max_batch_size : ℕ
  pub queue_depth : ℕ

-- The counters of 64 bits wrap around.
pub record BatcherMetrics : Type 0 where
  pub accepted_requests : ℕ
  pub rejected_requests : ℕ
  pub completed_requests : ℕ
  pub failed_requests : ℕ
  pub batches : ℕ
  pub max_batch_seen : ℕ
  pub total_processing_nanos : ℕ

abbrev pub no_metrics : BatcherMetrics
no_metrics = record {
  accepted_requests = 0;
  rejected_requests = 0;
  completed_requests = 0;
  failed_requests = 0;
  batches = 0;
  max_batch_seen = 0;
  total_processing_nanos = 0;
}

-- `fetch_add`.
abbrev pub fetch_add : ℕ → ℕ → ℕ
fetch_add counter n = (counter + n) % 2 ^ 64

-- The two checks of `spawn_batcher`.
unfoldable pub spawn_accepts : BatcherConfig → Bool
spawn_accepts config = ltb 0 config.max_batch_size && ltb 0 config.queue_depth

-- What `try_send` does with a job, while the worker's end is open.
pub data Sent : Type 0 where
  queued : List Job → Sent
  queue_full : Sent

unfoldable pub try_send : BatcherConfig → List Job → Job → Sent
try_send config queue job =
    if ltb (length queue) config.queue_depth then queued (queue ++ job ∷ []) else queue_full

-- What a round of the loop of `collect_jobs` sees: a job that is ready, a job within the time that is
-- left, or a reason to stop: the channel is closed, no time is left, or none came in that time.
pub data Observed : Type 0 where
  ready in_time : Job → Observed
  disconnected no_time_left gave_up : Observed

-- The jobs, for as many rounds as there are observations.
unfoldable pub collect_jobs : BatcherConfig → List Job → List Observed → List Job
collect_jobs config jobs [] = jobs
collect_jobs config jobs (ready job ∷ observed) =
    let more = collect_jobs config (jobs ++ job ∷ []) observed in
    if ltb (length jobs) config.max_batch_size then more else jobs
collect_jobs config jobs (in_time job ∷ observed) =
    let more = collect_jobs config (jobs ++ job ∷ []) observed in
    if ltb (length jobs) config.max_batch_size then more else jobs
collect_jobs config jobs (disconnected ∷ observed) = jobs
collect_jobs config jobs (no_time_left ∷ observed) = jobs
collect_jobs config jobs (gave_up ∷ observed) = jobs
