-- ===== src/Batcher/Worker.antt =====
-- What `worker_loop` of src/batcher.rs does with a batch: `fail_batch`, the counters and the replies.
-- The processor is a parameter: its answer to the batch, and the time that it took.

use gput.Base.{ℕ, ◌-◌, ◌^◌, min, max, List, [], ◌∷◌, ◌==◌, if◌then◌else◌, length, Error}
use gput.Router.Body.{Bytes}
use gput.Batcher.Queue.{Job, BatcherMetrics, fetch_add}

-- What `process_batch` returns.
pub data Processed : Type 0 where
  responses : List Bytes → Processed
  processing_error : Error → Processed

-- What is sent on a job's channel: a response, or the message of a failure.
pub data Reply : Type 0 where
  answered : Bytes → Reply
  wrong_count : ℕ → ℕ → Reply
  failed_with : Error → Reply

-- A reply and the channel that it is sent on.
abbrev pub Sending : Type 0
Sending = ℕ × Reply

abbrev pub duration_as_u64_nanos : ℕ → ℕ
duration_as_u64_nanos nanos = min nanos (2 ^ 64 - 1)

-- `jobs.drain(..).zip(responses)`.
unfoldable pub answer_all : List Job → List Bytes → List Sending
answer_all [] rs = []
answer_all (job ∷ jobs) [] = []
answer_all (job ∷ jobs) (r ∷ rs) = (job.reply, answered r) ∷ answer_all jobs rs

unfoldable pub fail_all : List Job → Reply → List Sending
fail_all [] message = []
fail_all (job ∷ jobs) message = (job.reply, message) ∷ fail_all jobs message

unfoldable pub fail_batch : BatcherMetrics → List Job → Reply → BatcherMetrics × List Sending
fail_batch metrics jobs message = (
  record metrics { failed_requests = fetch_add metrics.failed_requests (length jobs) },
  fail_all jobs message,
)

-- The counters of a batch before its result is looked at.
unfoldable pub count_batch : BatcherMetrics → List Job → ℕ → BatcherMetrics
count_batch metrics jobs nanos = record metrics {
  batches = fetch_add metrics.batches 1;
  max_batch_seen = max metrics.max_batch_seen (length jobs);
  total_processing_nanos = fetch_add metrics.total_processing_nanos (duration_as_u64_nanos nanos);
}

-- The three arms of the result.
unfoldable pub reply_batch : BatcherMetrics → List Job → Processed → BatcherMetrics × List Sending
reply_batch metrics jobs (responses rs) =
    if length rs == length jobs
    then (
      record metrics { completed_requests = fetch_add metrics.completed_requests (length jobs) },
      answer_all jobs rs,
    )
    else fail_batch metrics jobs (wrong_count (length rs) (length jobs))
reply_batch metrics jobs (processing_error e) = fail_batch metrics jobs (failed_with e)

unfoldable pub finish_batch :
    BatcherMetrics → List Job → Processed → ℕ → BatcherMetrics × List Sending
finish_batch metrics jobs processed nanos =
    reply_batch (count_batch metrics jobs nanos) jobs processed
