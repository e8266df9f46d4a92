-- ===== src/Batcher/System.antt =====
-- The batcher of src/batcher.rs at work: connections submit while the worker collects and processes.

use gput.Base.{ℕ, suc, ◌+◌, ◌<◌, ◌≡◌, List, [], ◌∷◌, ◌++◌, map, length}
use gput.Router.Body.{Bytes}
use gput.Batcher.Queue.{
  Job, BatcherConfig, BatcherMetrics, no_metrics, fetch_add, queued, queue_full, try_send,
}
use gput.Batcher.Worker.{Processed, Sending, finish_batch}

-- `uncounted` are the jobs that are sent and not yet counted as accepted; `jobs` is the batch that the
-- worker holds, empty while it waits; `sent` are the replies so far.
pub record State : Type 0 where
  pub queue : List Job
  pub uncounted : ℕ
  pub jobs : List Job
  pub metrics : BatcherMetrics
  pub sent : List Sending

abbrev pub start : State
start = record { queue = []; uncounted = 0; jobs = []; metrics = no_metrics; sent = [] }

-- A step of a connection or of the worker, with the job that it puts into the queue, if any. The
-- processor answers a batch as `process` says, from the batch's number and its requests.
module _ (config : BatcherConfig) (process : ℕ → List Bytes → Processed) where
  pub data Step (s : State) : List Job → State → Type 0 where
    -- `submit` sends, and counts afterwards
    send :
        (job : Job) {queue : List Job}
        → try_send config s.queue job ≡ queued queue
        → Step s (job ∷ []) (record s { queue = queue; uncounted = s.uncounted + 1 })
    count_accepted :
        {left : ℕ}
        → s.uncounted ≡ suc left
        → Step s [] (record s {
          uncounted = left;
          metrics = record s.metrics {
            accepted_requests = fetch_add (BatcherMetrics.accepted_requests s.metrics) 1;
          };
        })
    overload :
        (job : Job)
        → try_send config s.queue job ≡ queue_full
        → Step s [] (record s {
          metrics = record s.metrics {
            rejected_requests = fetch_add (BatcherMetrics.rejected_requests s.metrics) 1;
          };
        })
    -- `recv` of the first job
    receive_first :
        {job : Job} {queue : List Job}
        → s.jobs ≡ []
        → s.queue ≡ job ∷ queue
        → Step s [] (record s { queue = queue; jobs = job ∷ [] })
    -- a round of `collect_jobs`
    collect :
        {job : Job} {queue : List Job}
        → 0 < length s.jobs
        → length s.jobs < config.max_batch_size
        → s.queue ≡ job ∷ queue
        → Step s [] (record s { queue = queue; jobs = s.jobs ++ job ∷ [] })
    -- the rest of `worker_loop`'s body
    finish :
        (nanos : ℕ)
        → 0 < length s.jobs
        → Step s [] (record s {
          jobs = [];
          metrics =
              (finish_batch s.metrics s.jobs
                (process (BatcherMetrics.batches s.metrics) (map Job.request s.jobs))
                nanos).0;
          sent =
              s.sent
              ++ (finish_batch s.metrics s.jobs
                  (process (BatcherMetrics.batches s.metrics) (map Job.request s.jobs))
                  nanos).1;
        })

  -- The states that the batcher gets to, with the jobs accepted on the way, in order.
  pub data Reach : List Job → State → Type 0 where
    begin : Reach [] start
    later :
        {accepted new : List Job} {s t : State}
        → Reach accepted s
        → Step s new t
        → Reach (accepted ++ new) t
