-- ===== src/Batcher/Invariant.antt =====
-- What holds of the batcher of src/batcher.rs in every state that it gets to.
use mathlib.Core.List.{append-nil}
use gput.Base.{
  ℕ, suc, ◌+◌, ◌%◌, ◌^◌, ◌≤◌, ◌<◌, max, ◌≡◌, inl, inr, refl, sym, ap, ◌∙◌, List, [], ◌∷◌, ◌++◌, map,
  arith, ◌==◌, length, Bool-cases, ==_iff, length-append,
}
use gput.Router.Body.{Bytes}
use gput.Batcher.Queue.{Job, BatcherConfig, BatcherMetrics}
use gput.Batcher.Worker.{
  Processed, responses, processing_error, Reply, answered, wrong_count, failed_with, Sending,
  answer_all, fail_all, fail_batch, count_batch, reply_batch, finish_batch,
}
use gput.Batcher.Order.{try_send-queued, Reach-InOrder}
use gput.Batcher.System.{
  State, start, Step, send, count_accepted, overload, receive_first, collect, finish, Reach, begin,
  later,
}

-- The channel of a reply.
abbrev pub channel : Sending → ℕ
channel sending = sending.0

length-map {ℓ κ} :
    {A : Type ℓ} {B : Type κ} (f : A → B) (xs : List A) → length (map f xs) ≡ length xs
length-map f [] = refl
length-map f (x ∷ xs) = ap suc (length-map f xs)

channels-answer_all :
    (jobs : List Job) (rs : List Bytes)
    → length rs ≡ length jobs
    → map channel (answer_all jobs rs) ≡ map Job.reply jobs
unfolding answer_all
channels-answer_all [] rs h = refl
channels-answer_all (job ∷ jobs) [] h = absurd (omega (arith, h))
channels-answer_all (job ∷ jobs) (r ∷ rs) h =
    ap (λ t. job.reply ∷ t) (channels-answer_all jobs rs (omega (arith, h)))

channels-fail_all :
    (jobs : List Job) (message : Reply) → map channel (fail_all jobs message) ≡ map Job.reply jobs
unfolding fail_all
channels-fail_all [] message = refl
channels-fail_all (job ∷ jobs) message = ap (λ t. job.reply ∷ t) (channels-fail_all jobs message)

-- The jobs that are settled, by the counters.
abbrev pub settled_jobs : BatcherMetrics → ℕ
settled_jobs m = (m.completed_requests + m.failed_requests) % 2 ^ 64

-- What the end of a batch does, whatever the processor returned.
record Finished (metrics : BatcherMetrics) (jobs : List Job) (out : BatcherMetrics × List Sending)
    : Type 0 where
  each : map channel out.1 ≡ map Job.reply jobs
  settled : settled_jobs out.0 ≡ (settled_jobs metrics + length jobs) % 2 ^ 64
  accepted : out.0.accepted_requests ≡ metrics.accepted_requests
  largest : out.0.max_batch_seen ≡ max metrics.max_batch_seen (length jobs)

fail_batch-Finished :
    (metrics : BatcherMetrics) (jobs : List Job) (nanos : ℕ) (message : Reply)
    → Finished metrics jobs (fail_batch (count_batch metrics jobs nanos) jobs message)
unfolding fail_batch count_batch
fail_batch-Finished metrics jobs nanos message = record {
  each = channels-fail_all jobs message;
  settled = omega arith;
  accepted = refl;
  largest = refl;
}

finish_batch-Finished :
    (metrics : BatcherMetrics) (jobs : List Job) (processed : Processed) (nanos : ℕ)
    → Finished metrics jobs (finish_batch metrics jobs processed nanos)
unfolding finish_batch reply_batch count_batch
finish_batch-Finished metrics jobs (responses rs) nanos =
    elim (Bool-cases (length rs == length jobs)) [
      | inl same ↦ rw same (record {
        each = channels-answer_all jobs rs ((==_iff (length rs) (length jobs)).0 same);
        settled = omega arith;
        accepted = refl;
        largest = refl;
      })
      | inr other ↦
          rw other (fail_batch-Finished metrics jobs nanos (wrong_count (length rs) (length jobs)))
    ]
finish_batch-Finished metrics jobs (processing_error e) nanos =
    fail_batch-Finished metrics jobs nanos (failed_with e)

-- The queue and the batch keep their sizes; the counters count.
pub record IsSound (config : BatcherConfig) (accepted : List Job) (s : State) : Type 0 where
  pub queue_bound : length s.queue ≤ config.queue_depth
  pub batch_bound : length s.jobs ≤ config.max_batch_size
  pub largest_bound : s.metrics.max_batch_seen ≤ config.max_batch_size
  pub settled : settled_jobs s.metrics ≡ length s.sent % 2 ^ 64
  pub counted : (s.metrics.accepted_requests + s.uncounted) % 2 ^ 64 ≡ length accepted % 2 ^ 64

module _ (config : BatcherConfig) (process : ℕ → List Bytes → Processed)
    (pos : 0 < config.max_batch_size) where
  Step-IsSound :
      {accepted new : List Job} {s t : State}
      → IsSound config accepted s
      → Step config process s new t
      → IsSound config (accepted ++ new) t
  Step-IsSound {accepted} {s} i (send job {queue = next} sends) =
      let (room, same) = try_send-queued config s.queue job next sends in
      let longer = length-append s.queue (job ∷ []) in
      let more = length-append accepted (job ∷ []) in
      record {
        queue_bound = omega (arith, ap length same, longer, room);
        batch_bound = i.batch_bound;
        largest_bound = i.largest_bound;
        settled = i.settled;
        counted = omega (arith, i.counted, more);
      }
  Step-IsSound {accepted} {s} i (count_accepted {left} h) = record {
    queue_bound = i.queue_bound;
    batch_bound = i.batch_bound;
    largest_bound = i.largest_bound;
    settled = i.settled;
    counted = omega (arith, i.counted, h, ap length (append-nil accepted));
  }
  Step-IsSound {accepted} {s} i (overload job h) = record {
    queue_bound = i.queue_bound;
    batch_bound = i.batch_bound;
    largest_bound = i.largest_bound;
    settled = i.settled;
    counted = omega (arith, i.counted, ap length (append-nil accepted));
  }
  Step-IsSound {accepted} {s} i (receive_first {job} {queue} empty front) = record {
    queue_bound = omega (arith, i.queue_bound, ap length front);
    batch_bound = pos;
    largest_bound = i.largest_bound;
    settled = i.settled;
    counted = omega (arith, i.counted, ap length (append-nil accepted));
  }
  Step-IsSound {accepted} {s} i (collect {job} {queue} some_jobs room front) = record {
    queue_bound = omega (arith, i.queue_bound, ap length front);
    batch_bound = omega (arith, room, length-append s.jobs (job ∷ []));
    largest_bound = i.largest_bound;
    settled = i.settled;
    counted = omega (arith, i.counted, ap length (append-nil accepted));
  }
  Step-IsSound {accepted} {s} i (finish nanos some_jobs) =
      let requests = map Job.request s.jobs in
      let out = finish_batch s.metrics s.jobs (process s.metrics.batches requests) nanos in
      let done =
        finish_batch-Finished s.metrics s.jobs (process s.metrics.batches requests) nanos in
      let sizes : length out.1 ≡ length s.jobs =
        sym (length-map channel out.1) ∙ ap length done.each ∙ length-map Job.reply s.jobs in
      record {
        queue_bound = i.queue_bound;
        batch_bound = omega arith;
        largest_bound = omega (arith, done.largest, i.largest_bound, i.batch_bound);
        settled = omega (arith, done.settled, i.settled, sizes, length-append s.sent out.1);
        counted = omega (arith, i.counted, done.accepted, ap length (append-nil accepted));
      }

  start-IsSound : IsSound config [] start
  start-IsSound = record {
    queue_bound = omega arith;
    batch_bound = omega arith;
    largest_bound = omega arith;
    settled = refl;
    counted = refl;
  }

  -- In every state that the batcher gets to, if a batch may hold a job, whatever the processor returns
  -- and however the steps of the connections and of the worker follow each other: the queue, the batch
  -- and the largest batch seen keep their bounds; the counters of the settled jobs are the number of
  -- replies, and the counter of the accepted ones, with those not counted yet, their number, modulo
  -- 2 ^ 64.
  pub Reach-IsSound :
      {accepted : List Job} {s : State}
      → Reach config process accepted s
      → IsSound config accepted s
  Reach-IsSound begin = start-IsSound
  Reach-IsSound (later before step) = Step-IsSound (Reach-IsSound before) step

-- In every state that the batcher gets to, whatever the processor returns: each accepted job has been
-- answered once on its channel, or is in the batch, or in the queue, in the order of acceptance.
pub Reach-channels :
    (config : BatcherConfig) (process : ℕ → List Bytes → Processed)
    → {accepted : List Job} {s : State} → Reach config process accepted s
    → map channel s.sent ++ map Job.reply s.jobs ++ map Job.reply s.queue ≡ map Job.reply accepted
Reach-channels config process = Reach-InOrder Job.reply channel config process λ metrics jobs nanos.
    Finished.each
      (finish_batch-Finished metrics jobs (process metrics.batches (map Job.request jobs)) nanos)

-- What a job is answered, if the processor computes each response from its request.
abbrev pub answer_with : (Bytes → Bytes) → Job → Sending
answer_with respond job = (job.reply, answered (respond job.request))

answer_all-map :
    (respond : Bytes → Bytes) (jobs : List Job)
    → answer_all jobs (map respond (map Job.request jobs)) ≡ map (answer_with respond) jobs
unfolding answer_all
answer_all-map respond [] = refl
answer_all-map respond (job ∷ jobs) =
    ap (λ t. answer_with respond job ∷ t) (answer_all-map respond jobs)

map_self : (xs : List Sending) → map (λ (s : Sending). s) xs ≡ xs
map_self [] = refl
map_self (x ∷ xs) = ap (λ t. x ∷ t) (map_self xs)

finish_batch-responses :
    (respond : Bytes → Bytes) (metrics : BatcherMetrics) (jobs : List Job) (nanos : ℕ)
    → (finish_batch metrics jobs (responses (map respond (map Job.request jobs))) nanos).1
      ≡ map (answer_with respond) jobs
unfolding finish_batch reply_batch
finish_batch-responses respond metrics jobs nanos =
    let sizes = length-map respond (map Job.request jobs) ∙ length-map Job.request jobs in
    rw ((==_iff (length (map respond (map Job.request jobs))) (length jobs)).1 sizes)
      (answer_all-map respond jobs)

-- If the processor answers each batch with the response to each request, then in every state that the
-- batcher gets to, the replies are those responses, each on the channel of its request, to the jobs
-- in the order of acceptance; what is missing is in the batch and in the queue.
pub Reach-answers :
    (config : BatcherConfig) (process : ℕ → List Bytes → Processed) (respond : Bytes → Bytes)
    → ((k : ℕ) (requests : List Bytes) → process k requests ≡ responses (map respond requests))
    → {accepted : List Job} {s : State} → Reach config process accepted s
    → s.sent ++ map (answer_with respond) s.jobs ++ map (answer_with respond) s.queue
      ≡ map (answer_with respond) accepted
Reach-answers config process respond pointwise {s} reached =
    ap (λ t. t ++ map (answer_with respond) s.jobs ++ map (answer_with respond) s.queue)
      (sym (map_self s.sent))
    ∙ Reach-InOrder (answer_with respond) (λ t. t) config process
        (λ metrics jobs nanos.
          map_self _
          ∙ ap (λ p. (finish_batch metrics jobs p nanos).1)
              (pointwise metrics.batches (map Job.request jobs))
          ∙ finish_batch-responses respond metrics jobs nanos)
        reached
