-- ===== src/Batcher/Order.antt =====
-- The order of the jobs of src/batcher.rs: the replies, the batch and the queue follow each other as
-- the jobs were accepted.
use mathlib.Core.List.{append_assoc, append-nil}
use gput.Base.{
  ℕ, ◌<◌, ◌≡◌, refl, sym, ap, ◌∙◌, Bool, true, false, List, [], ◌∷◌, ◌++◌, map, ltb, if◌then◌else◌,
  length, ltb→lt,
}
use gput.Router.Body.{Bytes}
use gput.Batcher.Queue.{Job, BatcherConfig, BatcherMetrics, Sent, queued, queue_full, try_send}
use gput.Batcher.Worker.{Processed, Sending, finish_batch}
use gput.Batcher.System.{
  State, Step, send, count_accepted, overload, receive_first, collect, finish, Reach, begin, later,
}

map-append {ℓ κ} :
    {A : Type ℓ} {B : Type κ} (f : A → B) (xs ys : List A) → map f (xs ++ ys) ≡ map f xs ++ map f ys
map-append f [] ys = refl
map-append f (x ∷ xs) ys = ap (λ t. f x ∷ t) (map-append f xs ys)

queue_of : List Job → Sent → List Job
queue_of d (queued queue) = queue
queue_of d queue_full = d

queued_if :
    (room : Bool) (full next : List Job)
    → (if room then queued full else queue_full) ≡ queued next
    → (room ≡ true) × (next ≡ full)
unfolding queue_of
queued_if true full next h = (refl, sym (ap (queue_of full) h))
queued_if false full next h = cc

pub try_send-queued :
    (config : BatcherConfig) (queue : List Job) (job : Job) (next : List Job)
    → try_send config queue job ≡ queued next
    → (length queue < config.queue_depth) × (next ≡ queue ++ job ∷ [])
unfolding try_send
try_send-queued config queue job next h =
    let (room, same) =
      queued_if (ltb (length queue) config.queue_depth) (queue ++ job ∷ []) next h in
    (ltb→lt (length queue) config.queue_depth room, same)

-- What is read off a job and off a reply, where the end of each batch replies to its jobs in order.
module _ {X : Type 0} (of_job : Job → X) (of_reply : Sending → X) (config : BatcherConfig)
    (process : ℕ → List Bytes → Processed)
    (each : (metrics : BatcherMetrics) (jobs : List Job) (nanos : ℕ)
      → map of_reply
          (finish_batch metrics jobs (process metrics.batches (map Job.request jobs)) nanos).1
        ≡ map of_job jobs) where
  abbrev pub InOrder : List Job → State → Type 0
  InOrder accepted s =
      map of_reply s.sent ++ map of_job s.jobs ++ map of_job s.queue ≡ map of_job accepted

  Step-InOrder :
      (accepted : List Job) {new : List Job} (s : State) {t : State}
      → InOrder accepted s
      → Step config process s new t
      → InOrder (accepted ++ new) t
  Step-InOrder accepted s h (send job {queue = next} sends) =
      let (room, same) = try_send-queued config s.queue job next sends in
      ap (λ q. map of_reply s.sent ++ map of_job s.jobs ++ map of_job q) same
      ∙ ap (λ t. map of_reply s.sent ++ map of_job s.jobs ++ t)
          (map-append of_job s.queue (job ∷ []))
      ∙ sym (
          append_assoc (map of_reply s.sent ++ map of_job s.jobs) (map of_job s.queue)
            (of_job job ∷ []))
      ∙ ap (λ t. t ++ of_job job ∷ []) h
      ∙ sym (map-append of_job accepted (job ∷ []))
  Step-InOrder accepted s h (count_accepted e) = h ∙ ap (map of_job) (sym (append-nil accepted))
  Step-InOrder accepted s h (overload job e) = h ∙ ap (map of_job) (sym (append-nil accepted))
  Step-InOrder accepted s h (receive_first {job} {queue} empty front) =
      append_assoc (map of_reply s.sent) (of_job job ∷ []) (map of_job queue)
      ∙ ap (λ t. t ++ of_job job ∷ map of_job queue) (sym (append-nil (map of_reply s.sent)))
      ∙ ap (λ (p : List Job × List Job). map of_reply s.sent ++ map of_job p.0 ++ map of_job p.1)
          (λ k. (sym empty k, sym front k))
      ∙ h
      ∙ ap (map of_job) (sym (append-nil accepted))
  Step-InOrder accepted s h (collect {job} {queue} some_jobs room front) =
      ap (λ t. map of_reply s.sent ++ t ++ map of_job queue) (map-append of_job s.jobs (job ∷ []))
      ∙ ap (λ t. t ++ map of_job queue)
          (sym (append_assoc (map of_reply s.sent) (map of_job s.jobs) (of_job job ∷ [])))
      ∙ append_assoc (map of_reply s.sent ++ map of_job s.jobs) (of_job job ∷ []) (map of_job queue)
      ∙ ap (λ q. map of_reply s.sent ++ map of_job s.jobs ++ map of_job q) (sym front)
      ∙ h
      ∙ ap (map of_job) (sym (append-nil accepted))
  Step-InOrder accepted s h (finish nanos some_jobs) =
      let out =
        finish_batch s.metrics s.jobs (process s.metrics.batches (map Job.request s.jobs)) nanos in
      ap (λ t. t ++ map of_job s.queue)
        (append-nil (map of_reply (s.sent ++ out.1))
          ∙ map-append of_reply s.sent out.1
          ∙ ap (λ t. map of_reply s.sent ++ t) (each s.metrics s.jobs nanos))
      ∙ h
      ∙ ap (map of_job) (sym (append-nil accepted))

  pub Reach-InOrder :
      {accepted : List Job} {s : State} → Reach config process accepted s → InOrder accepted s
  Reach-InOrder begin = refl
  Reach-InOrder (later before step) = Step-InOrder _ _ (Reach-InOrder before) step
