-- ===== src/Batcher/Collect.antt =====
-- `collect_jobs` of src/batcher.rs as steps of the batcher.
use mathlib.Core.List.{append-nil}
use gput.Base.{
  ℕ, ◌<◌, ◌≡◌, inl, inr, refl, List, [], ◌∷◌, ◌++◌, arith, ltb, length, Bool-cases, ltb→lt,
  length-append, subst,
}
use gput.Router.Body.{Bytes}
use gput.Batcher.Queue.{
  Job, BatcherConfig, Observed, ready, in_time, disconnected, no_time_left, gave_up, collect_jobs,
}
use gput.Batcher.Worker.{Processed}
use gput.Batcher.System.{State, collect, Reach, later}

-- The jobs that the rounds are offered, up to the first that stops.
abbrev pub offered : List Observed → List Job
offered [] = []
offered (ready job ∷ observed) = job ∷ offered observed
offered (in_time job ∷ observed) = job ∷ offered observed
offered (disconnected ∷ observed) = []
offered (no_time_left ∷ observed) = []
offered (gave_up ∷ observed) = []

module _ (config : BatcherConfig) (process : ℕ → List Bytes → Processed) where
  -- The state once the jobs are collected: what is not taken is in the queue.
  pub record Collected (accepted : List Job) (s : State) (observed : List Observed) : Type 0 where
    pub left : List Job
    pub reached :
        Reach config process accepted
          (record s { queue = left; jobs = collect_jobs config s.jobs observed })

  collect-Reach :
      (accepted : List Job) (s : State) (job : Job) (queue : List Job)
      → Reach config process accepted s
      → 0 < length s.jobs
      → length s.jobs < config.max_batch_size
      → s.queue ≡ job ∷ queue
      → Reach config process accepted (record s { queue = queue; jobs = s.jobs ++ job ∷ [] })
  collect-Reach accepted s job queue before some_jobs room front =
      subst
        (λ jobs. Reach config process jobs (record s { queue = queue; jobs = s.jobs ++ job ∷ [] }))
        (append-nil accepted) (later before (collect some_jobs room front))

  -- A round that is offered a job, with or without room for it.
  offered-Collected :
      (accepted : List Job) (s : State) (job : Job) (rest : List Job) (observed : List Observed)
      → ((t : State)
          → Reach config process accepted t
          → 0 < length t.jobs
          → t.queue ≡ rest
          → Collected accepted t observed)
      → Reach config process accepted s
      → 0 < length s.jobs
      → s.queue ≡ job ∷ rest
      → Collected accepted s (ready job ∷ observed)
  unfolding collect_jobs
  offered-Collected accepted s job rest observed next before some_jobs front =
      elim (Bool-cases (ltb (length s.jobs) config.max_batch_size)) [
        | inl room ↦
            let t = record s { queue = rest; jobs = s.jobs ++ job ∷ [] } in
            let after =
              collect-Reach accepted s job rest before some_jobs
                (ltb→lt (length s.jobs) config.max_batch_size room) front in
            let end = next t after (omega (arith, length-append s.jobs (job ∷ []))) refl in
            record { left = end.left; reached = rw room end.reached }
        | inr filled ↦ record { left = s.queue; reached = rw filled before }
      ]

  -- `collect_jobs` takes the batcher, from a state in which the worker holds a job and the queue holds
  -- the jobs that the rounds are offered, to another state that it gets to, with the collected jobs as
  -- its batch.
  pub Reach-Collected :
      (observed : List Observed) (accepted : List Job) (s : State) (rest : List Job)
      → Reach config process accepted s
      → 0 < length s.jobs
      → s.queue ≡ offered observed ++ rest
      → Collected accepted s observed
  unfolding collect_jobs
  Reach-Collected [] accepted s rest before some_jobs front = record {
    left = s.queue;
    reached = before;
  }
  Reach-Collected (ready job ∷ observed) accepted s rest before some_jobs front =
      offered-Collected accepted s job (offered observed ++ rest) observed
        (λ t after more same. Reach-Collected observed accepted t rest after more same) before
        some_jobs front
  Reach-Collected (in_time job ∷ observed) accepted s rest before some_jobs front =
      let end =
        offered-Collected accepted s job (offered observed ++ rest) observed
          (λ t after more same. Reach-Collected observed accepted t rest after more same) before
          some_jobs front in
      record { left = end.left; reached = end.reached }
  Reach-Collected (disconnected ∷ observed) accepted s rest before some_jobs front = record {
    left = s.queue;
    reached = before;
  }
  Reach-Collected (no_time_left ∷ observed) accepted s rest before some_jobs front = record {
    left = s.queue;
    reached = before;
  }
  Reach-Collected (gave_up ∷ observed) accepted s rest before some_jobs front = record {
    left = s.queue;
    reached = before;
  }
