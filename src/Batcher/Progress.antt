-- ===== src/Batcher/Progress.antt =====
-- The worker of src/batcher.rs answers what is accepted, whichever steps it takes.
use mathlib.Core.List.{append-nil}
use gput.Base.{
  ℕ, zero, suc, ◌+◌, ◌*◌, ◌≤◌, ◌<◌, ◌≡◌, ◌⊎◌, inl, inr, refl, sym, ap, ◌∙◌, List, [], ◌∷◌, ◌++◌,
  map, arith, length, subst,
}
use gput.Router.Body.{Bytes}
use gput.Batcher.Queue.{Job, BatcherConfig}
use gput.Batcher.Worker.{Processed, finish_batch}
use gput.Batcher.System.{
  State, Step, send, count_accepted, overload, receive_first, collect, finish, Reach, later,
}
use gput.Batcher.Invariant.{channel, Reach-channels}

module _ (config : BatcherConfig) (process : ℕ → List Bytes → Processed) where
  -- The steps of the worker's thread; the others are those of the connections.
  abbrev pub OfWorker : {s t : State} {new : List Job} → Step config process s new t → Type 0
  OfWorker (send job sends) = ⊥
  OfWorker (count_accepted e) = ⊥
  OfWorker (overload job e) = ⊥
  OfWorker (receive_first empty front) = Unit {0}
  OfWorker (collect some_jobs room front) = Unit {0}
  OfWorker (finish nanos some_jobs) = Unit {0}

  -- `count` steps of the worker, one behind the other, from `s` on.
  pub data Works (s : State) : ℕ → State → Type 0 where
    rest : Works s 0 s
    work :
        {t u : State} {count : ℕ}
        → Works s count t
        → (step : Step config process t [] u) → OfWorker step
        → Works s (suc count) u

  -- Nothing is left to do, and every accepted job has its reply.
  pub record IsDrained (accepted : List Job) (s : State) : Type 0 where
    pub no_queue : s.queue ≡ []
    pub no_jobs : s.jobs ≡ []
    pub all_answered : map channel s.sent ≡ map Job.reply accepted

  -- What the worker makes of the state `s`, if the connections rest.
  pub record Drains (accepted : List Job) (s : State) : Type 0 where
    pub count : ℕ
    pub end : State
    pub ends : Works s count end
    pub drained : IsDrained accepted end
    pub bounded : (k : ℕ) (t : State) → Works s k t → k ≤ 2 * length s.queue + 1
    pub goes_on :
        (k : ℕ) (t : State) → Works s k t → IsDrained accepted t ⊎ ((u : State) × Works t 1 u)

  same_jobs :
      (accepted : List Job) (s : State)
      → Reach config process (accepted ++ []) s
      → Reach config process accepted s
  same_jobs accepted s r = subst (λ jobs. Reach config process jobs s) (append-nil accepted) r

  Works-Reach :
      (accepted : List Job) {s t : State} {count : ℕ}
      → Reach config process accepted s
      → Works s count t
      → Reach config process accepted t
  Works-Reach accepted r rest = r
  Works-Reach accepted r (work {t} {u} before step _) =
      same_jobs accepted u (later (Works-Reach accepted r before) step)

  -- A step behind others stands before them as well.
  Works-first :
      {s t u : State} {count : ℕ} (step : Step config process s [] t)
      → OfWorker step
      → Works t count u
      → Works s (suc count) u
  Works-first step h rest = work rest step h
  Works-first step h (work before next k) = work (Works-first step h before) next k

  -- The steps that are left at most: two for a queued job, and one for a batch that is held.
  abbrev held : List Job → ℕ
  held [] = 0
  held (job ∷ jobs) = 1

  abbrev left : State → ℕ
  left s = 2 * length s.queue + held s.jobs

  held-le : (jobs : List Job) → held jobs ≤ 1
  held-le [] = omega arith
  held-le (job ∷ jobs) = omega arith

  held-pos : (jobs : List Job) → 0 < length jobs → held jobs ≡ 1
  held-pos [] h = absurd (omega arith)
  held-pos (job ∷ jobs) h = refl

  step-left : {s t : State} (step : Step config process s [] t) → OfWorker step → left t < left s
  step-left {s} (count_accepted e) h = absurd h
  step-left {s} (overload job e) h = absurd h
  step-left {s} (receive_first empty front) h = omega (arith, ap length front, ap held empty)
  step-left {s} (collect {job} some_jobs room front) h =
      omega (arith, ap length front, held-le (s.jobs ++ job ∷ []))
  step-left {s} (finish nanos some_jobs) h = omega (arith, held-pos s.jobs some_jobs)

  Works-left : {s t : State} {count : ℕ} → Works s count t → left t + count ≤ left s
  Works-left rest = omega arith
  Works-left (work before step h) = omega (arith, Works-left before, step-left step h)

  abbrev after_finish : State → State
  after_finish s =
      let out =
        finish_batch s.metrics s.jobs (process s.metrics.batches (map Job.request s.jobs)) 0 in
      record s { jobs = []; metrics = out.0; sent = s.sent ++ out.1 }

  empty-IsDrained :
      (accepted : List Job) (s : State)
      → Reach config process accepted s
      → s.queue ≡ []
      → s.jobs ≡ []
      → IsDrained accepted s
  empty-IsDrained accepted s r no_queue no_jobs = record {
    no_queue = no_queue;
    no_jobs = no_jobs;
    all_answered =
        sym (append-nil (map channel s.sent ++ []) ∙ append-nil (map channel s.sent))
        ∙ ap
            (λ (p : List Job × List Job).
              map channel s.sent ++ map Job.reply p.0 ++ map Job.reply p.1)
            (λ k. (sym no_jobs k, sym no_queue k))
        ∙ Reach-channels config process r;
  }

  -- The worker's next step, where there is something to do.
  next_step :
      (s : State) (queue jobs : List Job)
      → s.queue ≡ queue
      → s.jobs ≡ jobs
      → ((s.queue ≡ []) × (s.jobs ≡ []))
        ⊎ ((t : State) × (step : Step config process s [] t) × OfWorker step)
  next_step s [] [] no_queue no_jobs = inl (no_queue, no_jobs)
  next_step s (job ∷ queue) [] front no_jobs =
      inr (record s { queue = queue; jobs = job ∷ [] }, receive_first no_jobs front, tt)
  next_step s queue (job ∷ jobs) front some_jobs =
      inr (after_finish s, finish 0 (omega (arith, ap length some_jobs)), tt)

  advance :
      (accepted : List Job) (s : State)
      → Reach config process accepted s
      → IsDrained accepted s ⊎ ((t : State) × (step : Step config process s [] t) × OfWorker step)
  advance accepted s r = elim (next_step s s.queue s.jobs refl refl) [
    | inl (no_queue, no_jobs) ↦ inl (empty-IsDrained accepted s r no_queue no_jobs)
    | inr next ↦ inr next
  ]

  drain :
      (accepted : List Job) (fuel : ℕ) (s : State)
      → left s < fuel
      → Reach config process accepted s
      → (count : ℕ) × (t : State) × Works s count t × IsDrained accepted t
  drain accepted zero s h r = absurd (omega arith)
  drain accepted (suc fuel) s h r = elim (advance accepted s r) [
    | inl done ↦ (0, s, rest, done)
    | inr (t, step, h') ↦
        let (count, u, works, done) =
          drain accepted fuel t (omega (arith, step-left step h', h))
            (same_jobs accepted t (later r step)) in
        (suc count, u, Works-first step h' works, done)
  ]

  -- From every state that the batcher gets to, if the connections rest and whatever the processor
  -- returns: the worker's steps lead from it to a state in which the queue and the batch are empty
  -- and every accepted job has been answered on its channel, in order. Whichever steps the worker
  -- takes, there are at most two for each queued job and one more, and after any of them such a
  -- state is there or the worker has a further step: no job is ever stuck.
  pub Reach-Drains :
      {accepted : List Job} {s : State} → Reach config process accepted s → Drains accepted s
  Reach-Drains {accepted} {s} r =
      let (count, t, works, done) = drain accepted (suc (left s)) s (omega arith) r in
      record {
        count = count;
        end = t;
        ends = works;
        drained = done;
        bounded = λ k u w. omega (arith, Works-left w, held-le s.jobs);
        goes_on = λ k u w. elim (advance accepted u (Works-Reach accepted r w)) [
          | inl done' ↦ inl done'
          | inr (v, step, h) ↦ inr (v, work rest step h)
        ];
      }
