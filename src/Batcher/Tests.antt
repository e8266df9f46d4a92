-- ===== src/Batcher/Tests.antt =====
-- A run of the batcher on a small input, and the theorems on it.

use gput.Base.{ℕ, ◌≡◌, refl, List, [], ◌∷◌, ◌++◌, map, arith}
use gput.Base.Text.{codes}
use gput.Router.Body.{Bytes}
use gput.Batcher.Queue.{Job, BatcherConfig, in_time, gave_up, queued, try_send}
use gput.Batcher.Worker.{Processed, responses}
use gput.Batcher.System.{State, start, send, receive_first, Reach, begin, later}
use gput.Batcher.Collect.{Collected, Reach-Collected}
use gput.Batcher.Progress.{Drains, Reach-Drains}
use gput.Batcher.Invariant.{
  IsSound, Reach-IsSound, Reach-channels, Reach-answers, answer_with, channel,
}

abbrev config : BatcherConfig
config = record { max_batch_size = 2; queue_depth = 3 }

abbrev job_a : Job
job_a = record { request = codes "a"; reply = 7 }

abbrev respond : Bytes → Bytes
respond r = codes "r" ++ r

abbrev process : ℕ → List Bytes → Processed
process k rs = responses (map respond rs)

abbrev sent_a : State
sent_a = record start { queue = job_a ∷ []; uncounted = 1 }

abbrev held_a : State
held_a = record sent_a { queue = []; jobs = job_a ∷ [] }

sends_a : try_send config [] job_a ≡ queued (job_a ∷ [])
unfolding try_send
sends_a = refl

reach_a : Reach config process (([] ++ job_a ∷ []) ++ []) held_a
reach_a = later (later begin (send job_a sends_a)) (receive_first refl refl)

Reach-IsSound_example : IsSound config (job_a ∷ []) held_a
Reach-IsSound_example = Reach-IsSound config process (omega arith) reach_a

Reach-channels_example :
    map channel held_a.sent ++ map Job.reply held_a.jobs ++ map Job.reply held_a.queue ≡ 7 ∷ []
Reach-channels_example = Reach-channels config process reach_a

Reach-answers_example :
    held_a.sent ++ map (answer_with respond) held_a.jobs ++ map (answer_with respond) held_a.queue
    ≡ map (answer_with respond) (job_a ∷ [])
Reach-answers_example = Reach-answers config process respond (λ k requests. refl) reach_a

abbrev job_b : Job
job_b = record { request = codes "b"; reply = 8 }

abbrev waiting_b : State
waiting_b = record held_a { queue = job_b ∷ []; uncounted = 2 }

sends_b : try_send config [] job_b ≡ queued (job_b ∷ [])
unfolding try_send
sends_b = refl

reach_b : Reach config process (job_a ∷ job_b ∷ []) waiting_b
reach_b = later reach_a (send job_b sends_b)

Reach-Collected_example :
    Collected config process (job_a ∷ job_b ∷ []) waiting_b (in_time job_b ∷ gave_up ∷ [])
Reach-Collected_example =
    Reach-Collected config process (in_time job_b ∷ gave_up ∷ []) (job_a ∷ job_b ∷ []) waiting_b []
      reach_b (omega arith) refl

Reach-Drains_example : Drains config process (job_a ∷ job_b ∷ []) waiting_b
Reach-Drains_example = Reach-Drains config process reach_b
