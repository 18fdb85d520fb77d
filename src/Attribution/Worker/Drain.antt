-- ===== src/Attribution/Worker/Drain.antt =====
-- The tries that ResolverDeepWorker, src/backend/ResolverDeepWorker.cpp, has left for its requests.
use qiftop.Common.{
  List, Option, ℕ, ◌+◌, ◌*◌, ◌≤◌, ◌<◌, inl, inr, [], ◌∷◌, arith, length, Bool-cases, Option-cases,
  min,
}
use qiftop.Flow.Types.{is_empty}
use qiftop.Common.Int.{positive_or, positive_or-lt}
use qiftop.Attribution.DeepQueue.{dequeue, clear, set_capacity}
use qiftop.Attribution.DeepQueue.Capacity.{length-enforce_cap}
use qiftop.Attribution.Tuning.{ResolverTuning}
use qiftop.Attribution.DeepQueue.Ranking.{Requests}
use qiftop.Attribution.DeepQueue.Removal.{Filed}
use qiftop.Attribution.DeepQueue.Priority.{IsFiled, length-dequeue}
use qiftop.Attribution.DeepQueue.Merge.{enqueue-IsFiled}
use qiftop.Attribution.DeepQueue.Weight.{
  tries_in, tries_left, tries_left-enqueue, tries_left-dequeue,
}
use qiftop.Attribution.Pass.{Resolver}
use qiftop.Attribution.Worker.{Worker, set_resolver, set_tuning, retries_of, process_with, process}

-- A retry has one try less than the request had, so every request of a batch costs one.
retries_of-tries :
    (r : Resolver) (limit : ℕ) (batch : Requests)
    → tries_in limit (retries_of r limit batch) + length batch ≤ tries_in limit batch
unfolding retries_of
retries_of-tries r limit [] = omega arith
retries_of-tries r limit (req ∷ batch) = ground (arith, retries_of-tries r limit batch)

-- The tries that the queued requests have left.
abbrev pub work_left : Worker → ℕ
work_left w = tries_left w.max_attempts w.queue.by_key

process_with-work_left :
    (w : Worker) (r : Resolver)
    → IsFiled w.queue.by_key
    → work_left (process_with w r).worker + min w.batch_max (length w.queue.by_key) ≤ work_left w
unfolding process_with
process_with-work_left w r f =
    let taken = dequeue w.queue w.batch_max in
    let retry = retries_of r w.max_attempts taken.1 in
    ground (
      arith,
      tries_left-dequeue w.max_attempts w.queue w.batch_max f,
      tries_left-enqueue w.max_attempts taken.0 retry,
      retries_of-tries r w.max_attempts taken.1,
      length-dequeue w.queue w.batch_max f,
    )

length-le-tries_left : (limit : ℕ) (m : Filed) → length m ≤ tries_left limit m
length-le-tries_left limit [] = omega arith
length-le-tries_left limit ((k, r) ∷ m) = omega (arith, length-le-tries_left limit m)

-- The worker is tuned to take requests, and its queue is well-formed.
pub record IsReady (w : Worker) : Type 0 where
  pub filed : IsFiled w.queue.by_key
  pub takes : 0 < w.batch_max

-- Whatever the tuning, a worker with a well-formed queue takes requests, tries each at least once
-- and waits between ticks, and its queue stays well-formed and fits the new capacity.
pub set_tuning-IsReady :
    (w : Worker) (t : ResolverTuning)
    → IsFiled w.queue.by_key
    → let tuned = set_tuning w t in
      IsReady tuned
      × (length tuned.queue.by_key ≤ positive_or t.deep_queue_max 0)
      × (0 < tuned.max_attempts)
      × (0 < tuned.coalesce_ms)
unfolding set_tuning set_capacity
set_tuning-IsReady w t f =
    let cut = length-enforce_cap (record w.queue { cap = positive_or t.deep_queue_max 0 }) f in
    (
      record { filed = cut.2; takes = positive_or-lt t.deep_batch_max 1 (omega arith) },
      cut.0,
      positive_or-lt t.deep_max_attempts 1 (omega arith),
      positive_or-lt t.deep_coalesce_ms 50 (omega arith),
    )

process_with-IsReady : (w : Worker) (r : Resolver) → IsReady w → IsReady (process_with w r).worker
unfolding process_with
process_with-IsReady w r v =
    let taken = dequeue w.queue w.batch_max in
    let retry = retries_of r w.max_attempts taken.1 in
    let left = (length-dequeue w.queue w.batch_max v.filed).2 in
    record {
      filed = elim (Bool-cases (is_empty retry)) [
        | inl e ↦ rw e left
        | inr e ↦ rw e ((enqueue-IsFiled taken.0 retry left).0)
      ];
      takes = v.takes;
    }

process-IsReady : (w : Worker) → IsReady w → IsReady (process w).worker
unfolding process clear
process-IsReady w v = elim (Bool-cases w.active) [
  | inl on ↦ elim (Option-cases w.resolver) [
    | inl missing ↦
        rw (on, missing, process)
          (record { filed = record { coherent = tt; unique = tt }; takes = v.takes })
    | inr (r, given) ↦ rw (on, given, process) (process_with-IsReady w r v)
  ]
  | inr off ↦
      rw (off, process) (record { filed = record { coherent = tt; unique = tt }; takes = v.takes })
]

-- Each tick of a ready worker costs a try for every request that it takes from the queue, up to
-- the batch size, and gives none back; the worker stays ready.
pub process-work_left :
    (w : Worker)
    → IsReady w
    → (work_left (process w).worker + min w.batch_max (length w.queue.by_key) ≤ work_left w)
      × IsReady (process w).worker
unfolding process clear
process-work_left w v = (fewer, process-IsReady w v)
  where
    all : length w.queue.by_key ≤ work_left w
    all = length-le-tries_left w.max_attempts w.queue.by_key

    fewer : work_left (process w).worker + min w.batch_max (length w.queue.by_key) ≤ work_left w
    fewer = elim (Bool-cases w.active) [
      | inl on ↦ elim (Option-cases w.resolver) [
        | inl missing ↦ rw (on, missing, process) (omega (arith, all))
        | inr (r, given) ↦ rw (on, given, process) (process_with-work_left w r v.filed)
      ]
      | inr off ↦ rw (off, process) (omega (arith, all))
    ]

-- The worker after a tick with each of the resolvers, and nothing enqueued in between. The resolver
-- may be another at each tick, since it can be replaced and its answers change with the system.
pub ticks : List (Option Resolver) → Worker → Worker
unfolding set_resolver
ticks [] w = w
ticks (r ∷ rs) w = ticks rs (process (set_resolver w r)).worker

-- A queued request has at most `max_attempts` tries left and one more, so the bound on the ticks is
-- proportional to the number of requests.
pub work_left-le : (w : Worker) → work_left w ≤ (w.max_attempts + 1) * length w.queue.by_key
work_left-le w = bound w.max_attempts w.queue.by_key
  where
    bound : (limit : ℕ) (m : Filed) → tries_left limit m ≤ (limit + 1) * length m
    bound limit [] = omega arith
    bound limit ((k, r) ∷ m) = grind (arith, bound limit m)
