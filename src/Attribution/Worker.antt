-- ===== src/Attribution/Worker.antt =====
-- src/backend/ResolverDeepWorker.h and ResolverDeepWorker.cpp. The timer is a flag and an interval;
-- the signal `refined` is the list of updates that a tick returns. Within one tick the resolver
-- gives the same answers.
pub mod Drain
use qiftop.Common.{
  ℕ, ◌+◌, ◌≡◌, Bool, true, false, not, ◌&&◌, ◌||◌, List, [], ◌∷◌, Option, none, some, ltb,
  if◌then◌else◌, length,
}
use qiftop.Common.Int.{ℤ, positive_or}
use qiftop.Flow.Types.{
  Connection, AttributionReason, resolved, process_valid, container_valid, is_empty,
}
use qiftop.Attribution.Request.{DeepAttributionRequest, DeepAttributionUpdate}
use qiftop.Attribution.DeepQueue.{DeepQueue, enqueue as enqueue_all, dequeue, clear, set_capacity}
use qiftop.Attribution.Pass.{Resolver, attribute_flows}
use qiftop.Attribution.Tuning.{ResolverTuning}

pub record Worker : Type 0 where
  pub queue : DeepQueue
  pub resolver : Option Resolver
  pub timer_active : Bool
  pub timer_interval : ℕ
  pub active : Bool
  pub batch_max : ℕ
  pub max_attempts : ℕ
  pub coalesce_ms : ℕ
  pub demand_netns_scan : Bool

pub set_resolver : Worker → Option Resolver → Worker
set_resolver w r = record w { resolver = r }

pub set_tuning : Worker → ResolverTuning → Worker
set_tuning w t =
    let coalesce = positive_or t.deep_coalesce_ms 50 in
    record w {
      batch_max = positive_or t.deep_batch_max 1;
      max_attempts = positive_or t.deep_max_attempts 1;
      coalesce_ms = coalesce;
      demand_netns_scan = t.deep_demand_netns_scan;
      queue = set_capacity w.queue t.deep_queue_max;
      timer_interval = if w.timer_active then coalesce else w.timer_interval;
    }

abbrev stop_and_clear : Worker → Worker
stop_and_clear w = record w { queue = clear w.queue; timer_active = false }

ensure_running : Worker → Worker
ensure_running w =
    if not w.timer_active && not (is_empty w.queue.by_key)
    then record w { timer_active = true; timer_interval = w.coalesce_ms }
    else w

pub enqueue : Worker → List DeepAttributionRequest → Worker
unfolding ensure_running
enqueue w reqs =
    if not w.active || is_empty reqs
    then w
    else ensure_running (record w { queue = (enqueue_all w.queue reqs).0 })

pub set_active : Worker → Bool → Worker
set_active w active =
    let w' = record w { active = active } in if not active then stop_and_clear w' else w'

pub clear_worker : Worker → Worker
clear_worker w = stop_and_clear w

-- `one.front()`
abbrev front : Connection → List Connection → Connection
front c [] = c
front c (x ∷ xs) = x

-- The flow of a request as the resolver attributes it now.
pub refreshed : Resolver → DeepAttributionRequest → Connection
refreshed r req = front req.flow (attribute_flows req.want_container_chain ((r, req.flow) ∷ []))

-- `gotProcess || gotContainer || gotChain`
pub improves : Connection → Connection → Bool
improves got flow =
    (process_valid got.process && not (process_valid flow.process))
    || (container_valid got.container && not (container_valid flow.container))
    || (not (is_empty got.container_chain) && is_empty flow.container_chain)

pub update_of : DeepAttributionRequest → Connection → DeepAttributionUpdate
update_of req got = record {
  key = req.key;
  generation = req.generation;
  process = got.process;
  container = got.container;
  container_chain = got.container_chain;
  reason = if process_valid got.process then resolved else req.flow.reason;
}

-- The updates of a batch.
pub updates_of : Resolver → List DeepAttributionRequest → List DeepAttributionUpdate
unfolding update_of refreshed improves
updates_of r [] = []
updates_of r (req ∷ batch) =
    if improves (refreshed r req) req.flow
    then update_of req (refreshed r req) ∷ updates_of r batch
    else updates_of r batch

-- The requests of a batch that are tried again.
pub retries_of : Resolver → ℕ → List DeepAttributionRequest → List DeepAttributionRequest
unfolding refreshed improves
retries_of r max_attempts [] = []
retries_of r max_attempts (req ∷ batch) =
    if not (improves (refreshed r req) req.flow) && ltb (req.attempts + 1) max_attempts
    then record req { attempts = req.attempts + 1 } ∷ retries_of r max_attempts batch
    else retries_of r max_attempts batch

-- What a tick does besides: the updates it emits, and whether it asks for a deep scan.
pub record Outcome : Type 0 where
  pub worker : Worker
  pub updates : List DeepAttributionUpdate
  pub deep_scan : Bool

pub process_with : Worker → Resolver → Outcome
unfolding updates_of retries_of
process_with w r =
    let taken = dequeue w.queue w.batch_max in
    let retry = retries_of r w.max_attempts taken.1 in
    let queue = if is_empty retry then taken.0 else (enqueue_all taken.0 retry).0 in
    record {
      worker = record w {
        queue = queue;
        timer_active = if is_empty queue.by_key then false else w.timer_active;
      };
      updates = updates_of r taken.1;
      deep_scan = not (is_empty retry) && w.demand_netns_scan;
    }

-- The slot of the timer.
pub process : Worker → Outcome
unfolding process_with
process w =
    if not w.active
    then record { worker = stop_and_clear w; updates = []; deep_scan = false }
    else elim w.resolver [
      | none ↦ record { worker = stop_and_clear w; updates = []; deep_scan = false }
      | some r ↦ process_with w r
    ]
