-- ===== src/Attribution/DeepQueue.antt =====
-- src/backend/DeepAttributionQueue.h. A capacity of 0 stands for every capacity that is not
-- positive, which the source treats alike. std::partial_sort leaves the order of equal elements
-- open; the sort here keeps the order of the map among requests of equally many bytes.
pub mod Ranking
pub mod Removal
pub mod Priority
pub mod Capacity
pub mod Merge
pub mod Weight
use qiftop.Common.{
  ℕ, suc, ◌+◌, ◌-◌, ◌≡◌, Bool, true, false, ◌||◌, List, [], ◌∷◌, Option, none, some, ltb, leb,
  if◌then◌else◌, ◌==◌, nat_eq, length, take, drop, max, map,
}
use qiftop.Common.Int.{ℤ, positive_or}
use qiftop.Containers.Map.{Map, find, put, remove}
use qiftop.Attribution.Request.{AttributionFlowKey, flow_key_eq, DeepAttributionRequest, add64}

pub record DeepQueue : Type 0 where
  pub by_key : Map AttributionFlowKey DeepAttributionRequest
  pub cap : ℕ
  pub warned_overflow : Bool

pub total_bytes : DeepAttributionRequest → ℕ
total_bytes r = add64 r.flow.rx_bytes r.flow.tx_bytes

unfoldable pub more_bytes : DeepAttributionRequest → DeepAttributionRequest → Bool
unfolding total_bytes
more_bytes a b = ltb (total_bytes b) (total_bytes a)

-- std::partial_sort by `moreBytes`, as an insertion sort.
pub insert_sorted :
    DeepAttributionRequest → List DeepAttributionRequest → List DeepAttributionRequest
insert_sorted r [] = r ∷ []
insert_sorted r (s ∷ ss) = if more_bytes s r then s ∷ insert_sorted r ss else r ∷ s ∷ ss

pub sorted : List DeepAttributionRequest → List DeepAttributionRequest
sorted [] = []
sorted (r ∷ rs) = insert_sorted r (sorted rs)

-- The vector `all`, sorted.
unfoldable pub ranked : Map AttributionFlowKey DeepAttributionRequest → List DeepAttributionRequest
unfolding sorted insert_sorted more_bytes
ranked m = sorted (map (λ e. e.1) m)

-- `m_byKey.remove(all[i].key)` for each of the requests.
unfoldable pub remove_all :
    List DeepAttributionRequest
    → Map AttributionFlowKey DeepAttributionRequest
    → Map AttributionFlowKey DeepAttributionRequest
remove_all [] m = m
remove_all (r ∷ rs) m = remove_all rs (remove r.key m)

abbrev pub warn_once : DeepQueue → ℕ → DeepQueue
warn_once q dropped =
    if dropped == 0 || q.warned_overflow then q else record q { warned_overflow = true }

-- The branch for a capacity that is not positive.
drop_all : DeepQueue → ℕ → DeepQueue × ℕ
drop_all q dropped = (warn_once (record q { by_key = [] }) dropped, dropped)

-- The branch that keeps the loudest `cap` requests.
drop_quietest : DeepQueue → List DeepAttributionRequest → DeepQueue × ℕ
drop_quietest q all =
    let dropped = length all - q.cap in
    (warn_once (record q { by_key = remove_all (drop q.cap all) q.by_key }) dropped, dropped)

-- The queue within its capacity, and the number of requests dropped.
unfoldable pub enforce_cap : DeepQueue → DeepQueue × ℕ
unfolding drop_all drop_quietest
enforce_cap q =
    if q.cap == 0
    then drop_all q (length q.by_key)
    else if leb (length q.by_key) q.cap
    then (q, 0)
    else drop_quietest q (ranked q.by_key)

unfoldable pub set_capacity : DeepQueue → ℤ → DeepQueue
set_capacity q c = (enforce_cap (record q { cap = positive_or c 0 })).0

-- The entry of a request: the freshest observation, with the attempts that were accumulated.
pub merged : Option DeepAttributionRequest → DeepAttributionRequest → DeepAttributionRequest
merged none r = r
merged (some old) r = record r {
  generation = max old.generation r.generation;
  attempts = max old.attempts r.attempts;
}

-- The loop of `enqueue`.
pub merge_all :
    Map AttributionFlowKey DeepAttributionRequest
    → List DeepAttributionRequest
    → Map AttributionFlowKey DeepAttributionRequest
merge_all m [] = m
merge_all m (r ∷ rs) = merge_all (put r.key (merged (find r.key m) r) m) rs

unfoldable pub enqueue : DeepQueue → List DeepAttributionRequest → DeepQueue × ℕ
unfolding merge_all merged enforce_cap remove_all
enqueue q reqs = enforce_cap (record q { by_key = merge_all q.by_key reqs })

-- The queue after the call, and the requests handed out.
unfoldable pub dequeue : DeepQueue → ℕ → DeepQueue × List DeepAttributionRequest
unfolding remove_all
dequeue q batch =
    if batch == 0
    then (q, [])
    else let out = take batch (ranked q.by_key) in
      (record q { by_key = remove_all out q.by_key }, out)

unfoldable pub clear : DeepQueue → DeepQueue
clear q = record q { by_key = [] }
