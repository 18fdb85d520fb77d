-- ===== src/Tests/Deep.antt =====
-- The queue of deep attribution, the pass and the worker.
use qiftop.Common.{
  Option, ◌≤◌, ◌≡◌, inl, refl, true, false, List, [], ◌∷◌, none, some, if◌then◌else◌, ◌==◌, nat_eq,
  list_eq, length, map,
}
use qiftop.Containers.Map.{find, put, remove}
use qiftop.Flow.Types.{Connection, ProcessInfo, ContainerInfo}
use qiftop.Flow.Wire.{utf16}
use qiftop.Attribution.BirthCache.{birth_key_eq}
use qiftop.Attribution.Request.{flow_key_eq, key_of, DeepAttributionRequest}
use qiftop.Attribution.DeepQueue.{
  DeepQueue, total_bytes, ranked, remove_all, enqueue, dequeue, enforce_cap,
}
use qiftop.Attribution.DeepQueue.Priority.{IsFiled, dequeue-louder}
use qiftop.Attribution.DeepQueue.Capacity.{enforce_cap-louder}
use qiftop.Attribution.DeepQueue.Merge.{Supersedes, enqueue-IsFiled, enqueue-takes}
use qiftop.Attribution.Pass.{Resolver, attribute_flows}
use qiftop.Attribution.Pass.Memo.{Facts, Reports, attribute_plain, attribute_flows-map}
use qiftop.Attribution.Worker.{Worker}
use qiftop.Tests.Data.{flow_of, request_of}

-- Three requests, of which the one from port 2 has the most bytes; two of them fit.
abbrev queue : DeepQueue
queue = record {
  by_key =
      (key_of (flow_of 1 100), request_of 1 100)
      ∷ (key_of (flow_of 2 900), request_of 2 900)
      ∷ (key_of (flow_of 3 300), request_of 3 300)
      ∷ [];
  cap = 2;
  warned_overflow = false;
}

queue-IsFiled : IsFiled queue.by_key
unfolding find
queue-IsFiled = record {
  coherent = (refl, (refl, (refl, tt)));
  unique = (refl, (refl, (refl, tt)));
}

dequeue-louder_example :
    (find (key_of (flow_of 2 900)) queue.by_key ≡ some (request_of 2 900))
    × (find (key_of (flow_of 2 900)) (dequeue queue 2).0.by_key ≡ none)
    × (find (key_of (flow_of 1 100)) queue.by_key ≡ some (request_of 1 100))
    × (total_bytes (request_of 1 100) ≤ total_bytes (request_of 2 900))
unfolding dequeue ranked remove_all find remove
dequeue-louder_example =
    dequeue-louder queue 2 (request_of 2 900) (request_of 1 100) (key_of (flow_of 1 100))
      queue-IsFiled (inl refl) refl

enforce_cap-louder_example :
    (find (key_of (flow_of 3 300)) queue.by_key ≡ some (request_of 3 300))
    × (total_bytes (request_of 1 100) ≤ total_bytes (request_of 3 300))
unfolding enforce_cap ranked remove_all find remove
enforce_cap-louder_example =
    enforce_cap-louder queue (request_of 1 100) (request_of 3 300) (key_of (flow_of 3 300))
      queue-IsFiled refl refl refl

-- The flow from port 1 again, now louder and of a later generation.
abbrev again : List DeepAttributionRequest
again = record (request_of 1 1000) { generation = 8 } ∷ []

abbrev kept : DeepAttributionRequest
kept = record (request_of 1 1000) { generation = 8 }

enqueue-IsFiled_example :
    IsFiled (enqueue queue again).0.by_key × (length (enqueue queue again).0.by_key ≤ 2)
enqueue-IsFiled_example = enqueue-IsFiled queue again queue-IsFiled

abbrev roomy : DeepQueue
roomy = record queue { cap = 3 }

enqueue-takes_example :
    (new : DeepAttributionRequest) × (find (key_of (flow_of 1 1000)) (enqueue roomy again).0.by_key
      ≡ some new)
    × Supersedes new kept
unfolding enqueue put
enqueue-takes_example = enqueue-takes roomy again kept queue-IsFiled (inl refl) refl

-- A resolver that knows process 42 only, and gives it every flow.
abbrev curl : ProcessInfo
curl = record { pid = 42; comm = utf16 "curl"; cmdline = []; exe = []; uid = 7 }

abbrev pod : ContainerInfo
pod = record { runtime = utf16 "podman"; id = utf16 "c0ffee"; name = utf16 "web" }

abbrev knows_curl : Resolver
knows_curl = record {
  resolve_pid = λ c. 42;
  enrich_pid = λ pid. if pid == 42 then some curl else none;
  resolve_container_for_pid = λ pid. some pod;
  resolve_container_chain_for_pid = λ pid. pod ∷ [];
  start_time_of = λ pid. 1000;
}

-- Later the pid is that of another process.
abbrev knows_wget : Resolver
knows_wget = record knows_curl {
  enrich_pid = λ pid. some (record curl { comm = utf16 "wget" });
  start_time_of = λ pid. 2000;
}

abbrev facts : Facts
facts = record {
  process = λ p.
      if p.start_time == 1000
      then (if p.pid == 42 then some curl else none)
      else some (record curl { comm = utf16 "wget" });
  container = λ p. some pod;
  chain = λ p. pod ∷ [];
}

abbrev snapshot : List (Resolver × Connection)
snapshot =
    (knows_curl, flow_of 1 100) ∷ (knows_curl, flow_of 2 900) ∷ (knows_wget, flow_of 3 300) ∷ []

curl-Reports : (c : Connection) → Reports facts (knows_curl, c)
curl-Reports c = record { process = λ pid. refl; container = λ pid. refl; chain = λ pid. refl }

wget-Reports : (c : Connection) → Reports facts (knows_wget, c)
wget-Reports c = record { process = λ pid. refl; container = λ pid. refl; chain = λ pid. refl }

attribute_flows-map_example : attribute_flows true snapshot ≡ map (attribute_plain true) snapshot
attribute_flows-map_example =
    attribute_flows-map facts true snapshot (curl-Reports _, (curl-Reports _, (wget-Reports _, tt)))

-- A resolver that finds nothing.
abbrev knows_nothing : Resolver
knows_nothing = record {
  resolve_pid = λ c. 0;
  enrich_pid = λ pid. none;
  resolve_container_for_pid = λ pid. none;
  resolve_container_chain_for_pid = λ pid. [];
  start_time_of = λ pid. 0;
}

abbrev worker : Worker
worker = record {
  queue = roomy;
  resolver = some knows_nothing;
  timer_active = true;
  timer_interval = 50;
  active = true;
  batch_max = 2;
  max_attempts = 3;
  coalesce_ms = 50;
  demand_netns_scan = false;
}

-- The resolver is taken away after six ticks.
abbrev resolvers : List (Option Resolver)
resolvers =
    some knows_nothing
    ∷ some knows_nothing
    ∷ some knows_curl
    ∷ some knows_nothing
    ∷ some knows_nothing
    ∷ some knows_nothing
    ∷ none
    ∷ none
    ∷ none
    ∷ none
    ∷ none
    ∷ none
    ∷ []
