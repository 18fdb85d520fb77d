-- ===== src/Tests/Birth.antt =====
-- The birth cache and its resolver.
use qiftop.Common.{ℕ, ◌≡◌, ◌↔◌, refl, true, List, [], ◌∷◌, some, arith, nat_eq, list_eq}
use qiftop.Common.Int.{pos, negsuc}
use qiftop.Containers.Map.{find}
use qiftop.Flow.Types.{outbound}
use qiftop.Flow.Wire.{utf16}
use qiftop.Attribution.BirthCache.{
  BirthKey, birth_key_eq, birth_key_of, BirthRecord, BirthCache, find_flow, empty_cache,
}
use qiftop.Attribution.BirthCache.Laws.{
  IsBounded, Op, inserts, removes, prunes, clears, run, run-empty_cache-IsBounded,
}
use qiftop.Attribution.BirthResolver.{BirthResolver, resolve_pid}
use qiftop.Attribution.BirthResolver.Guard.{Confirms, resolve_pid_iff}
use qiftop.Attribution.Request.{flow_key_eq}
use qiftop.Tests.Data.{flow_of}

-- Process 42, born at 1000, opened the flow from port 5000.
abbrev birth : BirthRecord
birth = record {
  pid = 42;
  uid = 7;
  comm = utf16 "curl";
  direction = outbound;
  start_time = 1000;
  first_seen_mono_ms = 10;
  inserted_mono_ms = 10;
}

abbrev key : ℕ → BirthKey
key port = birth_key_of (flow_of port 0)

abbrev births : BirthCache
births = record { map = (key 5000, birth) ∷ []; max_entries = 1; ttl_ms = 100 }

-- The probe says when the process `pid` began.
abbrev resolver_with : ℕ → BirthResolver
resolver_with began = record {
  cache = births;
  enrich_by_pid = [];
  start_time_probe = some (λ pid. began);
  loaded = true;
}

resolve_pid_iff_example : ((resolve_pid (resolver_with 1000) (flow_of 5000 0) 50).1 ≡ 42) ↔ (
    (true ≡ true)
    × ((r : BirthRecord) × (find_flow births (flow_of 5000 0) 50 ≡ some r)
        × (r.pid ≡ 42)
        × Confirms (some (λ pid. 1000)) r))
resolve_pid_iff_example = resolve_pid_iff (resolver_with 1000) (flow_of 5000 0) 50 42 (omega arith)

attributed : (resolve_pid (resolver_with 1000) (flow_of 5000 0) 50).1 ≡ 42
unfolding resolve_pid find_flow find
attributed = refl

abbrev calls : List Op
calls =
    inserts (key 5000) birth 5
    ∷ inserts (key 6000) birth 6
    ∷ removes (key 5000)
    ∷ prunes 500
    ∷ clears
    ∷ []

run-empty_cache-IsBounded_example : IsBounded (run (empty_cache (pos 1) (negsuc 0)) calls)
run-empty_cache-IsBounded_example = run-empty_cache-IsBounded (pos 1) (negsuc 0) calls
