-- ===== src/Attribution/BirthResolver.antt =====
-- src/backend/BpfBirthResolver.h. The clock is read by the caller: each operation takes the time.
-- Every operation is one step here; the source holds its mutex for each access of the cache.
pub mod Guard
use qiftop.Common.{
  ℕ, ◌≡◌, Bool, true, false, not, ◌&&◌, ◌||◌, List, [], ◌∷◌, Option, none, some, ltb, if◌then◌else◌,
  ◌==◌, nat_eq, length,
}
use qiftop.Containers.Map.{Map, find, put}
use qiftop.Flow.Types.{Connection, ProcessInfo}
use qiftop.Attribution.BirthCache.{
  BirthKey, birth_key_of, BirthRecord, birth_valid, BirthCache, insert, find_flow, remove_birth,
  prune as prune_cache, size,
}

pub record BirthResolver : Type 0 where
  pub cache : BirthCache
  pub enrich_by_pid : Map ℕ ProcessInfo
  -- `m_startTimeProbe`, which may be absent.
  pub start_time_probe : Option (ℕ → ℕ)
  pub loaded : Bool

pub on_birth : BirthResolver → BirthKey → BirthRecord → ℕ → BirthResolver
on_birth s key rec now =
    let c = (insert s.cache key rec now).0 in
    let info : ProcessInfo = record {
      pid = rec.pid;
      comm = rec.comm;
      cmdline = [];
      exe = [];
      uid = rec.uid;
    } in
    let noted = put rec.pid info s.enrich_by_pid in
    let bounded = if ltb c.max_entries (length noted) then [] else noted in
    record s { cache = c; enrich_by_pid = if birth_valid rec then bounded else s.enrich_by_pid }

pub set_loaded : BirthResolver → Bool → BirthResolver
set_loaded s loaded = record s { loaded = loaded }

-- The two tests on the live start time.
pub recycled : Option (ℕ → ℕ) → BirthRecord → Bool
recycled none rec = false
recycled (some probe) rec = probe rec.pid == 0 || not (probe rec.pid == rec.start_time)

-- From the cached record on.
pub resolve_found : BirthResolver → Connection → Option BirthRecord → BirthResolver × ℕ
unfolding recycled
resolve_found s flow none = (s, 0)
resolve_found s flow (some rec) =
    if not (birth_valid rec)
    then (s, 0)
    else if recycled s.start_time_probe rec
    then (record s { cache = remove_birth s.cache (birth_key_of flow) }, 0)
    else (s, rec.pid)

-- The resolver after the call, and the pid; 0 falls through to the next resolver.
unfoldable pub resolve_pid : BirthResolver → Connection → ℕ → BirthResolver × ℕ
unfolding resolve_found
resolve_pid s flow now =
    if not s.loaded then (s, 0) else resolve_found s flow (find_flow s.cache flow now)

pub enrich_pid : BirthResolver → ℕ → Option ProcessInfo
enrich_pid s pid = if not s.loaded || not (ltb 0 pid) then none else find pid s.enrich_by_pid

pub prune : BirthResolver → ℕ → BirthResolver
prune s now = record s { cache = (prune_cache s.cache now).0 }

pub cache_size : BirthResolver → ℕ
cache_size s = size s.cache
