-- ===== src/Attribution/BirthCache/Laws.antt =====
-- What the birth cache of src/backend/BirthCache.h promises its callers.
use qiftop.Common.{
  ℕ, ◌+◌, ◌-◌, ◌≤◌, ◌<◌, ◌≡◌, ◌⊎◌, inl, inr, refl, true, false, not, ◌&&◌, List, [], ◌∷◌, none,
  some, arith, ltb, leb, if◌then◌else◌, ◌==◌, length, length-keep-le, Bool-cases, ◌↔◌,
}
use qiftop.Common.Int.{ℤ}
use qiftop.Flow.Types.{Connection}
use qiftop.Containers.Map.{
  find, contains, Unique, find-put, find-remove, find-contains, length-put, length-remove-le,
  Unique-put, Unique-remove, find-keep, Unique-keep,
}
use qiftop.Attribution.BirthCache.{
  BirthKey, birth_key_eq, BirthRecord, BirthCache, empty_cache, insert, find_birth, find_flow,
  birth_key_of, remove_birth, fresh_entry, prune, size, clear,
}

-- One entry to a key, and no more entries than allowed.
pub record IsBounded (c : BirthCache) : Type 0 where
  pub room : 0 < c.max_entries
  pub within : length c.map ≤ c.max_entries
  pub unique : Unique c.map

-- A call of one of the operations that change the cache.
pub data Op : Type 0 where
  inserts : BirthKey → BirthRecord → ℕ → Op
  removes : BirthKey → Op
  prunes : ℕ → Op
  clears : Op

pub apply : BirthCache → Op → BirthCache
unfolding insert remove_birth prune clear
apply c (inserts k r now) = (insert c k r now).0
apply c (removes k) = remove_birth c k
apply c (prunes now) = (prune c now).0
apply c clears = clear c

pub run : BirthCache → List Op → BirthCache
run c [] = c
run c (o ∷ os) = run (apply c o) os

-- The two ways of an insertion: after a clearing, or into the map as it is.
insert_cases :
    (c : BirthCache) (k : BirthKey) (now : ℕ)
    → ((not (contains k c.map) && leb c.max_entries (length c.map)) ≡ true)
      ⊎ ((not (contains k c.map) && leb c.max_entries (length c.map)) ≡ false)
insert_cases c k now = Bool-cases _

insert-IsBounded :
    (c : BirthCache) (k : BirthKey) (r : BirthRecord) (now : ℕ)
    → IsBounded c
    → IsBounded (insert c k r now).0
unfolding insert contains
insert-IsBounded c k r now v = elim (insert_cases c k now) [
  | inl full ↦ record {
    room = v.room;
    within = ground (arith, length-put k (record r { inserted_mono_ms = now }) []);
    unique = ground (arith, Unique-put k (record r { inserted_mono_ms = now }) []);
  }
  | inr fits ↦ record {
    room = v.room;
    within = ground (arith, length-put k (record r { inserted_mono_ms = now }) c.map);
    unique = ground (arith, Unique-put k (record r { inserted_mono_ms = now }) c.map);
  }
]

apply-IsBounded : (o : Op) {c : BirthCache} → IsBounded c → IsBounded (apply c o)
unfolding apply
apply-IsBounded (inserts k r now) {c} v = insert-IsBounded c k r now v
apply-IsBounded (removes k) {c} v = record {
  room = v.room;
  within = omega (arith, length-remove-le k c.map, v.within);
  unique = Unique-remove k c.map v.unique;
}
apply-IsBounded (prunes now) {c} v = record {
  room = v.room;
  within = omega (arith, length-keep-le (fresh_entry c now) c.map, v.within);
  unique = Unique-keep (fresh_entry c now) c.map v.unique;
}
apply-IsBounded clears v = record { room = v.room; within = omega arith; unique = tt }

run-IsBounded : (os : List Op) {c : BirthCache} → IsBounded c → IsBounded (run c os)
unfolding run
run-IsBounded [] v = v
run-IsBounded (o ∷ os) v = run-IsBounded os (apply-IsBounded o v)

start-IsBounded : (max_entries ttl_ms : ℤ) → IsBounded (empty_cache max_entries ttl_ms)
unfolding empty_cache
start-IsBounded max_entries ttl_ms = record {
  room = ground arith;
  within = omega arith;
  unique = tt;
}

-- However the cache is built and used, it holds at most its maximum of births, at least one fits,
-- and no flow has two.
pub run-empty_cache-IsBounded :
    (max_entries ttl_ms : ℤ) (os : List Op) → IsBounded (run (empty_cache max_entries ttl_ms) os)
unfolding empty_cache
run-empty_cache-IsBounded max_entries ttl_ms os =
    run-IsBounded os (start-IsBounded max_entries ttl_ms)

-- After an insertion a key finds the new record, stamped with the time of the insertion, until its
-- lifetime is over; any other key finds what it found before, or nothing if the insertion reports
-- a clearing.
pub find_birth-insert :
    (c : BirthCache) (k j : BirthKey) (r : BirthRecord) (now later : ℕ)
    → find_birth (insert c k r now).0 j later ≡ (
        if k == j
        then (if ltb c.ttl_ms (later - now)
            then none
            else some (record r { inserted_mono_ms = now }))
        else if (insert c k r now).1
        then none
        else find_birth c j later)
unfolding insert find_birth find
find_birth-insert c k j r now later = elim (insert_cases c k now) [
  | inl full ↦ ground (arith, find-put j k (record r { inserted_mono_ms = now }) [])
  | inr fits ↦ ground (arith, find-put j k (record r { inserted_mono_ms = now }) c.map)
]

-- The cache is cleared by an insertion exactly when it is full and the key is new.
pub insert_clears :
    (c : BirthCache) (k : BirthKey) (r : BirthRecord) (now : ℕ)
    → ((insert c k r now).1 ≡ true) ↔ ((find k c.map ≡ none) × (c.max_entries ≤ size c))
unfolding insert size
insert_clears c k r now =
    ((λ h. ground (arith, find-contains k c.map)), (λ h. ground (arith, find-contains k c.map)))

-- From the time of a prune on, every key of a cache with unique keys finds what it would have
-- found without it, and the prune reaps as many entries as it reports.
pub find_birth-prune :
    (c : BirthCache) (k : BirthKey) (now later : ℕ)
    → Unique c.map
    → now ≤ later
    → (find_birth (prune c now).0 k later ≡ find_birth c k later)
      × (size (prune c now).0 + (prune c now).1 ≡ size c)
unfolding prune find_birth size
find_birth-prune c k now later u h = (
  ground (arith, find-keep (fresh_entry c now) k c.map u),
  omega (arith, length-keep-le (fresh_entry c now) c.map),
)

-- A removed key finds nothing, and every other key what it found before.
pub find_birth-remove_birth :
    (c : BirthCache) (k j : BirthKey) (later : ℕ)
    → find_birth (remove_birth c k) j later ≡ (if k == j then none else find_birth c j later)
unfolding find_birth remove_birth
find_birth-remove_birth c k j later = ground (arith, find-remove j k c.map)

pub find_flow-find_birth :
    (c : BirthCache) (flow : Connection) (now : ℕ)
    → find_flow c flow now ≡ find_birth c (birth_key_of flow) now
unfolding find_flow
find_flow-find_birth c flow now = refl
