-- ===== src/Attribution/BirthCache.antt =====
-- src/backend/BirthCache.h. Times are monotonic milliseconds; a difference of times that would be
-- negative in the source's qint64 is 0 here, and both are below every lifetime.
pub mod Laws
use qiftop.Common.{
  ℕ, ◌+◌, ◌-◌, ◌≡◌, ◌↔◌, Bool, true, false, not, ◌&&◌, List, [], ◌∷◌, Option, none, some, arith,
  ltb, leb, if◌then◌else◌, Eq, ◌==◌, ==_iff, nat_eq, length, keep,
}
use qiftop.Common.Int.{ℤ, positive_or}
use qiftop.Containers.Map.{Map, find, contains, put, remove}
use qiftop.Flow.Types.{Text, Address, L4Proto, proto_eq, proto_beq_iff, Direction, Connection}

pub record BirthKey : Type 0 where
  pub proto : L4Proto
  pub local_address : Address
  pub local_port : ℕ
  pub remote_address : Address
  pub remote_port : ℕ

abbrev pub birth_key_of : Connection → BirthKey
birth_key_of c = record {
  proto = c.proto;
  local_address = c.local.address;
  local_port = c.local.port;
  remote_address = c.remote.address;
  remote_port = c.remote.port;
}

pub birth_key_beq_iff :
    (a b : BirthKey)
    → ((a.proto == b.proto
          && a.local_address == b.local_address
          && a.local_port == b.local_port
          && a.remote_address == b.remote_address
          && a.remote_port == b.remote_port)
        ≡ true)
      ↔ (a ≡ b)
birth_key_beq_iff a b = ground (arith, proto_beq_iff a.proto b.proto)

instance abbrev pub birth_key_eq : Eq BirthKey
birth_key_eq = record {
  same = λ a b.
      a.proto == b.proto
      && a.local_address == b.local_address
      && a.local_port == b.local_port
      && a.remote_address == b.remote_address
      && a.remote_port == b.remote_port;
  same_iff = birth_key_beq_iff;
}

pub record BirthRecord : Type 0 where
  pub pid : ℕ
  pub uid : ℕ
  pub comm : Text
  pub direction : Direction
  pub start_time : ℕ
  pub first_seen_mono_ms : ℕ
  pub inserted_mono_ms : ℕ

abbrev pub birth_valid : BirthRecord → Bool
birth_valid r = ltb 0 r.pid

pub record BirthCache : Type 0 where
  pub map : Map BirthKey BirthRecord
  pub max_entries : ℕ
  pub ttl_ms : ℕ

abbrev pub default_max_entries : ℕ
default_max_entries = 65536

abbrev pub default_ttl_ms : ℕ
default_ttl_ms = 30000

-- The constructor.
pub empty_cache : ℤ → ℤ → BirthCache
empty_cache max_entries ttl_ms = record {
  map = [];
  max_entries = positive_or max_entries default_max_entries;
  ttl_ms = positive_or ttl_ms default_ttl_ms;
}

-- `nowMs - it->insertedMonoMs > m_ttlMs`
abbrev pub expired : BirthCache → ℕ → BirthRecord → Bool
expired c now r = ltb c.ttl_ms (now - r.inserted_mono_ms)

-- The cache after `insert`, and whether it was cleared for it.
pub insert : BirthCache → BirthKey → BirthRecord → ℕ → BirthCache × Bool
insert c key rec now =
    let full = not (contains key c.map) && leb c.max_entries (length c.map) in
    let old = if full then [] else c.map in
    (record c { map = put key (record rec { inserted_mono_ms = now }) old }, full)

abbrev pub unless_expired : BirthCache → ℕ → Option BirthRecord → Option BirthRecord
unless_expired c now none = none
unless_expired c now (some r) = if expired c now r then none else some r

unfoldable pub find_birth : BirthCache → BirthKey → ℕ → Option BirthRecord
find_birth c key now = unless_expired c now (find key c.map)

-- The overload on a flow.
unfoldable pub find_flow : BirthCache → Connection → ℕ → Option BirthRecord
unfolding find_birth
find_flow c flow now = find_birth c (birth_key_of flow) now

pub remove_birth : BirthCache → BirthKey → BirthCache
remove_birth c key = record c { map = remove key c.map }

abbrev pub fresh_entry : BirthCache → ℕ → BirthKey × BirthRecord → Bool
fresh_entry c now (k, r) = not (expired c now r)

-- The cache after `prune`, and the number of entries reaped.
pub prune : BirthCache → ℕ → BirthCache × ℕ
prune c now =
    let kept = keep (fresh_entry c now) c.map in
    (record c { map = kept }, length c.map - length kept)

pub size : BirthCache → ℕ
size c = length c.map

pub clear : BirthCache → BirthCache
clear c = record c { map = [] }
