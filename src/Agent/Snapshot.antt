-- ===== src/Agent/Snapshot.antt =====
-- src/agent/ConnectionsService.cpp: the flows of a snapshot that the service keeps, and what it adds to
-- them. std::partial_sort leaves the order among equals open; here it is that of the snapshot.
pub mod Top
use qiftop.Common.{
  ℕ, ◌+◌, ◌-◌, ◌^◌, Bool, true, false, not, List, [], ◌∷◌, Option, none, some, ltb, leb,
  if◌then◌else◌, length, take, map,
}
use qiftop.Flow.Types.{Address, Connection}
use qiftop.Flow.Heuristics.{infer_direction, attribution_reason}
use qiftop.Attribution.Request.{add64}
use qiftop.Attribution.Pass.{Resolver, attribute_flows}

pub record HostContext : Type 0 where
  pub local_addrs : List Address
  pub loopback_addrs : List Address
  pub ephemeral_low : ℕ
  pub ephemeral_high : ℕ

pub record ByteTotal : Type 0 where
  pub low : ℕ
  pub carry : Bool

pub total_bytes : Connection → ByteTotal
total_bytes c = record {
  low = add64 c.rx_bytes c.tx_bytes;
  carry = ltb (2 ^ 64 - 1 - c.tx_bytes) c.rx_bytes;
}

abbrev differ : Bool → Bool → Bool
differ true b = not b
differ false b = b

pub has_greater_total_bytes : Connection → Connection → Bool
unfolding total_bytes
has_greater_total_bytes a b =
    let at = total_bytes a in
    let bt = total_bytes b in if differ at.carry bt.carry then at.carry else ltb bt.low at.low

abbrev pub max_connections : ℕ
max_connections = 4096

-- std::partial_sort by `hasGreaterTotalBytes`, as an insertion sort.
pub insert_sorted : Connection → List Connection → List Connection
insert_sorted c [] = c ∷ []
insert_sorted c (d ∷ ds) =
    if has_greater_total_bytes d c then d ∷ insert_sorted c ds else c ∷ d ∷ ds

pub sorted : List Connection → List Connection
unfolding insert_sorted has_greater_total_bytes
sorted [] = []
sorted (c ∷ cs) = insert_sorted c (sorted cs)

-- `kept`, before anything is added to it.
pub capped : List Connection → List Connection
unfolding sorted
capped conns =
    if ltb max_connections (length conns) then take max_connections (sorted conns) else conns

pub directed : HostContext → Connection → Connection
directed ctx c = record c {
  direction =
      infer_direction c ctx.local_addrs ctx.loopback_addrs ctx.ephemeral_low ctx.ephemeral_high;
}

-- The pass of backend::attributeFlows; with no resolver it does nothing.
pub attributed : Option Resolver → Bool → List Connection → List Connection
attributed none want cs = cs
attributed (some r) want cs = attribute_flows want (map (λ c. (r, c)) cs)

pub explained : HostContext → Connection → Connection
explained ctx c = record c { reason = attribution_reason c ctx.local_addrs ctx.loopback_addrs }

-- The flows as onConnectionsUpdated sends them.
pub prepared : HostContext → Option Resolver → Bool → List Connection → List Connection
unfolding capped directed attributed explained
prepared ctx resolver want conns =
    map (explained ctx) (attributed resolver want (map (directed ctx) (capped conns)))
