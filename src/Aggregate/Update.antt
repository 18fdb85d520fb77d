-- ===== src/Aggregate/Update.antt =====
-- src/aggregate/ConnectionAggregator.cpp, the handlers that change the rows. The clock's reading is
-- an argument.
pub mod Rows
pub mod Patch
pub mod PatchRows
pub mod Protocol
use qiftop.Common.{
  ℕ, zero, suc, ◌+◌, ◌-◌, max, Bool, true, false, not, ◌&&◌, ◌||◌, List, [], ◌∷◌, ◌++◌, Option,
  none, some, ltb, leb, if◌then◌else◌, Eq, ◌==◌, nat_eq, list_eq, length, map, modify,
}
use qiftop.Containers.Map.{Map, find, put}
use qiftop.Flow.Types.{
  Text, Address, Direction, direction_eq, Connection, process_eq, container_eq, process_valid,
  container_valid, is_empty,
}
use qiftop.Flow.Key.{KeyText, connection_key}
use qiftop.Flow.Heuristics.{infer_direction}
use qiftop.Aggregate.Runs.{Run, runs_of}
use qiftop.Aggregate.Udp.{UdpAggState, aggregate_udp}
use qiftop.Aggregate.Real.{Real}
use qiftop.Aggregate.Rows.{
  Channel, Row, Settings, Signal, rows_updated, view_data_changed, rows_about_to_be_inserted,
  rows_inserted, resolves, update_rows, prune_rows, index_rows, additions, append_rows,
}

pub record Aggregator (Num : Type 0) : Type 0 where
  pub rows : List (Row Num)
  pub key_to_idx : Map Text ℕ
  pub prev : Map Text Connection
  pub last_elapsed_ms : ℕ
  pub udp_agg : Map Text UdpAggState
  pub settings : Settings
  pub resolve_enabled : Bool
  pub local_addrs : List Address
  pub loopback_addrs : List Address
  pub ephemeral_low : ℕ
  pub ephemeral_high : ℕ

-- The loop that guesses directions.
pub with_direction : {Num : Type 0} → Aggregator Num → Connection → Connection
with_direction a c =
    if c.direction == Direction.unknown
    then record c {
      direction = infer_direction c a.local_addrs a.loopback_addrs a.ephemeral_low a.ephemeral_high;
    }
    else c

-- The snapshot by key: of flows with one key, the last.
pub index_flows : KeyText → Map Text Connection → List Connection → Map Text Connection
index_flows q m [] = m
index_flows q m (c ∷ cs) = index_flows q (put (connection_key q c) c m) cs

-- The snapshot, and what is left of the groups.
pub snapshot :
    {Num : Type 0}
    → KeyText
    → Aggregator Num
    → ℕ
    → List Connection
    → Map Text UdpAggState × Map Text Connection
unfolding with_direction index_flows
snapshot q a now connections =
    let directed = map (with_direction a) connections in
    let (udp_agg, flows) =
      if a.settings.udp_aggregate_by_peer
      then aggregate_udp q now a.settings.stale_retention_ms_udp a.udp_agg directed
      else ([], directed) in
    (udp_agg, index_flows q [] flows)

abbrev pub updates : List ℕ → List Signal
updates indices = map (λ r. rows_updated r.0 r.1) (runs_of indices)

-- `requestResolution`; `m_resolver` is there when names are resolved.
pub request_resolution : (Address → Bool) → Bool → Address → List Signal
request_resolution is_null enabled addr =
    if enabled && not (is_null addr) then resolves addr ∷ [] else []

pub request_all : (Address → Bool) → Bool → List Connection → List Signal
unfolding request_resolution
request_all is_null enabled [] = []
request_all is_null enabled (c ∷ cs) =
    request_resolution is_null enabled c.local.address
    ++ (request_resolution is_null enabled c.remote.address ++ request_all is_null enabled cs)

-- The block for flows that had no row: `first` is the count of rows before.
pub insertion : (Address → Bool) → Bool → ℕ → List Connection → List Signal
unfolding request_all
insertion is_null enabled first [] = []
insertion is_null enabled first (c ∷ cs) =
    rows_about_to_be_inserted first (first + length (c ∷ cs) - 1)
    ∷ (request_all is_null enabled (c ∷ cs) ++ rows_inserted ∷ [])

module _ {Num : Type 0} (d : Real Num) (q : KeyText) (is_null : Address → Bool) where
  pub update_connections : ℕ → List Connection → Aggregator Num → Aggregator Num × List Signal
  unfolding snapshot insertion
  update_connections now connections a =
      let delta_ms = now - a.last_elapsed_ms in
      let (udp_agg, incoming) = snapshot q a now connections in
      let (refreshed, indices) = update_rows d q a.settings now delta_ms a.prev incoming 0 a.rows in
      let (kept, removals) = prune_rows a.settings now 0 refreshed in
      let key_to_idx = index_rows q 0 kept [] in
      let added = additions key_to_idx incoming in
      let (rows, key_to_idx') = append_rows d q now kept key_to_idx added in
      (
        record a {
          rows = rows;
          key_to_idx = key_to_idx';
          prev = incoming;
          last_elapsed_ms = now;
          udp_agg = udp_agg;
        },
        updates indices ++ (removals ++ insertion is_null a.resolve_enabled (length kept) added),
      )

-- The test of a field of a patch: it is valid, and differs from what the row has.
pub is_better {ℓ} : {A : Type ℓ} ⦃e : Eq A⦄ → (A → Bool) → A → A → Bool
is_better valid p cur = valid p && not (cur == p)

-- The body of the loop over a patch: the flow, and whether it changed.
pub patch : Connection → Connection → Connection × Bool
unfolding is_better
patch p cur =
    let process = is_better process_valid p.process cur.process in
    let container = is_better container_valid p.container cur.container in
    let chain = is_better (λ chain. not (is_empty chain)) p.container_chain cur.container_chain in
    (
      record cur {
        process = if process then p.process else cur.process;
        reason = if process then p.reason else cur.reason;
        container = if container then p.container else cur.container;
        container_chain = if chain then p.container_chain else cur.container_chain;
      },
      process || (container || chain),
    )

-- Whether the row at an index changes.
pub changes : {Num : Type 0} → Connection → ℕ → List (Row Num) → Bool
unfolding patch
changes p i [] = false
changes p zero (r ∷ rs) = (patch p r.current).1
changes p (suc i) (r ∷ rs) = changes p i rs

-- The row at the index of a patch, if it has one.
pub patch_at : {Num : Type 0} → Connection → Option ℕ → List (Row Num) → List (Row Num) × Bool
unfolding patch changes
patch_at p none rows = (rows, false)
patch_at p (some i) rows =
    (modify (λ r. record r { current = (patch p r.current).0 }) i rows, changes p i rows)

pub patch_rows :
    {Num : Type 0} → KeyText → Map Text ℕ → List Connection → List (Row Num) → List (Row Num) × Bool
unfolding patch_at
patch_rows q key_to_idx [] rows = (rows, false)
patch_rows q key_to_idx (p ∷ ps) rows =
    let (patched, changed) = patch_at p (find (connection_key q p) key_to_idx) rows in
    let (rest, any) = patch_rows q key_to_idx ps patched in (rest, changed || any)

pub apply_attribution_patch :
    {Num : Type 0} → KeyText → List Connection → Aggregator Num → Aggregator Num × List Signal
unfolding patch_rows
apply_attribution_patch q ps a =
    let (rows, any) = patch_rows q a.key_to_idx ps a.rows in
    (record a { rows = rows }, if any then view_data_changed ∷ [] else [])
