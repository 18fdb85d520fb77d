-- ===== src/Aggregate/Udp.antt =====
-- src/aggregate/ConnectionAggregator.cpp, the aggregation of UDP flows by peer. A group counts what
-- its members count, and the counts that members had before they were reset or expired.
pub mod Totals
use qiftop.Common.{
  ℕ, ◌+◌, ◌-◌, Bool, true, false, not, ◌||◌, List, [], ◌∷◌, ◌++◌, Option, none, some, ltb,
  if◌then◌else◌, ◌==◌, nat_eq, list_eq, map,
}
use qiftop.Containers.Map.{Map, find, find_or, contains, put}
use qiftop.Flow.Types.{Text, udp, proto_eq, Direction, outbound, direction_eq, Endpoint, Connection}
use qiftop.Flow.Key.{KeyText, connection_key}
use qiftop.Attribution.Request.{add64}

pub record UdpAggMember : Type 0 where
  pub rx_bytes : ℕ
  pub tx_bytes : ℕ
  pub rx_packets : ℕ
  pub tx_packets : ℕ
  pub last_seen_ms : ℕ

abbrev pub no_member : UdpAggMember
no_member = record { rx_bytes = 0; tx_bytes = 0; rx_packets = 0; tx_packets = 0; last_seen_ms = 0 }

pub record UdpAggState : Type 0 where
  pub rx_base : ℕ
  pub tx_base : ℕ
  pub rx_pkt_base : ℕ
  pub tx_pkt_base : ℕ
  pub members : Map Text UdpAggMember
  pub last_seen_ms : ℕ

abbrev pub no_state : UdpAggState
no_state = record {
  rx_base = 0;
  tx_base = 0;
  rx_pkt_base = 0;
  tx_pkt_base = 0;
  members = [];
  last_seen_ms = 0;
}

-- The counts of a member go over to the base of its group.
abbrev pub add_base : UdpAggState → UdpAggMember → UdpAggState
add_base st m = record st {
  rx_base = add64 st.rx_base m.rx_bytes;
  tx_base = add64 st.tx_base m.tx_bytes;
  rx_pkt_base = add64 st.rx_pkt_base m.rx_packets;
  tx_pkt_base = add64 st.tx_pkt_base m.tx_packets;
}

-- `c.rxBytes < mem.rxBytes || c.txBytes < mem.txBytes`
abbrev pub is_reset : UdpAggMember → Connection → Bool
is_reset m c = ltb c.rx_bytes m.rx_bytes || ltb c.tx_bytes m.tx_bytes

-- A member's counters, as they are observed at `now`.
pub observe : UdpAggState → Text → Connection → ℕ → UdpAggState
observe st member_key c now =
    let mem = find_or no_member member_key st.members in
    let st' = if is_reset mem c then add_base st mem else st in
    let mem' : UdpAggMember = record {
      rx_bytes = c.rx_bytes;
      tx_bytes = c.tx_bytes;
      rx_packets = c.rx_packets;
      tx_packets = c.tx_packets;
      last_seen_ms = now;
    } in
    record st' { members = put member_key mem' st.members; last_seen_ms = now }

-- `nowMs - lastSeenMs > m_staleRetentionMsUdp`
abbrev pub is_over : ℕ → ℕ → ℕ → Bool
is_over now last_seen retention = ltb retention (now - last_seen)

-- The loop over the members: those that expire are moved to the base.
pub expire_members : ℕ → ℕ → UdpAggState → Map Text UdpAggMember → UdpAggState
expire_members now retention st [] = record st { members = [] }
expire_members now retention st ((k, m) ∷ ms) =
    let old = is_over now m.last_seen_ms retention in
    let rest = expire_members now retention (if old then add_base st m else st) ms in
    record rest { members = if old then rest.members else (k, m) ∷ rest.members }

-- The loop over the groups.
pub expire_groups : ℕ → ℕ → Map Text UdpAggState → Map Text UdpAggState
unfolding expire_members
expire_groups now retention [] = []
expire_groups now retention ((k, st) ∷ groups) =
    if is_over now st.last_seen_ms retention
    then expire_groups now retention groups
    else (k, expire_members now retention st st.members) ∷ expire_groups now retention groups

-- The sum over the members, onto a base.
pub sum_members : (UdpAggMember → ℕ) → ℕ → Map Text UdpAggMember → ℕ
sum_members f acc [] = acc
sum_members f acc ((k, m) ∷ ms) = sum_members f (add64 acc (f m)) ms

abbrev pub rx_total : UdpAggState → ℕ
rx_total st = sum_members (λ m. m.rx_bytes) st.rx_base st.members

abbrev pub tx_total : UdpAggState → ℕ
tx_total st = sum_members (λ m. m.tx_bytes) st.tx_base st.members

-- The row of a group, without its ephemeral port.
pub group_of : Connection → Connection
group_of c =
    if c.direction == outbound
    then record c { local = record { address = c.local.address; port = 0 } }
    else record c { remote = record { address = c.remote.address; port = 0 } }

-- What the loop over the flows builds up.
pub record Grouping : Type 0 where
  pub udp_agg : Map Text UdpAggState
  pub agg : Map Text Connection
  pub passthrough : List Connection

pub group_flow : KeyText → ℕ → Grouping → Connection → Grouping
unfolding observe group_of
group_flow q now g c =
    let k = group_of c in
    let agg_key = connection_key q k in
    let st = observe (find_or no_state agg_key g.udp_agg) (connection_key q c) c now in
    if not (c.proto == udp) || c.direction == Direction.unknown
    then record g { passthrough = g.passthrough ++ c ∷ [] }
    else record g {
      udp_agg = put agg_key st g.udp_agg;
      agg = if contains agg_key g.agg then g.agg else put agg_key k g.agg;
    }

pub group_flows : KeyText → ℕ → Grouping → List Connection → Grouping
unfolding group_flow
group_flows q now g [] = g
group_flows q now g (c ∷ cs) = group_flows q now (group_flow q now g c) cs

-- The counts of a group's row.
pub with_totals : Option UdpAggState → Connection → Connection
unfolding sum_members
with_totals none c = c
with_totals (some st) c = record c {
  rx_bytes = rx_total st;
  tx_bytes = tx_total st;
  rx_packets = sum_members (λ m. m.rx_packets) st.rx_pkt_base st.members;
  tx_packets = sum_members (λ m. m.tx_packets) st.tx_pkt_base st.members;
}

-- The groups after a snapshot, and the flows with the groups' rows in place of their members.
unfoldable pub aggregate_udp :
    KeyText
    → ℕ
    → ℕ
    → Map Text UdpAggState
    → List Connection
    → Map Text UdpAggState × List Connection
unfolding group_flows expire_groups with_totals
aggregate_udp q now retention udp_agg connections =
    let g =
      group_flows q now (record { udp_agg = udp_agg; agg = []; passthrough = [] }) connections in
    let kept = expire_groups now retention g.udp_agg in
    (kept, g.passthrough ++ map (λ e. with_totals (find e.0 kept) e.1) g.agg)
