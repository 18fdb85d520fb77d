-- ===== src/Capture/Orient.antt =====
-- src/backend/linux/ConntrackOrient.h: which end of a conntrack entry is the local one.
pub mod Ends
use qiftop.Common.{ℕ, ◌+◌, ◌≡◌, ◌≢◌, not, ◌||◌, List, [], arith, if◌then◌else◌}
use qiftop.Flow.Types.{
  Address, Endpoint, L4Proto, Direction, TcpState, resolved, no_process, no_container, Connection,
}
use qiftop.Flow.Heuristics.{mem}

-- The arguments that orientConntrackFlow takes of an entry.
pub record Entry : Type 0 where
  pub src : Endpoint
  pub dst : Endpoint
  pub proto : L4Proto
  pub orig_bytes : ℕ
  pub repl_bytes : ℕ
  pub orig_packets : ℕ
  pub repl_packets : ℕ

-- `Connection c;` with the protocol set.
abbrev pub blank : L4Proto → Connection
blank proto = record {
  local = record { address = 0; port = 0 };
  remote = record { address = 0; port = 0 };
  proto = proto;
  rx_bytes = 0;
  tx_bytes = 0;
  rx_packets = 0;
  tx_packets = 0;
  iface = [];
  if_index = 0;
  direction = Direction.unknown;
  tcp_state = TcpState.none;
  reason = resolved;
  process = no_process;
  container = no_container;
  container_chain = [];
}

-- The branch that takes the source for the local end.
abbrev as_sent : Entry → Connection
as_sent e = record (blank e.proto) {
  local = e.src;
  remote = e.dst;
  tx_bytes = e.orig_bytes;
  rx_bytes = e.repl_bytes;
  tx_packets = e.orig_packets;
  rx_packets = e.repl_packets;
}

-- The branch that takes the destination for the local end.
abbrev as_received : Entry → Connection
as_received e = record (blank e.proto) {
  local = e.dst;
  remote = e.src;
  tx_bytes = e.repl_bytes;
  rx_bytes = e.orig_bytes;
  tx_packets = e.repl_packets;
  rx_packets = e.orig_packets;
}

unfoldable pub orient : Entry → List Address → Connection
orient e local_addrs =
    if mem e.src.address local_addrs || not (mem e.dst.address local_addrs)
    then as_sent e
    else as_received e
