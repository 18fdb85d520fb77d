-- ===== src/Tests/Data.antt =====
-- Flows and requests for the tests.
use qiftop.Common.{ℕ, ◌+◌, ◌-◌, ◌*◌, ◌/◌, ltb, leb, if◌then◌else◌, ◌==◌, nat_eq, true, []}
use qiftop.Flow.Types.{
  tcp, outbound, established, no_local_socket, no_process, no_container, Connection,
}
use qiftop.Aggregate.Real.{Real}
use qiftop.Attribution.Request.{key_of, DeepAttributionRequest}

-- A TCP flow from a port of this host, address 7, to port 443 of address 9.
abbrev pub flow_of : ℕ → ℕ → Connection
flow_of port bytes = record {
  local = record { address = 7; port = port };
  remote = record { address = 9; port = 443 };
  proto = tcp;
  rx_bytes = bytes;
  tx_bytes = 1;
  rx_packets = 1;
  tx_packets = 1;
  iface = [];
  if_index = 2;
  direction = outbound;
  tcp_state = established;
  reason = no_local_socket;
  process = no_process;
  container = no_container;
  container_chain = [];
}

abbrev pub request_of : ℕ → ℕ → DeepAttributionRequest
request_of port bytes = record {
  key = key_of (flow_of port bytes);
  flow = flow_of port bytes;
  generation = 5;
  monotonic_ms_queued = 0;
  want_container_chain = true;
  attempts = 0;
}

-- Whole numbers in the place of doubles.
abbrev pub whole : Real ℕ
whole = record {
  of_nat = λ n. n;
  add = λ a b. a + b;
  sub = λ a b. a - b;
  mul = λ a b. a * b;
  div = λ a b. if b == 0 then 0 else a / b;
  lt = ltb;
  le = leb;
}
