-- ===== src/Attribution/Request.antt =====
-- src/backend/DeepAttribution.h: the key, the requests and the results of deep attribution.
use qiftop.Common.{ℕ, ◌+◌, ◌%◌, ◌^◌, ◌≡◌, ◌↔◌, Bool, true, ◌&&◌, List, arith, Eq, ◌==◌, nat_eq}
use qiftop.Flow.Types.{
  Address, L4Proto, proto_eq, proto_beq_iff, Direction, direction_eq, direction_beq_iff, Connection,
  ProcessInfo, ContainerInfo, AttributionReason,
}

pub record AttributionFlowKey : Type 0 where
  pub proto : L4Proto
  pub local_address : Address
  pub local_port : ℕ
  pub remote_address : Address
  pub remote_port : ℕ
  pub if_index : ℕ
  pub direction : Direction

abbrev pub key_of : Connection → AttributionFlowKey
key_of c = record {
  proto = c.proto;
  local_address = c.local.address;
  local_port = c.local.port;
  remote_address = c.remote.address;
  remote_port = c.remote.port;
  if_index = c.if_index;
  direction = c.direction;
}

abbrev pub flow_key_beq : AttributionFlowKey → AttributionFlowKey → Bool
flow_key_beq a b =
    a.proto == b.proto
    && a.local_address == b.local_address
    && a.local_port == b.local_port
    && a.remote_address == b.remote_address
    && a.remote_port == b.remote_port
    && a.if_index == b.if_index
    && a.direction == b.direction

pub flow_key_beq_iff : (a b : AttributionFlowKey) → (flow_key_beq a b ≡ true) ↔ (a ≡ b)
flow_key_beq_iff a b =
    ground (arith, proto_beq_iff a.proto b.proto, direction_beq_iff a.direction b.direction)

instance abbrev pub flow_key_eq : Eq AttributionFlowKey
flow_key_eq = record { same = flow_key_beq; same_iff = flow_key_beq_iff }

pub record DeepAttributionRequest : Type 0 where
  pub key : AttributionFlowKey
  pub flow : Connection
  pub generation : ℕ
  pub monotonic_ms_queued : ℕ
  pub want_container_chain : Bool
  pub attempts : ℕ

pub record DeepAttributionUpdate : Type 0 where
  pub key : AttributionFlowKey
  pub generation : ℕ
  pub process : ProcessInfo
  pub container : ContainerInfo
  pub container_chain : List ContainerInfo
  pub reason : AttributionReason

-- quint64 addition.
abbrev pub add64 : ℕ → ℕ → ℕ
add64 a b = (a + b) % 2 ^ 64
