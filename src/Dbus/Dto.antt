-- ===== src/Dbus/Dto.antt =====
-- src/dbus/Types.h and Types.cpp: the flat records of the wire, and the flows that are sent and
-- received as them. QHostAddress::toString and QHostAddress(QString) are parameters.
pub mod Trip
use qiftop.Common.{
  ℕ, zero, suc, ◌^◌, ◌<◌, ◌≡◌, refl, ap, Bool, true, List, [], ◌∷◌, map, arith, take, if◌then◌else◌,
  ◌==◌, nat_eq, ltb,
}
use qiftop.Flow.Types.{
  Text, Address, Direction, outbound, inbound, direction_number, TcpState, syn_sent, syn_recv,
  established, fin_wait, close_wait, last_ack, time_wait, close, syn_sent2, AttributionReason,
  resolved, no_local_socket, orphaned, forwarded, ContainerInfo, Connection,
}
use qiftop.Flow.Wire.{to_iana_proto, from_iana_proto, from_iana_proto-to_iana_proto}

-- QHostAddress: its text, the address of a text, and whether it is of IPv6.
pub record HostText : Type 0 where
  pub to_text : Address → Text
  pub of_text : Text → Address
  pub is_ipv6 : Address → Bool

pub record ContainerInfoDto : Type 0 where
  pub runtime : Text
  pub id : Text
  pub name : Text

pub record ConnectionDto : Type 0 where
  pub proto : ℕ
  pub local_family : ℕ
  pub local_address : Text
  pub local_port : ℕ
  pub remote_family : ℕ
  pub remote_address : Text
  pub remote_port : ℕ
  pub rx_bytes : ℕ
  pub tx_bytes : ℕ
  pub rx_packets : ℕ
  pub tx_packets : ℕ
  pub iface : Text
  pub direction : ℕ
  pub if_index : ℕ
  pub tcp_state : ℕ
  pub pid : ℕ
  pub uid : ℕ
  pub comm : Text
  pub container_runtime : Text
  pub container_id : Text
  pub container_name : Text
  pub container_chain : List ContainerInfoDto
  pub reason : ℕ

abbrev pub max_container_chain_depth : ℕ
max_container_chain_depth = 16

-- The enumerators' values, `quint8(c.tcpState)` and `quint8(c.reason)`.
pub tcp_state_number : TcpState → ℕ
tcp_state_number TcpState.none = 0
tcp_state_number syn_sent = 1
tcp_state_number syn_recv = 2
tcp_state_number established = 3
tcp_state_number fin_wait = 4
tcp_state_number close_wait = 5
tcp_state_number last_ack = 6
tcp_state_number time_wait = 7
tcp_state_number close = 8
tcp_state_number syn_sent2 = 9

pub reason_number : AttributionReason → ℕ
reason_number resolved = 0
reason_number no_local_socket = 1
reason_number orphaned = 2
reason_number forwarded = 3

-- The casts back, with what is out of range clamped.
pub direction_of_number : ℕ → Direction
direction_of_number n = if n == 1 then outbound else if n == 2 then inbound else Direction.unknown

pub tcp_state_of_number : ℕ → TcpState
tcp_state_of_number n =
    if n == 1
    then syn_sent
    else if n == 2
    then syn_recv
    else if n == 3
    then established
    else if n == 4
    then fin_wait
    else if n == 5
    then close_wait
    else if n == 6
    then last_ack
    else if n == 7
    then time_wait
    else if n == 8
    then close
    else if n == 9
    then syn_sent2
    else TcpState.none

pub reason_of_number : ℕ → AttributionReason
reason_of_number n =
    if n == 0
    then resolved
    else if n == 2
    then orphaned
    else if n == 3
    then forwarded
    else no_local_socket

pub container_to_dto : ContainerInfo → ContainerInfoDto
container_to_dto ci = record { runtime = ci.runtime; id = ci.id; name = ci.name }

pub container_from_dto : ContainerInfoDto → ContainerInfo
container_from_dto ci = record { runtime = ci.runtime; id = ci.id; name = ci.name }

abbrev family : HostText → Address → ℕ
family q a = if q.is_ipv6 a then 6 else 4

unfoldable pub to_dto : HostText → Connection → ConnectionDto
unfolding tcp_state_number reason_number container_to_dto
to_dto q c = record {
  proto = to_iana_proto c.proto;
  local_family = family q c.local.address;
  local_address = q.to_text c.local.address;
  local_port = c.local.port;
  remote_family = family q c.remote.address;
  remote_address = q.to_text c.remote.address;
  remote_port = c.remote.port;
  rx_bytes = c.rx_bytes;
  tx_bytes = c.tx_bytes;
  rx_packets = c.rx_packets;
  tx_packets = c.tx_packets;
  iface = c.iface;
  direction = direction_number c.direction;
  if_index = c.if_index;
  tcp_state = tcp_state_number c.tcp_state;
  pid = c.process.pid;
  uid = c.process.uid;
  comm = c.process.comm;
  container_runtime = c.container.runtime;
  container_id = c.container.id;
  container_name = c.container.name;
  container_chain = map container_to_dto c.container_chain;
  reason = reason_number c.reason;
}

pub from_dto : HostText → ConnectionDto → Connection
unfolding direction_of_number tcp_state_of_number reason_of_number container_from_dto
from_dto q d = record {
  local = record { address = q.of_text d.local_address; port = d.local_port };
  remote = record { address = q.of_text d.remote_address; port = d.remote_port };
  proto = from_iana_proto d.proto;
  rx_bytes = d.rx_bytes;
  tx_bytes = d.tx_bytes;
  rx_packets = d.rx_packets;
  tx_packets = d.tx_packets;
  iface = d.iface;
  if_index = d.if_index;
  direction = direction_of_number d.direction;
  tcp_state = tcp_state_of_number d.tcp_state;
  reason = reason_of_number d.reason;
  process = record {
    pid = if ltb d.pid (2 ^ 31) then d.pid else 0;
    comm = d.comm;
    cmdline = [];
    exe = [];
    uid = d.uid;
  };
  container = record {
    runtime = d.container_runtime;
    id = d.container_id;
    name = d.container_name;
  };
  container_chain = map container_from_dto (take max_container_chain_depth d.container_chain);
}

unfoldable pub to_dtos : HostText → List Connection → List ConnectionDto
unfolding to_dto
to_dtos q list = map (to_dto q) list

pub from_dtos : HostText → List ConnectionDto → List Connection
unfolding from_dto
from_dtos q list = map (from_dto q) list

-- What the bus does not carry is gone, and so is a chain's tail.
abbrev pub as_received : Connection → Connection
as_received c = record c {
  process = record c.process { cmdline = []; exe = [] };
  container_chain = take max_container_chain_depth c.container_chain;
}
