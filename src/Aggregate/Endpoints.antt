-- ===== src/Aggregate/Endpoints.antt =====
-- src/aggregate/ConnectionAggregator.cpp: the texts of endpoints and flows, for display and for the clipboard.
pub mod Distinct
use qiftop.Common.{
  ℕ, ◌≡◌, Bool, true, false, not, ◌&&◌, ◌||◌, List, [], ◌∷◌, ◌++◌, Option, none, some,
  if◌then◌else◌, Eq, ◌==◌, nat_eq, list_eq,
}
use qiftop.Flow.Types.{
  Text, Address, Endpoint, Connection, is_empty, tcp, udp, proto_eq, Direction, inbound,
  direction_eq,
}
use qiftop.Flow.Wire.{utf16, l4_proto_to_string}
use qiftop.Flow.Heuristics.{mem}

-- QHostAddress::toString, protocol and isNull, and QString::number.
pub record AddressText : Type 0 where
  pub decimal : ℕ → Text
  pub address_text : Address → Text
  pub is_ipv6 : Address → Bool
  pub is_null : Address → Bool

-- What the texts depend on; the resolver is DnsResolver::cachedName.
pub record View : Type 0 where
  pub resolve_enabled : Bool
  pub resolver : Option (Address → Text)
  pub alias_iface_addrs_as_localhost : Bool
  pub local_addrs : List Address
  pub loopback_addrs : List Address

pub data FlowEnd : Type 0 where
  source destination : FlowEnd

unfoldable pub cached_name : Option (Address → Text) → Address → Text
cached_name none addr = []
cached_name (some names) addr = names addr

-- `cachedHostname`
unfoldable pub cached_hostname : View → Address → Text
unfolding cached_name
cached_hostname v addr = if v.resolve_enabled then cached_name v.resolver addr else []

unfoldable pub display_host : AddressText → View → Address → Text
unfolding cached_name
display_host q v addr =
    let cached = cached_name v.resolver addr in
    if v.resolve_enabled
    then if mem addr v.loopback_addrs
        || (v.alias_iface_addrs_as_localhost && mem addr v.local_addrs)
      then utf16 "localhost"
      else if not (is_empty cached)
      then cached
      else q.address_text addr
    else q.address_text addr

unfoldable pub proto_label : AddressText → View → Connection → Text
proto_label q v c =
    let base = l4_proto_to_string c.proto in
    let v6 = q.is_ipv6 c.local.address || q.is_ipv6 c.remote.address in
    if v.resolve_enabled && (c.proto == tcp || c.proto == udp)
    then base ++ (if v6 then utf16 "v6" else utf16 "v4")
    else base

unfoldable pub port_text : AddressText → ℕ → Text
port_text q port = if port == 0 then utf16 "*" else q.decimal port

-- `"[%1]:%2"` for a numeric host of IPv6, and `"%1:%2"` for any other.
unfoldable pub host_and_port : AddressText → Endpoint → Text → Text
unfolding port_text
host_and_port q ep host =
    let port = port_text q ep.port in
    if q.is_ipv6 ep.address && host == q.address_text ep.address
    then (b'[' ∷ (host ++ b']' ∷ [])) ++ (b':' ∷ port)
    else host ++ (b':' ∷ port)

unfoldable pub endpoint_text : AddressText → View → Endpoint → Text
unfolding display_host host_and_port
endpoint_text q v ep = host_and_port q ep (display_host q v ep.address)

unfoldable pub endpoint_copy_text : AddressText → View → Endpoint → Text
unfolding display_host host_and_port
endpoint_copy_text q v ep =
    if v.resolve_enabled && mem ep.address v.local_addrs
    then host_and_port q ep (q.address_text ep.address)
    else host_and_port q ep (display_host q v ep.address)

-- The end of a flow that is its source, or its destination.
unfoldable pub end_of : Connection → FlowEnd → Endpoint
end_of c source = if not (c.direction == inbound) then c.local else c.remote
end_of c destination = if not (c.direction == inbound) then c.remote else c.local

-- A row that is out of range has no text.
unfoldable pub copy_text_for_endpoint : AddressText → View → Option Connection → FlowEnd → Text
unfolding endpoint_copy_text end_of
copy_text_for_endpoint q v none which = []
copy_text_for_endpoint q v (some c) which = endpoint_copy_text q v (end_of c which)

unfoldable pub copy_text_for_flow : AddressText → View → Option Connection → Text
unfolding copy_text_for_endpoint proto_label
copy_text_for_flow q v none = []
copy_text_for_flow q v (some c) =
    let iface = if is_empty c.iface then [] else utf16 " [" ++ (c.iface ++ utf16 "]") in
    let src = copy_text_for_endpoint q v (some c) source in
    let dst = copy_text_for_endpoint q v (some c) destination in
    proto_label q v c ++ (utf16 "  " ++ (src ++ (utf16 " → " ++ (dst ++ iface))))

unfoldable pub peer_address_text : AddressText → Option Connection → Text
peer_address_text q none = []
peer_address_text q (some c) =
    let peer = if c.direction == inbound then c.local else c.remote in
    if q.is_null peer.address then [] else q.address_text peer.address
