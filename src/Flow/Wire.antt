-- ===== src/Flow/Wire.antt =====
-- src/backend/Connection.h: the IANA numbers and the names of the enumerators.
use Prim.Native.Char.{code}
use Prim.Native.String.{String}
use qiftop.Common.{ℕ, ◌≡◌, refl, [], ◌∷◌, arith, if◌then◌else◌, ◌==◌, ◌||◌, nat_eq}
use qiftop.Flow.Types.{
  Text, L4Proto, tcp, udp, icmp, icmp_v6, TcpState, syn_sent, syn_recv, established, fin_wait,
  close_wait, last_ack, time_wait, close, syn_sent2, AttributionReason, resolved, no_local_socket,
  orphaned, forwarded,
}

-- A QStringLiteral.
abbrev pub utf16 : String → Text
utf16 (String.◌∷◌ letter letters) = code letter ∷ utf16 letters
utf16 String.[] = []

pub to_iana_proto : L4Proto → ℕ
to_iana_proto tcp = 6
to_iana_proto udp = 17
to_iana_proto icmp = 1
to_iana_proto icmp_v6 = 58
to_iana_proto L4Proto.unknown = 0

pub from_iana_proto : ℕ → L4Proto
from_iana_proto n =
    if n == 6
    then tcp
    else if n == 17
    then udp
    else if n == 1
    then icmp
    else if n == 58
    then icmp_v6
    else L4Proto.unknown

unfoldable pub tcp_state_to_string : TcpState → Text
tcp_state_to_string TcpState.none = []
tcp_state_to_string syn_sent = utf16 "SYN_SENT"
tcp_state_to_string syn_recv = utf16 "SYN_RECV"
tcp_state_to_string established = utf16 "ESTABLISHED"
tcp_state_to_string fin_wait = utf16 "FIN_WAIT"
tcp_state_to_string close_wait = utf16 "CLOSE_WAIT"
tcp_state_to_string last_ack = utf16 "LAST_ACK"
tcp_state_to_string time_wait = utf16 "TIME_WAIT"
tcp_state_to_string close = utf16 "CLOSE"
tcp_state_to_string syn_sent2 = utf16 "SYN_SENT2"

unfoldable pub attribution_reason_to_string : AttributionReason → Text
attribution_reason_to_string resolved = utf16 "resolved"
attribution_reason_to_string no_local_socket = utf16 "nosocket"
attribution_reason_to_string orphaned = utf16 "orphaned"
attribution_reason_to_string forwarded = utf16 "forwarded"

unfoldable pub l4_proto_to_string : L4Proto → Text
l4_proto_to_string tcp = utf16 "TCP"
l4_proto_to_string udp = utf16 "UDP"
l4_proto_to_string icmp = utf16 "ICMP"
l4_proto_to_string icmp_v6 = utf16 "ICMPv6"
l4_proto_to_string L4Proto.unknown = utf16 "?"

-- Every protocol is read back from its number; a number that is read and written again stays as it
-- is if it is one of 6, 17, 1 and 58, and any other becomes 0.
pub from_iana_proto-to_iana_proto :
    (p : L4Proto) (n : ℕ)
    → (from_iana_proto (to_iana_proto p) ≡ p)
      × (to_iana_proto (from_iana_proto n)
          ≡ (if n == 6 || n == 17 || n == 1 || n == 58 then n else 0))
unfolding from_iana_proto to_iana_proto
from_iana_proto-to_iana_proto p n = (by_case p, ground arith)
  where
    by_case : (p : L4Proto) → from_iana_proto (to_iana_proto p) ≡ p
    by_case tcp = refl
    by_case _ = refl
