-- ===== src/Dbus/Dto/Trip.antt =====
-- A flow that is sent and received.
use qiftop.Common.{
  ℕ, zero, suc, ◌^◌, ◌<◌, ◌≡◌, refl, ap, true, List, [], ◌∷◌, map, arith, take, nat_eq, ltb,
}
use qiftop.Flow.Types.{
  Direction, outbound, inbound, direction_number, TcpState, AttributionReason, resolved,
  ContainerInfo, Connection,
}
use qiftop.Flow.Wire.{from_iana_proto-to_iana_proto}
use qiftop.Dbus.Dto.{
  HostText, max_container_chain_depth, tcp_state_number, reason_number, direction_of_number,
  tcp_state_of_number, reason_of_number, container_to_dto, container_from_dto, to_dto, from_dto,
  as_received,
}

direction_of_number-direction_number :
    (x : Direction) → direction_of_number (direction_number x) ≡ x
unfolding direction_of_number
direction_of_number-direction_number Direction.unknown = refl
direction_of_number-direction_number outbound = refl
direction_of_number-direction_number inbound = refl

tcp_state_of_number-tcp_state_number : (x : TcpState) → tcp_state_of_number (tcp_state_number x) ≡ x
unfolding tcp_state_of_number tcp_state_number
tcp_state_of_number-tcp_state_number TcpState.none = refl
tcp_state_of_number-tcp_state_number _ = refl

reason_of_number-reason_number : (x : AttributionReason) → reason_of_number (reason_number x) ≡ x
unfolding reason_of_number reason_number
reason_of_number-reason_number resolved = refl
reason_of_number-reason_number _ = refl

chain_received :
    (n : ℕ) (chain : List ContainerInfo)
    → map container_from_dto (take n (map container_to_dto chain)) ≡ take n chain
unfolding container_from_dto container_to_dto
chain_received zero chain = refl
chain_received (suc n) [] = refl
chain_received (suc n) (ci ∷ chain) = ap (◌∷◌ ci) (chain_received n chain)

-- A flow that is sent and received is the same but for the command line, the path of the program,
-- and the part of its chain of containers behind the sixteenth, given that its pid fits a qint32
-- and that the texts of its addresses are read back as they are.
pub from_dto-to_dto :
    (q : HostText) (c : Connection)
    → q.of_text (q.to_text c.local.address) ≡ c.local.address
    → q.of_text (q.to_text c.remote.address) ≡ c.remote.address
    → c.process.pid < 2 ^ 31
    → from_dto q (to_dto q c) ≡ as_received c
unfolding from_dto to_dto
from_dto-to_dto q c local remote fits =
    let small : ltb c.process.pid (2 ^ 31) ≡ true = ground arith in
    let proto = (from_iana_proto-to_iana_proto c.proto 0).0 in
    rw
      (
        local,
        remote,
        small,
        proto,
        direction_of_number-direction_number c.direction,
        tcp_state_of_number-tcp_state_number c.tcp_state,
        reason_of_number-reason_number c.reason,
        chain_received max_container_chain_depth c.container_chain,
      )
      refl
