-- ===== src/Flow/Heuristics.antt =====
-- src/util/ConnectionHeuristics.h: forwarding, the reason for a missing attribution, and the
-- direction of a flow. A QSet of addresses is a list; only membership is used.
use qiftop.Common.{
  ℕ, ◌<◌, ◌≡◌, ◌↔◌, Bool, true, false, not, ◌&&◌, ◌||◌, List, [], ◌∷◌, arith, ltb, leb,
  if◌then◌else◌, ◌==◌, nat_eq,
}
use qiftop.Flow.Types.{
  Address, tcp, udp, proto_eq, proto_beq_iff, Direction, outbound, inbound, TcpState, fin_wait,
  close_wait, last_ack, time_wait, close, AttributionReason, resolved, no_local_socket, orphaned,
  forwarded, Connection,
}

-- QSet::contains
unfoldable pub mem : Address → List Address → Bool
mem a [] = false
mem a (x ∷ xs) = x == a || mem a xs

-- The lambda `isOurs`.
unfoldable pub is_ours : List Address → List Address → Address → Bool
is_ours local_addrs loopback_addrs a = mem a loopback_addrs || mem a local_addrs

unfoldable pub is_forwarded_flow : Connection → List Address → List Address → Bool
unfolding is_ours
is_forwarded_flow c local_addrs loopback_addrs =
    not (is_ours local_addrs loopback_addrs c.local.address)
    && not (is_ours local_addrs loopback_addrs c.remote.address)

-- The inner switch: the states in which the owning socket is gone.
pub is_teardown : TcpState → Bool
is_teardown fin_wait = true
is_teardown close_wait = true
is_teardown last_ack = true
is_teardown time_wait = true
is_teardown close = true
is_teardown _ = false

unfoldable pub attribution_reason : Connection → List Address → List Address → AttributionReason
unfolding is_teardown
attribution_reason c local_addrs loopback_addrs =
    if ltb 0 c.process.pid
    then resolved
    else if is_forwarded_flow c local_addrs loopback_addrs
    then forwarded
    else if c.proto == tcp && is_teardown c.tcp_state
    then orphaned
    else no_local_socket

-- `port >= ephemeralLow && port <= ephemeralHigh`
unfoldable pub is_ephemeral : ℕ → ℕ → ℕ → Bool
is_ephemeral low high port = leb low port && leb port high

-- `localAddrs.contains(a) || loopbackAddrs.contains(a)`
unfoldable pub is_local : List Address → List Address → Address → Bool
is_local local_addrs loopback_addrs a = mem a local_addrs || mem a loopback_addrs

-- The four returns, from the tests on the two ends.
pub direction_of : Bool → Bool → Bool → Bool → Direction
direction_of l_eph r_eph l_local r_local =
    if l_eph && not r_eph
    then outbound
    else if r_eph && not l_eph
    then inbound
    else if l_local && not r_local
    then outbound
    else if r_local && not l_local
    then inbound
    else Direction.unknown

unfoldable pub infer_direction : Connection → List Address → List Address → ℕ → ℕ → Direction
unfolding direction_of
infer_direction c local_addrs loopback_addrs low high =
    if not (c.proto == tcp) && not (c.proto == udp)
    then Direction.unknown
    else direction_of (is_ephemeral low high c.local.port) (is_ephemeral low high c.remote.port)
        (is_local local_addrs loopback_addrs c.local.address)
        (is_local local_addrs loopback_addrs c.remote.address)

-- The flow as the other end sees it.
abbrev pub swap_ends : Connection → Connection
swap_ends c = record c { local = c.remote; remote = c.local }

abbrev pub opposite : Direction → Direction
opposite Direction.unknown = Direction.unknown
opposite outbound = inbound
opposite inbound = outbound

-- Exchanging the two ends of a flow reverses the direction that is inferred for it.
pub infer_direction-swap_ends :
    (c : Connection) (local_addrs loopback_addrs : List Address) (low high : ℕ)
    → infer_direction (swap_ends c) local_addrs loopback_addrs low high
      ≡ opposite (infer_direction c local_addrs loopback_addrs low high)
unfolding infer_direction
infer_direction-swap_ends c local_addrs loopback_addrs low high = ground arith

-- The direction of a forwarded flow is the one that is inferred with no address of this host at
-- all.
pub infer_direction-is_forwarded_flow :
    (c : Connection) (local_addrs loopback_addrs : List Address) (low high : ℕ)
    → is_forwarded_flow c local_addrs loopback_addrs ≡ true
    → infer_direction c local_addrs loopback_addrs low high ≡ infer_direction c [] [] low high
unfolding infer_direction is_forwarded_flow is_local mem
infer_direction-is_forwarded_flow c local_addrs loopback_addrs low high h = ground arith

-- The reason is resolved exactly for a flow with a process, forwarded exactly for an unattributed
-- flow between two foreign addresses, and orphaned exactly for an unattributed TCP flow of this
-- host in a teardown state.
pub attribution_reason_cases :
    (c : Connection) (local_addrs loopback_addrs : List Address)
    → let r = attribution_reason c local_addrs loopback_addrs in
      let foreign = is_forwarded_flow c local_addrs loopback_addrs in
      ((r ≡ resolved) ↔ (0 < c.process.pid))
      × ((r ≡ forwarded) ↔ ((c.process.pid ≡ 0) × (foreign ≡ true)))
      × ((r ≡ orphaned) ↔ (
          (c.process.pid ≡ 0)
          × (foreign ≡ false)
          × (c.proto ≡ tcp)
          × (is_teardown c.tcp_state ≡ true)))
unfolding attribution_reason
attribution_reason_cases c local_addrs loopback_addrs =
    let is_tcp = proto_beq_iff c.proto tcp in
    (
      ((λ h. ground arith), (λ h. ground arith)),
      ((λ h. ground arith), (λ h. ground arith)),
      ((λ h. ground arith), (λ h. ground arith)),
    )
