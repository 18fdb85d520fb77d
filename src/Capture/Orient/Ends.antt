-- ===== src/Capture/Orient/Ends.antt =====
-- What orientConntrackFlow of src/backend/linux/ConntrackOrient.h keeps of an entry, and which end it
-- takes for the local one.
use mathlib.Core.List.{Perm}
use mathlib.Core.List.Perm
use qiftop.Common.{
  ℕ, ◌≡◌, ◌⊎◌, refl, inl, inr, true, false, not, ◌&&◌, ◌||◌, List, [], ◌∷◌, arith, Bool-cases,
}
use qiftop.Flow.Types.{Address, Endpoint, Connection}
use qiftop.Flow.Heuristics.{mem, is_ours, is_forwarded_flow}
use qiftop.Capture.Orient.{Entry, orient}

-- What one end sent to the other.
pub record Transfer : Type 0 where
  pub sender : Endpoint
  pub receiver : Endpoint
  pub bytes : ℕ
  pub packets : ℕ

-- The two directions that an entry counts: the original and the reply.
abbrev pub counted : Entry → List Transfer
counted e =
    record { sender = e.src; receiver = e.dst; bytes = e.orig_bytes; packets = e.orig_packets }
    ∷ record { sender = e.dst; receiver = e.src; bytes = e.repl_bytes; packets = e.repl_packets }
    ∷ []

-- The two directions of a flow: what the local end sent and what it received.
abbrev pub carried : Connection → List Transfer
carried c =
    record { sender = c.local; receiver = c.remote; bytes = c.tx_bytes; packets = c.tx_packets }
    ∷ record { sender = c.remote; receiver = c.local; bytes = c.rx_bytes; packets = c.rx_packets }
    ∷ []

orient_ends :
    (e : Entry) (local_addrs : List Address)
    → let c = orient e local_addrs in
      let src = mem e.src.address local_addrs in
      let dst = mem e.dst.address local_addrs in
      Perm (carried c) (counted e)
      × (mem c.local.address local_addrs ≡ (src || dst))
      × (mem c.remote.address local_addrs ≡ (src && dst))
      × ((c.local ≡ e.src) ⊎ ((src ≡ false) × (dst ≡ true)))
unfolding orient
orient_ends e local_addrs = elim (Bool-cases (mem e.src.address local_addrs)) [
  | inl ours ↦ rw ours (Perm.refl (counted e), ours, refl, inl refl)
  | inr foreign ↦ elim (Bool-cases (mem e.dst.address local_addrs)) [
    | inl ours ↦ rw (foreign, ours) (Perm.swap _ _ [], ours, foreign, inr (refl, refl))
    | inr neither ↦ rw (foreign, neither) (Perm.refl (counted e), foreign, neither, inl refl)
  ]
]

is_forwarded_flow-orient :
    (e : Entry) (local_addrs loopback_addrs : List Address)
    → is_forwarded_flow (orient e local_addrs) local_addrs loopback_addrs ≡ (
        not (is_ours local_addrs loopback_addrs e.src.address)
        && not (is_ours local_addrs loopback_addrs e.dst.address))
unfolding orient is_forwarded_flow is_ours
is_forwarded_flow-orient e local_addrs loopback_addrs = ground arith

-- An oriented entry tells the same two transfers as the entry, who sent to whom and how much; its
-- local end is an address of this host if either end is, and its remote end only if both are; the
-- source is the local end unless the destination alone is an address of this host; and it counts
-- as forwarded exactly if neither end of the entry is of this host or a loopback address.
pub orient-is_forwarded_flow :
    (e : Entry) (local_addrs loopback_addrs : List Address)
    → let c = orient e local_addrs in
      let src = mem e.src.address local_addrs in
      let dst = mem e.dst.address local_addrs in
      Perm (carried c) (counted e)
      × (mem c.local.address local_addrs ≡ (src || dst))
      × (mem c.remote.address local_addrs ≡ (src && dst))
      × ((c.local ≡ e.src) ⊎ ((src ≡ false) × (dst ≡ true)))
      × (is_forwarded_flow c local_addrs loopback_addrs ≡ (
          not (is_ours local_addrs loopback_addrs e.src.address)
          && not (is_ours local_addrs loopback_addrs e.dst.address)))
orient-is_forwarded_flow e local_addrs loopback_addrs =
    let (kept, local_end, remote_end, source) = orient_ends e local_addrs in
    (kept, local_end, remote_end, source, is_forwarded_flow-orient e local_addrs loopback_addrs)
