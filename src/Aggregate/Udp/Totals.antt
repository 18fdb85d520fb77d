-- ===== src/Aggregate/Udp/Totals.antt =====
-- The totals of a group of UDP flows, over any course of observations and expiries.
use qiftop.Common.{
  ℕ, ◌+◌, ◌-◌, ◌%◌, ◌^◌, ◌≤◌, ◌<◌, ◌≡◌, refl, inl, inr, List, [], ◌∷◌, arith, if◌then◌else◌, ◌==◌,
  nat_eq, list_eq, Bool-cases,
}
use qiftop.Containers.Map.{Map, find_or, put}
use qiftop.Flow.Types.{Text, Connection}
use qiftop.Attribution.Request.{add64}
use qiftop.Aggregate.Udp.{
  UdpAggMember, no_member, UdpAggState, add_base, is_reset, observe, is_over, expire_members,
  sum_members, rx_total, tx_total,
}

-- The sum with no wrap-around.
sum_exact : (UdpAggMember → ℕ) → Map Text UdpAggMember → ℕ
sum_exact f [] = 0
sum_exact f ((k, m) ∷ ms) = f m + sum_exact f ms

module _ (f : UdpAggMember → ℕ) where
  sum_members-mod :
      (acc : ℕ) (ms : Map Text UdpAggMember)
      → acc < 2 ^ 64
      → sum_members f acc ms ≡ (acc + sum_exact f ms) % 2 ^ 64
  unfolding sum_members sum_exact
  sum_members-mod acc [] h = omega arith
  sum_members-mod acc ((k, m) ∷ ms) h = omega (arith, sum_members-mod (add64 acc (f m)) ms)

  sum_exact-put :
      f no_member ≡ 0
      → (k : Text) (m : UdpAggMember) (ms : Map Text UdpAggMember)
      → sum_exact f (put k m ms) + f (find_or no_member k ms) ≡ sum_exact f ms + f m
  unfolding sum_exact put find_or
  sum_exact-put z k m [] = omega (arith, z)
  sum_exact-put z k m ((j, n) ∷ ms) = elim (Bool-cases (j == k)) [
    | inl hit ↦ rw (hit, sum_exact) (omega arith)
    | inr miss ↦ rw (miss, sum_exact) (omega (arith, sum_exact-put z k m ms))
  ]

  module _ (z : f no_member ≡ 0) (b : ℕ) (wide : b < 2 ^ 64) (k : Text) (m : UdpAggMember)
      (ms : Map Text UdpAggMember) where
    sum_members-reset :
        sum_members f (add64 b (f (find_or no_member k ms))) (put k m ms)
        ≡ (sum_members f b ms + f m) % 2 ^ 64
    sum_members-reset = omega (
      arith,
      sum_members-mod (add64 b (f (find_or no_member k ms))) (put k m ms),
      sum_members-mod b ms,
      sum_exact-put z k m ms,
    )

    sum_members-growth :
        f (find_or no_member k ms) ≤ f m
        → sum_members f b (put k m ms)
          ≡ (sum_members f b ms + (f m - f (find_or no_member k ms))) % 2 ^ 64
    sum_members-growth h =
        omega (arith, sum_members-mod b (put k m ms), sum_members-mod b ms, sum_exact-put z k m ms)

  -- A member in front adds its count.
  sum_members-cons :
      (k : Text) (m : UdpAggMember) (b b' : ℕ) (ms ms' : Map Text UdpAggMember)
      → b < 2 ^ 64
      → b' < 2 ^ 64
      → sum_members f b' ms' ≡ sum_members f b ms
      → sum_members f b' ((k, m) ∷ ms') ≡ sum_members f b ((k, m) ∷ ms)
  unfolding sum_exact
  sum_members-cons k m b b' ms ms' h h' e = omega (
    arith,
    sum_members-mod b ms,
    sum_members-mod b' ms',
    sum_members-mod b ((k, m) ∷ ms),
    sum_members-mod b' ((k, m) ∷ ms'),
  )

-- The bases fit their 64 bits.
pub record IsWide (st : UdpAggState) : Type 0 where
  pub rx : st.rx_base < 2 ^ 64
  pub tx : st.tx_base < 2 ^ 64

-- What a group counts anew when a member is observed: all of the counter after a reset, and its
-- growth otherwise.
abbrev pub rx_gain : UdpAggState → Text → Connection → ℕ
rx_gain st k c =
    let mem = find_or no_member k st.members in
    if is_reset mem c then c.rx_bytes else c.rx_bytes - mem.rx_bytes

abbrev pub tx_gain : UdpAggState → Text → Connection → ℕ
tx_gain st k c =
    let mem = find_or no_member k st.members in
    if is_reset mem c then c.tx_bytes else c.tx_bytes - mem.tx_bytes

-- `st'` counts `rx` and `tx` bytes more than `st`.
record Gains (st st' : UdpAggState) (rx tx : ℕ) : Type 0 where
  more_rx : rx_total st' ≡ (rx_total st + rx) % 2 ^ 64
  more_tx : tx_total st' ≡ (tx_total st + tx) % 2 ^ 64
  wide : IsWide st'

module _ (st : UdpAggState) (k : Text) (c : Connection) (now : ℕ) (w : IsWide st) where
  abbrev before : UdpAggMember
  before = find_or no_member k st.members

  abbrev after : UdpAggMember
  after = record {
    rx_bytes = c.rx_bytes;
    tx_bytes = c.tx_bytes;
    rx_packets = c.rx_packets;
    tx_packets = c.tx_packets;
    last_seen_ms = now;
  }

  observe-Gains : Gains st (observe st k c now) (rx_gain st k c) (tx_gain st k c)
  unfolding observe
  observe-Gains = elim (Bool-cases (is_reset before c)) [
    | inl again ↦
        rw (again, observe)
          (record {
            more_rx = sum_members-reset (λ m. m.rx_bytes) refl st.rx_base w.rx k after st.members;
            more_tx = sum_members-reset (λ m. m.tx_bytes) refl st.tx_base w.tx k after st.members;
            wide = record { rx = omega arith; tx = omega arith };
          })
    | inr on ↦
        rw (on, observe)
          (record {
            more_rx =
                sum_members-growth (λ m. m.rx_bytes) refl st.rx_base w.rx k after st.members
                  (ground arith);
            more_tx =
                sum_members-growth (λ m. m.tx_bytes) refl st.tx_base w.tx k after st.members
                  (ground arith);
            wide = record { rx = w.rx; tx = w.tx };
          })
  ]

-- `st'` counts what `st` does.
record SameTotals (st st' : UdpAggState) : Type 0 where
  same_rx : rx_total st' ≡ rx_total st
  same_tx : tx_total st' ≡ tx_total st
  wide : IsWide st'

expire_members-SameTotals :
    (now retention : ℕ) (st : UdpAggState) (ms : Map Text UdpAggMember)
    → IsWide st
    → SameTotals (record st { members = ms }) (expire_members now retention st ms)
unfolding expire_members sum_members
expire_members-SameTotals now retention st [] w = record {
  same_rx = refl;
  same_tx = refl;
  wide = record { rx = w.rx; tx = w.tx };
}
expire_members-SameTotals now retention st ((k, m) ∷ ms) w =
    elim (Bool-cases (is_over now m.last_seen_ms retention)) [
      | inl old ↦
          let moved =
            expire_members-SameTotals now retention (add_base st m) ms
              (record { rx = omega arith; tx = omega arith }) in
          rw (old, expire_members)
            (record {
              same_rx = moved.same_rx;
              same_tx = moved.same_tx;
              wide = record { rx = moved.wide.rx; tx = moved.wide.tx };
            })
      | inr fresh ↦
          let rest = expire_members now retention st ms in
          let ih = expire_members-SameTotals now retention st ms w in
          rw (fresh, expire_members)
            (record {
              same_rx =
                  sum_members-cons (λ m. m.rx_bytes) k m _ _ ms rest.members w.rx ih.wide.rx
                    ih.same_rx;
              same_tx =
                  sum_members-cons (λ m. m.tx_bytes) k m _ _ ms rest.members w.tx ih.wide.tx
                    ih.same_tx;
              wide = record { rx = ih.wide.rx; tx = ih.wide.tx };
            })
    ]

-- What happens to a group: a member is observed, or the members that are not seen any more expire.
pub data Event : Type 0 where
  observes : Text → Connection → ℕ → Event
  expires : ℕ → ℕ → Event

pub happens : UdpAggState → Event → UdpAggState
happens st (observes k c now) = observe st k c now
happens st (expires now retention) = expire_members now retention st st.members

pub course : UdpAggState → List Event → UdpAggState
unfolding happens
course st [] = st
course st (e ∷ es) = course (happens st e) es

-- The bytes counted anew in the course of the events.
pub rx_gains : UdpAggState → List Event → ℕ
rx_gains st [] = 0
rx_gains st (observes k c now ∷ es) = rx_gain st k c + rx_gains (happens st (observes k c now)) es
rx_gains st (expires now retention ∷ es) = rx_gains (happens st (expires now retention)) es

pub tx_gains : UdpAggState → List Event → ℕ
tx_gains st [] = 0
tx_gains st (observes k c now ∷ es) = tx_gain st k c + tx_gains (happens st (observes k c now)) es
tx_gains st (expires now retention ∷ es) = tx_gains (happens st (expires now retention)) es

-- If its bases fit 64 bits, the byte totals of a group grow, modulo 2 ^ 64, by just what its
-- members count anew, in whatever order members are observed, start again from a lower count, and
-- expire.
pub course-total :
    (es : List Event) (st : UdpAggState)
    → IsWide st
    → (rx_total (course st es) % 2 ^ 64 ≡ (rx_total st + rx_gains st es) % 2 ^ 64)
      × (tx_total (course st es) % 2 ^ 64 ≡ (tx_total st + tx_gains st es) % 2 ^ 64)
unfolding course rx_gains tx_gains
course-total [] st w = (omega arith, omega arith)
course-total (observes k c now ∷ es) st w =
    let g = observe-Gains st k c now w in
    let ih = course-total es (observe st k c now) g.wide in
    (omega (arith, g.more_rx, ih.0), omega (arith, g.more_tx, ih.1))
course-total (expires now retention ∷ es) st w =
    let e = expire_members-SameTotals now retention st st.members w in
    let ih = course-total es (expire_members now retention st st.members) e.wide in
    (omega (arith, e.same_rx, ih.0), omega (arith, e.same_tx, ih.1))
