-- ===== src/Aggregate/Interfaces.antt =====
-- src/aggregate/InterfaceAggregator.cpp: the rates of interfaces, and src/backend/NetworkMonitor.h: InterfaceStats.
-- std::ranges::sort leaves the order of interfaces with one name open; here it is that of the list.
pub mod Order
pub mod Rebuild
use qiftop.Common.{
  ℕ, ◌+◌, ◌-◌, Bool, true, false, not, ◌||◌, List, [], ◌∷◌, Option, none, some, ltb, leb,
  if◌then◌else◌, ◌==◌, nat_eq, list_eq, length, map,
}
use qiftop.Containers.Map.{Map, find, put}
use qiftop.Flow.Types.{Text}
use qiftop.Aggregate.Real.{Real}

pub record InterfaceStats : Type 0 where
  pub name : Text
  pub type : Text
  pub mtu : ℕ
  pub addresses : List Text
  pub rx_bytes : ℕ
  pub tx_bytes : ℕ
  pub rx_packets : ℕ
  pub tx_packets : ℕ
  pub is_up : Bool
  pub is_loopback : Bool
  pub if_index : ℕ
  pub oper_state : ℕ
  pub rx_errors : ℕ
  pub tx_errors : ℕ
  pub rx_dropped : ℕ
  pub tx_dropped : ℕ

pub record InterfaceRow (Num : Type 0) : Type 0 where
  pub current : InterfaceStats
  pub rx_rate : Num
  pub tx_rate : Num

pub record InterfaceAggregator (Num : Type 0) : Type 0 where
  pub rows : List (InterfaceRow Num)
  pub prev : Map Text InterfaceStats
  pub last_elapsed_ms : ℕ

pub data InterfaceSignal : Type 0 where
  about_to_reset : InterfaceSignal
  did_reset : InterfaceSignal
  rows_changed : ℕ → ℕ → InterfaceSignal

-- `<` on QString: by the UTF-16 units.
unfoldable pub is_before : Text → Text → Bool
is_before s [] = false
is_before [] (y ∷ t) = true
is_before (x ∷ s) (y ∷ t) = if x == y then is_before s t else ltb x y

-- std::ranges::sort by name, as an insertion sort.
unfoldable pub insert_by_name : InterfaceStats → List InterfaceStats → List InterfaceStats
unfolding is_before
insert_by_name s [] = s ∷ []
insert_by_name s (t ∷ ts) = if is_before t.name s.name then t ∷ insert_by_name s ts else s ∷ t ∷ ts

unfoldable pub sorted_by_name : List InterfaceStats → List InterfaceStats
unfolding insert_by_name
sorted_by_name [] = []
sorted_by_name (s ∷ ss) = insert_by_name s (sorted_by_name ss)

-- The loop of `structureChanged`.
unfoldable pub names_differ : {Num : Type 0} → List InterfaceStats → List (InterfaceRow Num) → Bool
names_differ [] rows = false
names_differ (s ∷ ss) [] = true
names_differ (s ∷ ss) (r ∷ rs) = not (s.name == r.current.name) || names_differ ss rs

unfoldable pub structure_changed :
    {Num : Type 0} → List InterfaceStats → List (InterfaceRow Num) → Bool
unfolding names_differ
structure_changed stats rows = not (length stats == length rows) || names_differ stats rows

-- `m_prev`, filled again.
unfoldable pub index_stats : Map Text InterfaceStats → List InterfaceStats → Map Text InterfaceStats
index_stats m [] = m
index_stats m (s ∷ ss) = index_stats (put s.name s m) ss

module _ {Num : Type 0} (d : Real Num) where
  unfoldable pub byte_rate : ℕ → ℕ → Num → Num
  byte_rate current previous delta_secs =
      if leb previous current then d.div (d.of_nat (current - previous)) delta_secs else d.of_nat 0

  -- The body of both loops: the rates change only if the interface was in the statistics before.
  unfoldable pub renewed :
      Num → Option InterfaceStats → InterfaceStats → InterfaceRow Num → InterfaceRow Num
  unfolding byte_rate
  renewed delta_secs none s r = record r { current = s }
  renewed delta_secs (some p) s r = record {
    current = s;
    rx_rate = byte_rate s.rx_bytes p.rx_bytes delta_secs;
    tx_rate = byte_rate s.tx_bytes p.tx_bytes delta_secs;
  }

  -- A row that is made in a reset.
  unfoldable pub fresh_row : Num → Map Text InterfaceStats → InterfaceStats → InterfaceRow Num
  unfolding renewed
  fresh_row delta_secs prev s =
      renewed delta_secs (find s.name prev) s
        (record { current = s; rx_rate = d.of_nat 0; tx_rate = d.of_nat 0 })

  -- The loop that keeps the rows.
  unfoldable pub renew_rows :
      Num
      → Map Text InterfaceStats
      → List InterfaceStats
      → List (InterfaceRow Num)
      → List (InterfaceRow Num)
  unfolding renewed
  renew_rows delta_secs prev [] rows = rows
  renew_rows delta_secs prev (s ∷ ss) [] = []
  renew_rows delta_secs prev (s ∷ ss) (r ∷ rs) =
      renewed delta_secs (find s.name prev) s r ∷ renew_rows delta_secs prev ss rs

  -- `deltaSecs`
  unfoldable pub secs_since : ℕ → ℕ → Num
  secs_since before now =
      if ltb before now then d.div (d.of_nat (now - before)) (d.of_nat 1000) else d.of_nat 1

  unfoldable pub update_stats :
      ℕ
      → List InterfaceStats
      → InterfaceAggregator Num
      → InterfaceAggregator Num × List InterfaceSignal
  unfolding sorted_by_name structure_changed index_stats fresh_row renew_rows secs_since
  update_stats now stats a =
      let delta_secs = secs_since a.last_elapsed_ms now in
      let ss = sorted_by_name stats in
      let prev = index_stats [] ss in
      let n = length a.rows in
      if structure_changed ss a.rows
      then (
        record { rows = map (fresh_row delta_secs a.prev) ss; prev = prev; last_elapsed_ms = now },
        about_to_reset ∷ did_reset ∷ [],
      )
      else (
        record {
          rows = renew_rows delta_secs a.prev ss a.rows;
          prev = prev;
          last_elapsed_ms = now;
        },
        if n == 0 then [] else rows_changed 0 (n - 1) ∷ [],
      )
