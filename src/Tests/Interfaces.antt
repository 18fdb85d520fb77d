-- ===== src/Tests/Interfaces.antt =====
-- InterfaceAggregator with two interfaces, and rates in whole numbers.
use qiftop.Common.{ℕ, ◌≡◌, refl, true, false, List, [], ◌∷◌, map, nat_eq, list_eq}
use qiftop.Containers.Map.{find, put}
use qiftop.Flow.Types.{Text}
use qiftop.Flow.Wire.{utf16}
use qiftop.Aggregate.Interfaces.{
  InterfaceStats, InterfaceAggregator, is_before, insert_by_name, sorted_by_name, names_differ,
  structure_changed, index_stats, byte_rate, renewed, fresh_row, renew_rows, secs_since,
  update_stats, about_to_reset, did_reset, rows_changed,
}
use qiftop.Aggregate.Interfaces.Order.{IsOrdered}
use qiftop.Aggregate.Interfaces.Rebuild.{run_updates, new_aggregator, rebuilt, run_updates-rebuilt}
use qiftop.Tests.Data.{whole}

abbrev interface_of : Text → ℕ → InterfaceStats
interface_of name bytes = record {
  name = name;
  type = utf16 "ethernet";
  mtu = 1500;
  addresses = [];
  rx_bytes = bytes;
  tx_bytes = 10;
  rx_packets = 1;
  tx_packets = 1;
  is_up = true;
  is_loopback = false;
  if_index = 2;
  oper_state = 6;
  rx_errors = 0;
  tx_errors = 0;
  rx_dropped = 0;
  tx_dropped = 0;
}

abbrev two_interfaces : ℕ → List InterfaceStats
two_interfaces bytes = interface_of (utf16 "lo") bytes ∷ interface_of (utf16 "eth0") bytes ∷ []

run_updates-rebuilt_example :
    let a = run_updates whole ((1000, two_interfaces 5000) ∷ []) new_aggregator in
    let rows = (update_stats whole 3000 (two_interfaces 9000) a).0.rows in
    (rows ≡ rebuilt whole 3000 (two_interfaces 9000) a) × IsOrdered (map (λ r. r.current) rows)
run_updates-rebuilt_example =
    run_updates-rebuilt whole ((1000, two_interfaces 5000) ∷ []) 3000 (two_interfaces 9000)

abbrev polled : InterfaceAggregator ℕ
polled = (update_stats whole 1000 (two_interfaces 5000) new_aggregator).0

-- 4000 bytes within 2 seconds, in place; an interface that goes is a reset.
second_poll :
    (map (λ r. r.rx_rate) (update_stats whole 3000 (two_interfaces 9000) polled).0.rows
      ≡ 2000 ∷ 2000 ∷ [])
    × ((update_stats whole 3000 (two_interfaces 9000) polled).1 ≡ rows_changed 0 1 ∷ [])
    × ((update_stats whole 3000 [] polled).1 ≡ about_to_reset ∷ did_reset ∷ [])
unfolding update_stats sorted_by_name insert_by_name is_before structure_changed names_differ
    index_stats fresh_row renew_rows renewed byte_rate secs_since find put
second_poll = (refl, refl, refl)
