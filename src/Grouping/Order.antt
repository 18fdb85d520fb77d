-- ===== src/Grouping/Order.antt =====
-- src/ui/ConnectionGroupProxy.cpp: sortGroups, and of aggregateData the values that groups are sorted
-- by. std::sort is an insertion sort here; it leaves the order of equals open.
pub mod Kept
use qiftop.Common.{
  ℕ, ◌+◌, ◌%◌, ◌^◌, Bool, true, false, not, List, [], ◌∷◌, Option, none, some, if◌then◌else◌,
  length, get_elem?, map,
}
use qiftop.Flow.Types.{Text, Connection}
use qiftop.Aggregate.Real.{Real}
use qiftop.Grouping.Groups.{Group}

-- What QVariant holds in a sort role; it is invalid for a row that is not there.
pub data Variant (Num : Type 0) : Type 0 where
  text : Text → Variant Num
  integer : ℕ → Variant Num
  number : Num → Variant Num
  invalid : Variant Num

pub data PartialOrdering : Type 0 where
  less equivalent greater unordered : PartialOrdering

-- ConnectionModel::Column
pub data Column : Type 0 where
  iface flow rx_rate tx_rate rx_total tx_total rx_max tx_max process container : Column

-- A row of the source, by its roles.
pub record SourceRow (Num : Type 0) : Type 0 where
  pub connection : Connection
  pub rx_rate_role : Num
  pub tx_rate_role : Num
  pub sort_role : Column → Variant Num

-- QVariant::compare, and QVariant::toDouble of a sort role.
pub record Variants (Num : Type 0) : Type 0 where
  pub compare : Variant Num → Variant Num → PartialOrdering
  pub to_double : Variant Num → Num

-- std::sort
abbrev insert_before {ℓ} : {A : Type ℓ} → (A → A → Bool) → A → List A → List A
insert_before before x [] = x ∷ []
insert_before before x (y ∷ ys) = if before y x then y ∷ insert_before before x ys else x ∷ y ∷ ys

unfoldable pub sorted {ℓ} : {A : Type ℓ} → (A → A → Bool) → List A → List A
sorted before [] = []
sorted before (x ∷ xs) = insert_before before x (sorted before xs)

-- `cmpVariant`
unfoldable pub before_in : Bool → PartialOrdering → Bool
before_in ascending equivalent = false
before_in ascending less = ascending
before_in ascending greater = not ascending
before_in ascending unordered = not ascending

module _ {Num : Type 0} (d : Real Num) (q : Variants Num) (src : List (SourceRow Num)) where
  -- The sum of a role over the rows of a group; a row that is not there counts nothing.
  abbrev role_or_zero : (SourceRow Num → Num) → Option (SourceRow Num) → Num
  role_or_zero role none = d.of_nat 0
  role_or_zero role (some s) = role s

  unfoldable pub sum_role : (SourceRow Num → Num) → Num → List ℕ → Num
  sum_role role acc [] = acc
  sum_role role acc (r ∷ rs) = sum_role role (d.add acc (role_or_zero role (get_elem? src r))) rs

  abbrev bytes_or_zero : (Connection → ℕ) → Option (SourceRow Num) → ℕ
  bytes_or_zero bytes none = 0
  bytes_or_zero bytes (some s) = bytes s.connection

  unfoldable pub sum_bytes : (Connection → ℕ) → ℕ → List ℕ → ℕ
  sum_bytes bytes acc [] = acc
  sum_bytes bytes acc (r ∷ rs) =
      sum_bytes bytes ((acc + bytes_or_zero bytes (get_elem? src r)) % 2 ^ 64) rs

  -- `aggregateData` for the sort role.
  unfoldable pub aggregate_sort_role : Column → Group → Variant Num
  unfolding sum_role sum_bytes
  aggregate_sort_role iface g = text g.label
  aggregate_sort_role flow g = integer (length g.src_rows)
  aggregate_sort_role rx_rate g = number (sum_role (λ s. s.rx_rate_role) (d.of_nat 0) g.src_rows)
  aggregate_sort_role tx_rate g = number (sum_role (λ s. s.tx_rate_role) (d.of_nat 0) g.src_rows)
  aggregate_sort_role rx_total g = integer (sum_bytes (λ c. c.rx_bytes) 0 g.src_rows)
  aggregate_sort_role tx_total g = integer (sum_bytes (λ c. c.tx_bytes) 0 g.src_rows)
  aggregate_sort_role rx_max g =
      number (sum_role (λ s. q.to_double (s.sort_role rx_max)) (d.of_nat 0) g.src_rows)
  aggregate_sort_role tx_max g =
      number (sum_role (λ s. q.to_double (s.sort_role tx_max)) (d.of_nat 0) g.src_rows)
  aggregate_sort_role process g = text []
  aggregate_sort_role container g = text []

  abbrev role_of : Column → Option (SourceRow Num) → Variant Num
  role_of col none = invalid
  role_of col (some s) = s.sort_role col

  unfoldable pub row_before : Column → Bool → ℕ → ℕ → Bool
  unfolding before_in
  row_before col ascending r s =
      before_in ascending
        (q.compare (role_of col (get_elem? src r)) (role_of col (get_elem? src s)))

  unfoldable pub group_before : Column → Bool → Group → Group → Bool
  unfolding before_in aggregate_sort_role
  group_before col ascending g h =
      before_in ascending (q.compare (aggregate_sort_role col g) (aggregate_sort_role col h))

  abbrev pub with_rows_sorted : Column → Bool → Group → Group
  with_rows_sorted col ascending g = record g {
    src_rows = sorted (row_before col ascending) g.src_rows;
  }

  unfoldable pub sort_groups : Column → Bool → Bool → List Group → List Group
  unfolding sorted row_before group_before
  sort_groups col ascending within gs =
      let contents = map (with_rows_sorted col ascending) gs in
      if within then contents else sorted (group_before col ascending) contents
