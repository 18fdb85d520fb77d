-- ===== src/Grouping/Tree.antt =====
-- src/ui/ConnectionGroupProxy.cpp: the object, how it builds its groups, and how it sorts them. The
-- source's rows are an argument; `unread` is a default-constructed Connection, which a row that is not
-- there gives.
use qiftop.Common.{
  ℕ, zero, suc, ◌+◌, Bool, true, false, not, ◌||◌, List, [], ◌∷◌, Option, none, some, if◌then◌else◌,
  ◌==◌, nat_eq, list_eq, length, get_elem?,
}
use qiftop.Containers.Map.{Map, find, put}
use qiftop.Flow.Types.{Text, Connection, is_empty}
use qiftop.Aggregate.Real.{Real}
use qiftop.Grouping.Keys.{
  ViewMode, flat, by_interface, by_container, by_process, group_key_for, group_label_for,
}
use qiftop.Grouping.Groups.{Group, Signal, layout_changes, place_in, index_groups}
use qiftop.Grouping.Order.{Variants, Column, SourceRow, sort_groups}

pub record GroupProxy : Type 0 where
  pub mode : ViewMode
  pub groups : List Group
  pub src_index : Map ℕ (ℕ × ℕ)
  pub sort_column : Option Column
  pub ascending : Bool
  pub sort_within_groups : Bool

abbrev pub is_flat : ViewMode → Bool
is_flat flat = true
is_flat by_interface = false
is_flat by_container = false
is_flat by_process = false

unfoldable pub refresh_src_index : GroupProxy → GroupProxy
unfolding index_groups
refresh_src_index p = record p {
  src_index = if is_flat p.mode then [] else index_groups 0 p.groups [];
}

-- The loop of the dry run that looks for a difference.
unfoldable pub orders_differ : List Group → List Group → Bool
orders_differ [] gs = false
orders_differ (s ∷ ss) [] = true
orders_differ (s ∷ ss) (g ∷ gs) =
    not (s.key == g.key) || (not (s.src_rows == g.src_rows) || orders_differ ss gs)

-- `keyToIdx`: a key that is new is given the next index.
abbrev pub table_after : Option ℕ → Text → ℕ → Map Text ℕ → Map Text ℕ
table_after none k n table = put k n table
table_after (some i) k n table = table

-- The loop of `rebuild` over `n` rows from row `r` on, with its table of groups by key.
unfoldable pub rebuild_rows : (ℕ → Text) → (ℕ → Text) → ℕ → ℕ → Map Text ℕ → List Group → List Group
unfolding place_in
rebuild_rows keys labels zero r table gs = gs
rebuild_rows keys labels (suc n) r table gs =
    let k = keys r in
    let known = find k table in
    let placed = (place_in known k (labels r) r gs).0 in
    rebuild_rows keys labels n (r + 1) (table_after known k (length gs) table) placed

module _ {Num : Type 0} (d : Real Num) (q : Variants Num) (decimal : ℕ → Text)
    (unread : Connection) where
  abbrev connection_of : Option (SourceRow Num) → Connection
  connection_of none = unread
  connection_of (some s) = s.connection

  unfoldable pub key_at : ViewMode → List (SourceRow Num) → ℕ → Text
  unfolding group_key_for
  key_at mode src r = group_key_for decimal mode (connection_of (get_elem? src r))

  unfoldable pub label_at : ViewMode → List (SourceRow Num) → ℕ → Text
  unfolding group_label_for
  label_at mode src r = group_label_for decimal mode (connection_of (get_elem? src r))

  abbrev pub sorted_by : Option Column → List (SourceRow Num) → GroupProxy → List Group
  sorted_by none src p = p.groups
  sorted_by (some col) src p = sort_groups d q src col p.ascending p.sort_within_groups p.groups

  -- `resortGroupsPreservingIndexes`; what it does to a persistent index is in Proxy/Persist.
  unfoldable pub resort : List (SourceRow Num) → GroupProxy → GroupProxy × List Signal
  unfolding orders_differ sort_groups refresh_src_index
  resort src p =
      let sorted = sorted_by p.sort_column src p in
      if is_flat p.mode || (is_empty p.groups || not (orders_differ sorted p.groups))
      then (p, [])
      else (refresh_src_index (record p { groups = sorted }), layout_changes ∷ [])

  unfoldable pub rebuild_tree : List (SourceRow Num) → GroupProxy → GroupProxy
  unfolding rebuild_rows refresh_src_index sort_groups key_at label_at
  rebuild_tree src p =
      let gs = rebuild_rows (key_at p.mode src) (label_at p.mode src) (length src) 0 [] [] in
      let grouped = record p { groups = gs } in
      refresh_src_index (record p { groups = sorted_by p.sort_column src grouped })

  unfoldable pub rebuild : List (SourceRow Num) → GroupProxy → GroupProxy
  unfolding rebuild_tree
  rebuild src p =
      if is_flat p.mode then record p { groups = []; src_index = [] } else rebuild_tree src p
