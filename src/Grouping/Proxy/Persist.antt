-- ===== src/Grouping/Proxy/Persist.antt =====
-- src/ui/ConnectionGroupProxy.cpp: what resortGroupsPreservingIndexes does to the persistent indexes,
-- by which views keep what is selected and expanded. An empty key stands for an index of nothing.
pub mod Table
pub mod Kept
use qiftop.Common.{
  ℕ, suc, ◌+◌, Bool, true, false, not, ◌||◌, List, [], ◌∷◌, Option, none, some, if◌then◌else◌,
  nat_eq, list_eq, get_elem?,
}
use qiftop.Containers.Map.{Map, find, put}
use qiftop.Flow.Types.{Text, Connection, is_empty}
use qiftop.Aggregate.Real.{Real}
use qiftop.Grouping.Groups.{Group}
use qiftop.Grouping.Order.{Variants, Column, SourceRow}
use qiftop.Grouping.Tree.{GroupProxy, is_flat, orders_differ, sorted_by, resort}
use qiftop.Grouping.Proxy.Mapping.{ModelIndex, invalid, top, child, row_in, child_at, source_index}

pub record Identity : Type 0 where
  pub key : Text
  pub src_row : Option ℕ
  pub column : ℕ

abbrev nothing : ℕ → Identity
nothing column = record { key = []; src_row = none; column = column }

abbrev group_identity : ℕ → Option Group → Identity
group_identity column none = nothing column
group_identity column (some g) = record { key = g.key; src_row = none; column = column }

abbrev pub key_or_empty : Option Group → Text
key_or_empty none = []
key_or_empty (some g) = g.key

abbrev row_identity : ℕ → Text → Option ℕ → Identity
row_identity column key none = nothing column
row_identity column key (some r) = record { key = key; src_row = some r; column = column }

unfoldable pub identity_of : List Group → ModelIndex → Identity
identity_of gs invalid = nothing 0
identity_of gs (top gi column) = group_identity column (get_elem? gs gi)
identity_of gs (child gi row column) =
    row_identity column (key_or_empty (get_elem? gs gi)) (row_in (get_elem? gs gi) row)

-- `keyToIdx`
unfoldable pub index_keys : ℕ → List Group → Map Text ℕ → Map Text ℕ
index_keys gi [] m = m
index_keys gi (g ∷ gs) m = index_keys (gi + 1) gs (put g.key gi m)

abbrev pub moved_to : Option ℕ → ℕ → Map ℕ (ℕ × ℕ) → Option ℕ → ModelIndex
moved_to none column rows r = invalid
moved_to (some gi) column rows none = top gi column
moved_to (some gi) column rows (some r) = child_at column (find r rows)

unfoldable pub remapped : Map Text ℕ → Map ℕ (ℕ × ℕ) → Identity → ModelIndex
remapped table rows id =
    if is_empty id.key then invalid else moved_to (find id.key table) id.column rows id.src_row

-- In flat mode the indexes follow those of the source; `follow` is what its own sort does to a
-- QPersistentModelIndex, and `n` and `columns` bound its indexes.
abbrev follow_index : (ℕ → ℕ → Option (ℕ × ℕ)) → Option (ℕ × ℕ) → Option (ℕ × ℕ)
follow_index follow none = none
follow_index follow (some (row, column)) = follow row column

abbrev top_at : Option (ℕ × ℕ) → ModelIndex
top_at none = invalid
top_at (some (row, column)) = top row column

unfoldable pub flat_index : (ℕ → ℕ → Option (ℕ × ℕ)) → ℕ → ℕ → ModelIndex → ModelIndex
unfolding source_index
flat_index follow n columns invalid = invalid
flat_index follow n columns (top row column) =
    top_at (follow_index follow (source_index n columns row column))
flat_index follow n columns (child gi row column) =
    top_at (follow_index follow (source_index n columns row column))

module _ {Num : Type 0} (d : Real Num) (q : Variants Num) (decimal : ℕ → Text)
    (unread : Connection) where
  -- A persistent index after a sort of the groups, which leaves it alone if it changes nothing.
  unfoldable pub resort_index : List (SourceRow Num) → GroupProxy → ModelIndex → ModelIndex
  unfolding orders_differ resort index_keys remapped identity_of
  resort_index src p i =
      let sorted = sorted_by d q decimal unread p.sort_column src p in
      let p' = (resort d q decimal unread src p).0 in
      if is_flat p.mode || (is_empty p.groups || not (orders_differ sorted p.groups))
      then i
      else remapped (index_keys 0 p'.groups []) p'.src_index (identity_of p.groups i)

  unfoldable pub sort_index :
      (ℕ → ℕ → Option (ℕ × ℕ))
      → ℕ
      → ℕ
      → Option Column
      → Bool
      → List (SourceRow Num)
      → GroupProxy
      → ModelIndex
      → ModelIndex
  unfolding flat_index resort_index
  sort_index follow n columns column ascending src p i =
      if is_flat p.mode
      then flat_index follow n columns i
      else resort_index src (record p { sort_column = column; ascending = ascending }) i
