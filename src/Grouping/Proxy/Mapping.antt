-- ===== src/Grouping/Proxy/Mapping.antt =====
-- src/ui/ConnectionGroupProxy.cpp: indexes of the tree, and those of the source that they stand for. A
-- QModelIndex is invalid, or at the top level, or that of a row in a group, which is its internalId.
-- An index of the source is a row and a column; `n` and `columns` bound those that it has.
pub mod Back
use qiftop.Common.{
  ℕ, Bool, true, false, List, [], ◌∷◌, Option, none, some, ltb, ◌&&◌, if◌then◌else◌, ◌==◌, nat_eq,
  length, get_elem?,
}
use qiftop.Containers.Map.{find}
use qiftop.Flow.Types.{Connection}
use qiftop.Grouping.Groups.{Group}
use qiftop.Grouping.Tree.{GroupProxy, is_flat}

pub data ModelIndex : Type 0 where
  invalid : ModelIndex
  top : ℕ → ℕ → ModelIndex
  child : ℕ → ℕ → ℕ → ModelIndex

abbrev pub is_valid : ModelIndex → Bool
is_valid invalid = false
is_valid (top row column) = true
is_valid (child gi row column) = true

unfoldable pub is_group_index : GroupProxy → ModelIndex → Bool
is_group_index p (top row column) = if is_flat p.mode then false else true
is_group_index p invalid = false
is_group_index p (child gi row column) = false

-- `index` of the source
unfoldable pub source_index : ℕ → ℕ → ℕ → ℕ → Option (ℕ × ℕ)
source_index n columns row column =
    if ltb row n && ltb column columns then some (row, column) else none

abbrev pub row_in : Option Group → ℕ → Option ℕ
row_in none row = none
row_in (some g) row = get_elem? g.src_rows row

abbrev pub source_row : ℕ → ℕ → ℕ → Option ℕ → Option (ℕ × ℕ)
source_row n columns column none = none
source_row n columns column (some r) =
    if ltb r n && ltb column columns then some (r, column) else none

unfoldable pub map_to_source : ℕ → ℕ → GroupProxy → ModelIndex → Option (ℕ × ℕ)
unfolding source_index
map_to_source n columns p invalid = none
map_to_source n columns p (top row column) =
    if is_flat p.mode then source_index n columns row column else none
map_to_source n columns p (child gi row column) =
    if is_flat p.mode
    then source_index n columns row column
    else source_row n columns column (row_in (get_elem? p.groups gi) row)

abbrev group_rows : Option Group → ℕ
group_rows none = 0
group_rows (some g) = length g.src_rows

unfoldable pub index_in_group : GroupProxy → ℕ → ℕ → ModelIndex → ModelIndex
index_in_group p row column invalid = if ltb row (length p.groups) then top row column else invalid
index_in_group p row column (top gi c) =
    if ltb gi (length p.groups) && ltb row (group_rows (get_elem? p.groups gi))
    then child gi row column
    else invalid
index_in_group p row column (child gi r c) = invalid

unfoldable pub index : ℕ → GroupProxy → ℕ → ℕ → ModelIndex → ModelIndex
unfolding index_in_group
index n p row column parent =
    if is_flat p.mode
    then if is_valid parent then invalid else if ltb row n then top row column else invalid
    else index_in_group p row column parent

unfoldable pub parent : GroupProxy → ModelIndex → ModelIndex
parent p invalid = invalid
parent p (top row column) = invalid
parent p (child gi row column) = if is_flat p.mode then invalid else top gi 0

unfoldable pub row_count : ℕ → GroupProxy → ModelIndex → ℕ
row_count n p invalid = if is_flat p.mode then n else length p.groups
row_count n p (top gi column) = if is_flat p.mode then 0 else group_rows (get_elem? p.groups gi)
row_count n p (child gi row column) = 0

abbrev pub child_at : ℕ → Option (ℕ × ℕ) → ModelIndex
child_at column none = invalid
child_at column (some (gi, row)) = child gi row column

-- An index of the source that is valid.
unfoldable pub map_from_source : ℕ → GroupProxy → ℕ → ℕ → ModelIndex
unfolding index
map_from_source n p row column =
    if is_flat p.mode then index n p row column invalid else child_at column (find row p.src_index)
