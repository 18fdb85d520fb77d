-- ===== src/Grouping/Proxy.antt =====
-- src/ui/ConnectionGroupProxy.cpp: the handlers, with what they emit. The source's rows are an
-- argument, as they are when the handler runs. The span that onSourceRowsAboutToBeRemoved notes is that
-- which the next call has.
pub mod Steps
pub mod Shrink
pub mod Table
pub mod Current
pub mod Rebuild
pub mod History
pub mod Mapping
pub mod Persist
use qiftop.Common.{
  ℕ, zero, suc, ◌+◌, ◌-◌, Bool, true, false, not, ◌&&◌, ◌||◌, List, [], ◌∷◌, ◌++◌, Option, none,
  some, ltb, leb, if◌then◌else◌, ◌==◌, nat_eq, list_eq, length, get_elem?,
}
use qiftop.Containers.Map.{Map, find, put}
use qiftop.Flow.Types.{Text, Connection, is_empty}
use qiftop.Aggregate.Real.{Real}
use qiftop.Grouping.Keys.{
  ViewMode, flat, by_interface, by_container, by_process, group_key_for, group_label_for,
}
use qiftop.Grouping.Groups.{
  Group, Signal, header_changed, row_changed, layout_changes, find_group, place_in, place_rows,
  shifted_up, shifted_down, renumber, Removal, remove_rows, drop_emptied, holds, headers_of,
  index_groups, regroup_from,
}
use qiftop.Grouping.Order.{Variants, Column, SourceRow, sort_groups}
use qiftop.Grouping.Tree.{GroupProxy, is_flat, refresh_src_index, key_at, label_at, resort, rebuild}

-- What the proxy emits: `tree` in a grouped mode, and in flat mode the source's own signals.
pub data Emission : Type 0 where
  tree : Signal → Emission
  resets : Emission
  flat_inserts : ℕ → ℕ → Emission
  flat_removes : ℕ → ℕ → Emission
  flat_changes : ℕ → ℕ → Emission

abbrev pub emitted : List Signal → List Emission
emitted [] = []
emitted (s ∷ ss) = tree s ∷ emitted ss

abbrev mode_number : ViewMode → ℕ
mode_number flat = 0
mode_number by_interface = 1
mode_number by_container = 2
mode_number by_process = 3

abbrev pub removal_of : ℕ → ℕ → List Group → Removal
removal_of first n gs =
    remove_rows n first (record { groups = gs; emptied = []; touched = []; signals = [] })

-- `forwardSourceDataChanged`; the set of parents is in the order in which they were met.
abbrev pub parent_added : Option (ℕ × ℕ) → List ℕ → List ℕ
parent_added none gs = gs
parent_added (some (gi, c)) gs = gi ∷ gs

abbrev pub change_of : Option (ℕ × ℕ) → List Signal
change_of none = []
change_of (some (gi, c)) = row_changed gi c ∷ []

unfoldable pub forward_rows : ℕ → ℕ → GroupProxy → List Signal × List ℕ
forward_rows zero r p = ([], [])
forward_rows (suc n) r p =
    let at = find r p.src_index in
    let (signals, parents) = forward_rows n (r + 1) p in
    (change_of at ++ signals, parent_added at parents)

unfoldable pub parent_headers : List ℕ → List ℕ → List Signal
unfolding holds
parent_headers seen [] = []
parent_headers seen (gi ∷ gis) =
    let again = parent_headers seen gis in
    let first = header_changed gi ∷ parent_headers (gi ∷ seen) gis in
    if holds gi seen then again else first

unfoldable pub forward_source_data_changed : ℕ → ℕ → GroupProxy → List Signal
unfolding forward_rows parent_headers
forward_source_data_changed first n p =
    let (signals, parents) = forward_rows n first p in signals ++ parent_headers [] parents

module _ {Num : Type 0} (d : Real Num) (q : Variants Num) (decimal : ℕ → Text)
    (unread : Connection) where
  unfoldable pub on_source_reset : List (SourceRow Num) → GroupProxy → GroupProxy × List Emission
  unfolding rebuild
  on_source_reset src p = (rebuild d q decimal unread src p, resets ∷ [])

  -- The source has sorted itself by then, or undone its sort.
  unfoldable pub set_view_mode :
      ViewMode → List (SourceRow Num) → GroupProxy → GroupProxy × List Emission
  unfolding rebuild
  set_view_mode mode src p =
      if mode_number mode == mode_number p.mode
      then (p, [])
      else (rebuild d q decimal unread src (record p { mode = mode }), resets ∷ [])

  -- Both change what the next sort does, and sort at once; in flat mode the source sorts itself.
  unfoldable pub sort :
      Option Column → Bool → List (SourceRow Num) → GroupProxy → GroupProxy × List Signal
  unfolding resort
  sort column ascending src p =
      let p' = record p { sort_column = column; ascending = ascending } in
      if is_flat p.mode then (p', layout_changes ∷ []) else resort d q decimal unread src p'

  unfoldable pub set_sort_within_groups :
      Bool → List (SourceRow Num) → GroupProxy → GroupProxy × List Signal
  unfolding resort
  set_sort_within_groups on src p =
      if on
      then if p.sort_within_groups
        then (p, [])
        else resort d q decimal unread src (record p { sort_within_groups = true })
      else if p.sort_within_groups
      then resort d q decimal unread src (record p { sort_within_groups = false })
      else (p, [])

  unfoldable pub insert_in_tree :
      ℕ → ℕ → List (SourceRow Num) → GroupProxy → GroupProxy × List Emission
  unfolding renumber place_rows key_at label_at refresh_src_index resort
  insert_in_tree first n src p =
      let shifted = renumber (shifted_up first n) p.groups in
      let (gs, signals) =
        place_rows (key_at d q decimal unread p.mode src) (label_at d q decimal unread p.mode src) n
          first shifted in
      let (p', order) =
        resort d q decimal unread src (refresh_src_index (record p { groups = gs })) in
      (p', emitted (signals ++ order))

  -- `n` rows were inserted from row `first` on.
  unfoldable pub on_source_rows_inserted :
      ℕ → ℕ → List (SourceRow Num) → GroupProxy → GroupProxy × List Emission
  unfolding insert_in_tree
  on_source_rows_inserted first n src p =
      if is_flat p.mode
      then (p, flat_inserts first (first + n - 1) ∷ [])
      else insert_in_tree first n src p

  unfoldable pub remove_in_tree :
      ℕ → ℕ → List (SourceRow Num) → GroupProxy → GroupProxy × List Emission
  unfolding remove_rows renumber drop_emptied refresh_src_index headers_of resort
  remove_in_tree first n src p =
      let st = removal_of first n p.groups in
      let shifted = renumber (shifted_down (first + n - 1) n) st.groups in
      let (gs, dropped) = drop_emptied st.emptied 0 shifted in
      let headers = headers_of st.touched 0 gs in
      let (p', order) =
        resort d q decimal unread src (refresh_src_index (record p { groups = gs })) in
      (p', emitted (st.signals ++ (dropped ++ (headers ++ order))))

  -- The rows from `first` on, `n` of them, were removed.
  unfoldable pub on_source_rows_removed :
      ℕ → ℕ → List (SourceRow Num) → GroupProxy → GroupProxy × List Emission
  unfolding remove_in_tree
  on_source_rows_removed first n src p =
      if is_flat p.mode
      then (p, flat_removes first (first + n - 1) ∷ [])
      else remove_in_tree first n src p

  -- `regroupSourceRow`
  unfoldable pub regroup_source_row :
      ℕ → List (SourceRow Num) → GroupProxy → GroupProxy × Bool × List Signal
  unfolding key_at label_at regroup_from refresh_src_index
  regroup_source_row r src p =
      let (gs, moved, signals) =
        regroup_from (find r p.src_index) (key_at d q decimal unread p.mode src r)
          (label_at d q decimal unread p.mode src r) r p.groups in
      let p' = record p { groups = gs } in
      (if moved then refresh_src_index p' else p', moved, signals)

  unfoldable pub regroup_rows :
      ℕ → ℕ → List (SourceRow Num) → GroupProxy → GroupProxy × Bool × List Signal
  unfolding regroup_source_row
  regroup_rows zero r src p = (p, false, [])
  regroup_rows (suc n) r src p =
      let (p', moved, signals) = regroup_source_row r src p in
      let (p'', any, rest) = regroup_rows n (r + 1) src p' in (p'', moved || any, signals ++ rest)

  -- The rows whose keys may have changed are put where they belong.
  unfoldable pub regroup_in_tree :
      ℕ → ℕ → List (SourceRow Num) → GroupProxy → GroupProxy × List Signal
  unfolding regroup_rows resort
  regroup_in_tree first n src p =
      let (regrouped, moved, signals) = regroup_rows n first src p in
      let (resorted, order) = resort d q decimal unread src regrouped in
      if moved then (resorted, signals ++ order) else (regrouped, signals)

  unfoldable pub change_in_tree :
      Bool → ℕ → ℕ → List (SourceRow Num) → GroupProxy → GroupProxy × List Emission
  unfolding regroup_in_tree forward_source_data_changed
  change_in_tree maybe first n src p =
      let (after, signals) = if maybe then regroup_in_tree first n src p else (p, []) in
      (after, emitted (signals ++ forward_source_data_changed first n after))

  -- The data of `n` rows from row `first` on changed; `maybe` tells whether the roles allow that their
  -- keys did.
  unfoldable pub on_source_data_changed :
      Bool → ℕ → ℕ → List (SourceRow Num) → GroupProxy → GroupProxy × List Emission
  unfolding change_in_tree
  on_source_data_changed maybe first n src p =
      if is_flat p.mode
      then (p, flat_changes first (first + n - 1) ∷ [])
      else change_in_tree maybe first n src p
