-- ===== src/Grouping/View/Sync.antt =====
-- src/ui/ConnectionGroupProxy.cpp: a view that follows the proxy through all that its source and its
-- user do.
use qiftop.Common.{ℕ, ◌+◌, ◌-◌, ◌≡◌, refl, ◌∙◌, ap, false, List, [], ◌∷◌, Option, some, length}
use qiftop.Flow.Types.{Text, Connection}
use qiftop.Aggregate.Real.{Real}
use qiftop.Grouping.Keys.{ViewMode}
use qiftop.Grouping.Groups.{layout_changes}
use qiftop.Grouping.Order.{Variants, SourceRow}
use qiftop.Grouping.Source.{change_rows}
use qiftop.Grouping.Tree.{GroupProxy, rebuild, is_flat, resort}
use qiftop.Grouping.Proxy.{
  Emission, flat_inserts, flat_removes, flat_changes, emitted, insert_in_tree, remove_in_tree,
  change_in_tree, on_source_rows_inserted, on_source_rows_removed, on_source_data_changed,
  on_source_reset, sort, set_sort_within_groups,
}
use qiftop.Grouping.Proxy.Current.{IsCurrent, grouped, otherwise}
use qiftop.Grouping.Proxy.History.{
  Event, inserted, removed, changed, reset, sorts, sorts_within, rows_after, handle, run,
  IsPossible, ArePossible, handle-IsCurrent,
}
use qiftop.Grouping.View.{shape, and_then}
use qiftop.Grouping.View.Steps.{
  received, Follows, resets-Follows, insert_in_tree-Follows, remove_in_tree-Follows, resort-Follows,
  sorts_within-Follows, change_in_tree-Follows,
}

module _ {Num : Type 0} (d : Real Num) (q : Variants Num) (decimal : ℕ → Text)
    (unread : Connection) where
  -- The proxy's signals for an event, by the handler that runs.
  abbrev told : Event Num → List (SourceRow Num) → GroupProxy → List Emission
  told (inserted first new) src p =
      (on_source_rows_inserted d q decimal unread first (length new) src p).1
  told (removed first n) src p = (on_source_rows_removed d q decimal unread first n src p).1
  told (changed maybe first new) src p =
      (on_source_data_changed d q decimal unread maybe first (length new) src p).1
  told (reset src') src p = (on_source_reset d q decimal unread src p).1
  told (sorts column ascending) src p = emitted (sort d q decimal unread column ascending src p).1
  told (sorts_within on) src p = emitted (set_sort_within_groups d q decimal unread on src p).1

  -- The view after a number of events.
  abbrev pub watch : List (Event Num) → List (SourceRow Num) → GroupProxy → List ℕ → Option (List ℕ)
  watch [] src p s = some s
  watch (e ∷ es) src p s =
      let src' = rows_after e src in
      let p' = handle d q decimal unread e src' p in
      and_then (watch es src' p') (received (shape p'.groups) (told e src' p) s)

  module _ (mode : ViewMode) (tree : is_flat mode ≡ false) where
    handle-Follows :
        (e : Event Num) (src : List (SourceRow Num)) (p : GroupProxy)
        → IsPossible d q decimal unread mode tree e src
        → IsCurrent d q decimal unread mode tree src p
        → let src' = rows_after e src in
          Follows p (handle d q decimal unread e src' p, told e src' p)
    unfolding on_source_rows_inserted on_source_rows_removed on_source_data_changed on_source_reset
        sort
    handle-Follows (inserted first new) src p h t =
        let src' = rows_after (inserted first new) src in
        otherwise (Follows p) (is_flat p.mode) (p, flat_inserts first (first + length new - 1) ∷ [])
          (insert_in_tree d q decimal unread first (length new) src' p)
          (grouped d q decimal unread mode tree p.mode t.kind)
          (insert_in_tree-Follows d q decimal unread first (length new) src' p)
    handle-Follows (removed first n) src p h t =
        let e : Event Num = removed first n in
        let src' = rows_after e src in
        otherwise (Follows p) (is_flat p.mode) (p, flat_removes first (first + n - 1) ∷ [])
          (remove_in_tree d q decimal unread first n src' p)
          (grouped d q decimal unread mode tree p.mode t.kind)
          (remove_in_tree-Follows d q decimal unread first n src' p)
    handle-Follows (changed maybe first new) src p h t =
        otherwise (Follows p) (is_flat p.mode) (p, flat_changes first (first + length new - 1) ∷ [])
          (change_in_tree d q decimal unread maybe first (length new) (change_rows first new src) p)
          (grouped d q decimal unread mode tree p.mode t.kind)
          (change_in_tree-Follows d q decimal unread mode tree maybe first new src p h.0 h.1 t)
    handle-Follows (reset src') src p h t = resets-Follows p (rebuild d q decimal unread src' p)
    handle-Follows (sorts column ascending) src p h t =
        let p' = record p { sort_column = column; ascending = ascending } in
        otherwise (λ r. Follows p (r.0, emitted r.1)) (is_flat p.mode) (p', layout_changes ∷ [])
          (resort d q decimal unread src p') (grouped d q decimal unread mode tree p.mode t.kind)
          (resort-Follows d q decimal unread src p')
    handle-Follows (sorts_within on) src p h t = sorts_within-Follows d q decimal unread on src p

    -- If each row of the source stands once in the tree, in the group of its key, no group is
    -- empty or has the key of another, and the reverse index gives the places, then a view that
    -- follows the proxy's signals through any insertions, removals and changes of rows that are
    -- there, resets, and sorts is never told of a row that it does not have, and in the end has as
    -- many groups, of the same sizes, as the tree. No key changes where a change is announced
    -- without the role of flows.
    pub watch-run :
        (es : List (Event Num)) (src : List (SourceRow Num)) (p : GroupProxy)
        → ArePossible d q decimal unread mode tree es src
        → IsCurrent d q decimal unread mode tree src p
        → watch es src p (shape p.groups) ≡ some (shape (run d q decimal unread es src p).1.groups)
    watch-run [] src p h t = refl
    watch-run (e ∷ es) src p h t =
        let src' = rows_after e src in
        let p' = handle d q decimal unread e src' p in
        ap (and_then (watch es src' p')) (handle-Follows e src p h.0 t)
        ∙ watch-run es src' p' h.1 (handle-IsCurrent d q decimal unread mode tree e src p h.0 t)
