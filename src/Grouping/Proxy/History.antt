-- ===== src/Grouping/Proxy/History.antt =====
-- A proxy in a grouped mode through all that its source and its user do.
use qiftop.Common.{
  ℕ, ◌+◌, ◌≤◌, ◌<◌, ◌≡◌, sym, ◌∙◌, ap, Bool, false, List, [], ◌∷◌, Option, ltb, if◌then◌else◌,
  length,
}
use qiftop.Flow.Types.{Text, Connection}
use qiftop.Aggregate.Real.{Real}
use qiftop.Grouping.Keys.{ViewMode}
use qiftop.Grouping.Groups.Content.{count}
use qiftop.Grouping.Order.{Variants, Column, SourceRow}
use qiftop.Grouping.Source.{insert_rows, drop_rows, change_rows}
use qiftop.Grouping.Tree.{GroupProxy, is_flat, rebuild}
use qiftop.Grouping.Proxy.{
  on_source_rows_inserted, on_source_rows_removed, on_source_data_changed, on_source_reset, sort,
  set_sort_within_groups,
}
use qiftop.Grouping.Proxy.Steps.{key_of}
use qiftop.Grouping.Proxy.Current.{
  IsCurrent, rebuild-IsCurrent, rows_inserted-IsCurrent, rows_removed-IsCurrent,
}
use qiftop.Grouping.Proxy.Rebuild.{
  rows_of, count-rows_of, is_key, IsAnnounced, data_changed-IsCurrent, sort-IsCurrent,
  set_sort_within_groups-IsCurrent,
}

pub data Event (Num : Type 0) : Type 0 where
  inserted : ℕ → List (SourceRow Num) → Event Num
  removed : ℕ → ℕ → Event Num
  changed : Bool → ℕ → List (SourceRow Num) → Event Num
  reset : List (SourceRow Num) → Event Num
  sorts : Option Column → Bool → Event Num
  sorts_within : Bool → Event Num

-- The source's rows after an event.
abbrev pub rows_after : {Num : Type 0} → Event Num → List (SourceRow Num) → List (SourceRow Num)
rows_after (inserted first new) src = insert_rows first new src
rows_after (removed first n) src = drop_rows first n src
rows_after (changed maybe first new) src = change_rows first new src
rows_after (reset src') src = src'
rows_after (sorts column ascending) src = src
rows_after (sorts_within on) src = src

module _ {Num : Type 0} (d : Real Num) (q : Variants Num) (decimal : ℕ → Text)
    (unread : Connection) where
  -- The handler that runs, with the source's rows after the event.
  abbrev pub handle : Event Num → List (SourceRow Num) → GroupProxy → GroupProxy
  handle (inserted first new) src p =
      (on_source_rows_inserted d q decimal unread first (length new) src p).0
  handle (removed first n) src p = (on_source_rows_removed d q decimal unread first n src p).0
  handle (changed maybe first new) src p =
      (on_source_data_changed d q decimal unread maybe first (length new) src p).0
  handle (reset src') src p = (on_source_reset d q decimal unread src p).0
  handle (sorts column ascending) src p = (sort d q decimal unread column ascending src p).0
  handle (sorts_within on) src p = (set_sort_within_groups d q decimal unread on src p).0

  abbrev pub run :
      List (Event Num) → List (SourceRow Num) → GroupProxy → List (SourceRow Num) × GroupProxy
  run [] src p = (src, p)
  run (e ∷ es) src p = run es (rows_after e src) (handle e (rows_after e src) p)

  module _ (mode : ViewMode) (tree : is_flat mode ≡ false) where
    -- Events are about rows that are there, and tell of keys that change.
    abbrev pub IsPossible : Event Num → List (SourceRow Num) → Type 0
    IsPossible (inserted first new) src = first ≤ length src
    IsPossible (removed first n) src = (0 < n) × (first + n ≤ length src)
    IsPossible (changed maybe first new) src =
        (first + length new ≤ length src)
        × IsAnnounced d q decimal unread mode tree maybe src (change_rows first new src)
    IsPossible (reset src') src = Unit
    IsPossible (sorts column ascending) src = Unit
    IsPossible (sorts_within on) src = Unit

    abbrev pub ArePossible : List (Event Num) → List (SourceRow Num) → Type 0
    ArePossible [] src = Unit
    ArePossible (e ∷ es) src = IsPossible e src × ArePossible es (rows_after e src)

    pub handle-IsCurrent :
        (e : Event Num) (src : List (SourceRow Num)) (p : GroupProxy)
        → IsPossible e src
        → IsCurrent d q decimal unread mode tree src p
        → IsCurrent d q decimal unread mode tree (rows_after e src) (handle e (rows_after e src) p)
    unfolding on_source_reset
    handle-IsCurrent (inserted first new) src p h t =
        rows_inserted-IsCurrent d q decimal unread mode tree first new src p h t
    handle-IsCurrent (removed first n) src p h t =
        rows_removed-IsCurrent d q decimal unread mode tree first n src p h.0 h.1 t
    handle-IsCurrent (changed maybe first new) src p h t =
        data_changed-IsCurrent d q decimal unread mode tree maybe first new src p h.0 h.1 t
    handle-IsCurrent (reset src') src p h t =
        rebuild-IsCurrent d q decimal unread mode tree src' p t.kind
    handle-IsCurrent (sorts column ascending) src p h t =
        sort-IsCurrent d q decimal unread mode tree column ascending src p t
    handle-IsCurrent (sorts_within on) src p h t =
        set_sort_within_groups-IsCurrent d q decimal unread mode tree on src p t

    pub run-IsCurrent :
        (es : List (Event Num)) (src : List (SourceRow Num)) (p : GroupProxy)
        → ArePossible es src
        → IsCurrent d q decimal unread mode tree src p
        → let (src', p') = run es src p in IsCurrent d q decimal unread mode tree src' p'
    run-IsCurrent [] src p h t = t
    run-IsCurrent (e ∷ es) src p h t =
        run-IsCurrent es (rows_after e src) (handle e (rows_after e src) p) h.1
          (handle-IsCurrent e src p h.0 t)

    rows_of-IsCurrent :
        (src : List (SourceRow Num)) (p : GroupProxy) (k : Text) (r : ℕ)
        → IsCurrent d q decimal unread mode tree src p
        → count r (rows_of k p.groups) ≡ (
            if is_key k (key_of d q decimal unread mode tree src r)
            then (if ltb r (length src) then 1 else 0)
            else 0)
    rows_of-IsCurrent src p k r t =
        count-rows_of (key_of d q decimal unread mode tree src) r k p.groups t.placed.belonging
          (t.placed.distinct k)
        ∙ ap (λ (n : ℕ). if is_key k (key_of d q decimal unread mode tree src r) then n else 0)
            (t.placed.complete r)

    -- If a proxy in a grouped mode has rebuilt its groups, then after any insertions, removals and
    -- changes of rows that are there, resets, and sorts, the group of each key holds just the
    -- source rows that a rebuild would give it, as long as no key changes where a change is
    -- announced without the role of flows.
    pub run-rebuild :
        (es : List (Event Num)) (src : List (SourceRow Num)) (p : GroupProxy)
        → p.mode ≡ mode
        → ArePossible es src
        → let (src', p') = run es src (rebuild d q decimal unread src p) in
          (k : Text) (r : ℕ)
          → count r (rows_of k p'.groups)
            ≡ count r (rows_of k (rebuild d q decimal unread src' p').groups)
    run-rebuild es src p e h k r =
        let start = rebuild-IsCurrent d q decimal unread mode tree src p e in
        let (src', p') = run es src (rebuild d q decimal unread src p) in
        let now = run-IsCurrent es src (rebuild d q decimal unread src p) h start in
        rows_of-IsCurrent src' p' k r now
        ∙ sym (
            rows_of-IsCurrent src' (rebuild d q decimal unread src' p') k r
              (rebuild-IsCurrent d q decimal unread mode tree src' p' now.kind))
