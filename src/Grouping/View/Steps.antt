-- ===== src/Grouping/View/Steps.antt =====
-- src/ui/ConnectionGroupProxy.cpp: what each handler emits leads a view from its tree to the next.
use qiftop.Common.{
  ℕ, ◌+◌, ◌-◌, ◌≤◌, ◌≡◌, refl, sym, ◌∙◌, ap, subst, inl, inr, Bool, true, false, List, [], ◌∷◌,
  ◌++◌, Option, none, some, arith, ltb, length, Bool-cases, Option-cases,
}
use qiftop.Flow.Types.{Text, Connection}
use qiftop.Aggregate.Real.{Real}
use qiftop.Grouping.Keys.{ViewMode}
use qiftop.Grouping.Groups.{
  Signal, place_rows, renumber, shifted_up, shifted_down, drop_emptied, headers_of,
}
use qiftop.Grouping.Order.{Variants, SourceRow}
use qiftop.Grouping.Source.{change_rows, length-change_rows}
use qiftop.Grouping.Tree.{GroupProxy, is_flat, key_at, label_at, refresh_src_index, resort}
use qiftop.Grouping.Proxy.{
  Emission, resets, flat_inserts, flat_removes, flat_changes, emitted, removal_of, insert_in_tree,
  remove_in_tree, regroup_rows, regroup_in_tree, change_in_tree, forward_source_data_changed,
  set_sort_within_groups,
}
use qiftop.Grouping.Proxy.Steps.{key_of}
use qiftop.Grouping.Proxy.Current.{IsCurrent, key_at_lt}
use qiftop.Grouping.Proxy.Rebuild.{IsAnnounced, change_in_tree-IsCurrent}
use qiftop.Grouping.View.{shape, receive, and_then, receive_all, Leads, Leads-append}
use qiftop.Grouping.View.Groups.{length-shape, place_rows-Leads, shape-renumber, remove_rows-Leads}
use qiftop.Grouping.View.Moves.{drop_emptied-Leads, headers_of-Leads}
use qiftop.Grouping.View.Handlers.{forward-Leads, found-IsThere, resort-Leads, regroup_rows-Leads}

-- A view of groups after what the proxy emits; it reads the model again after a reset, and knows
-- nothing of rows that stand in no group.
pub received : List ℕ → List Emission → List ℕ → Option (List ℕ)
unfolding receive
received now [] s = some s
received now (Emission.tree x ∷ xs) s = and_then (received now xs) (receive now x s)
received now (resets ∷ xs) s = received now xs now
received now (flat_inserts first last ∷ xs) s = none
received now (flat_removes first last ∷ xs) s = none
received now (flat_changes first last ∷ xs) s = none

received-emitted :
    (now : List ℕ) (xs : List Signal) (s t : List ℕ)
    → Leads now xs s t
    → received now (emitted xs) s ≡ some t
unfolding received
received-emitted now [] s t h = h
received-emitted now (x ∷ xs) s t h = elim (Option-cases (receive now x s)) [
  | inl lost ↦ ground (arith, h, lost)
  | inr (s', here) ↦
      rw here (received-emitted now xs s' t (ap (and_then (receive_all now xs)) (sym here) ∙ h))
]

-- From a proxy and to one, with what was emitted.
abbrev pub Follows : GroupProxy → GroupProxy × List Emission → Type 0
Follows p after =
    received (shape after.0.groups) after.1 (shape p.groups) ≡ some (shape after.0.groups)

pub resets-Follows : (p after : GroupProxy) → Follows p (after, resets ∷ [])
unfolding received
resets-Follows p after = refl

module _ {Num : Type 0} (d : Real Num) (q : Variants Num) (decimal : ℕ → Text)
    (unread : Connection) where
  -- Signals that lead to the groups before the last sort, and those of that sort.
  then_resort :
      (src : List (SourceRow Num)) (p made : GroupProxy) (xs : List Signal)
      → let (p', order) = resort d q decimal unread src made in
        Leads (shape p'.groups) xs (shape p.groups) (shape made.groups)
        → Follows p (p', emitted (xs ++ order))
  then_resort src p made xs h =
      let (p', order) = resort d q decimal unread src made in
      let now = shape p'.groups in
      received-emitted now (xs ++ order) (shape p.groups) now (
        Leads-append now xs order (shape p.groups) (shape made.groups) now h
          (resort-Leads d q decimal unread src made))

  pub insert_in_tree-Follows :
      (first n : ℕ) (src : List (SourceRow Num)) (p : GroupProxy)
      → Follows p (insert_in_tree d q decimal unread first n src p)
  unfolding insert_in_tree refresh_src_index
  insert_in_tree-Follows first n src p =
      let keys = key_at d q decimal unread p.mode src in
      let labels = label_at d q decimal unread p.mode src in
      let shifted = renumber (shifted_up first n) p.groups in
      let (gs, signals) = place_rows keys labels n first shifted in
      let made = refresh_src_index (record p { groups = gs }) in
      let now = shape (resort d q decimal unread src made).0.groups in
      then_resort src p made signals (
        subst (λ s. Leads now signals s (shape gs)) (shape-renumber (shifted_up first n) p.groups)
          (place_rows-Leads now keys labels n first shifted))

  pub remove_in_tree-Follows :
      (first n : ℕ) (src : List (SourceRow Num)) (p : GroupProxy)
      → Follows p (remove_in_tree d q decimal unread first n src p)
  unfolding remove_in_tree refresh_src_index
  remove_in_tree-Follows first n src p =
      let st = removal_of first n p.groups in
      let shifted = renumber (shifted_down (first + n - 1) n) st.groups in
      let (gs, dropped) = drop_emptied st.emptied 0 shifted in
      let headers = headers_of st.touched 0 gs in
      let made = refresh_src_index (record p { groups = gs }) in
      let order = (resort d q decimal unread src made).1 in
      let now = shape (resort d q decimal unread src made).0.groups in
      let taken =
        remove_rows-Leads now (shape p.groups) n first
          (record { groups = p.groups; emptied = []; touched = []; signals = [] }) refl in
      let taken' =
        subst (Leads now st.signals (shape p.groups))
          (sym (shape-renumber (shifted_down (first + n - 1) n) st.groups)) taken in
      let gone = drop_emptied-Leads now [] st.emptied 0 shifted refl in
      let shown =
        headers_of-Leads now (shape gs) st.touched 0 gs (omega (arith, length-shape gs)) in
      received-emitted now (st.signals ++ (dropped ++ (headers ++ order))) (shape p.groups) now (
        Leads-append now st.signals (dropped ++ (headers ++ order)) (shape p.groups) (shape shifted)
          now taken'
          (Leads-append now dropped (headers ++ order) (shape shifted) (shape gs) now gone (
            Leads-append now headers order (shape gs) (shape gs) now shown
              (resort-Leads d q decimal unread src made))))

  pub resort-Follows :
      (src : List (SourceRow Num)) (p : GroupProxy)
      → let (p', signals) = resort d q decimal unread src p in Follows p (p', emitted signals)
  resort-Follows src p =
      let (p', signals) = resort d q decimal unread src p in
      received-emitted (shape p'.groups) signals (shape p.groups) (shape p'.groups)
        (resort-Leads d q decimal unread src p)

  pub sorts_within-Follows :
      (on : Bool) (src : List (SourceRow Num)) (p : GroupProxy)
      → let (p', signals) = set_sort_within_groups d q decimal unread on src p in
        Follows p (p', emitted signals)
  unfolding set_sort_within_groups received
  sorts_within-Follows true src p = elim (Bool-cases p.sort_within_groups) [
    | inl already ↦ rw already refl
    | inr changes ↦ rw changes (resort-Follows src (record p { sort_within_groups = true }))
  ]
  sorts_within-Follows false src p = elim (Bool-cases p.sort_within_groups) [
    | inl changes ↦ rw changes (resort-Follows src (record p { sort_within_groups = false }))
    | inr already ↦ rw already refl
  ]

  module _ (mode : ViewMode) (tree : is_flat mode ≡ false) where
    regroup_in_tree-Leads :
        (first : ℕ) (new src : List (SourceRow Num)) (p : GroupProxy)
        → first + length new ≤ length src
        → IsCurrent d q decimal unread mode tree src p
        → let (p', signals) =
            regroup_in_tree d q decimal unread first (length new) (change_rows first new src) p in
          Leads (shape p'.groups) signals (shape p.groups) (shape p'.groups)
    unfolding regroup_in_tree
    regroup_in_tree-Leads first new src p h t =
        let src' = change_rows first new src in
        let same = length-change_rows first new src h in
        let (made, moved, signals) = regroup_rows d q decimal unread (length new) first src' p in
        let order = (resort d q decimal unread src' made).1 in
        let after = shape (resort d q decimal unread src' made).0.groups in
        let leads : (now : List ℕ) → Leads now signals (shape p.groups) (shape made.groups) = λ now.
          regroup_rows-Leads d q decimal unread mode tree src' (λ r. ltb r (length src)) now
            (length new) first (key_of d q decimal unread mode tree src)
            (key_of d q decimal unread mode tree src') p (λ x lo hi. ground arith)
            (λ x lo hi. key_at_lt d q decimal unread mode tree src' mode x refl (omega arith)) t in
        elim (Bool-cases moved) [
          | inl some_moved ↦ rw some_moved (
              Leads-append after signals order (shape p.groups) (shape made.groups) after
                (leads after) (resort-Leads d q decimal unread src' made))
          | inr all_stayed ↦ rw all_stayed (leads (shape made.groups))
        ]

    forwarded :
        (first n : ℕ) (src : List (SourceRow Num)) (p after : GroupProxy) (signals : List Signal)
        → IsCurrent d q decimal unread mode tree src after
        → Leads (shape after.groups) signals (shape p.groups) (shape after.groups)
        → Follows p (after, emitted (signals ++ forward_source_data_changed first n after))
    forwarded first n src p after signals t h =
        let now = shape after.groups in
        let rows = forward_source_data_changed first n after in
        received-emitted now (signals ++ rows) (shape p.groups) now (
          Leads-append now signals rows (shape p.groups) now now h (
            forward-Leads now first n after (λ x.
              found-IsThere d q decimal unread mode tree (key_of d q decimal unread mode tree src)
                (λ r. ltb r (length src)) after x t)))

    pub change_in_tree-Follows :
        (maybe : Bool) (first : ℕ) (new src : List (SourceRow Num)) (p : GroupProxy)
        → first + length new ≤ length src
        → IsAnnounced d q decimal unread mode tree maybe src (change_rows first new src)
        → IsCurrent d q decimal unread mode tree src p
        → Follows p (
            change_in_tree d q decimal unread maybe first
              (length new)
              (change_rows first new src)
              p)
    unfolding change_in_tree
    change_in_tree-Follows true first new src p h known t =
        let src' = change_rows first new src in
        let (after, signals) = regroup_in_tree d q decimal unread first (length new) src' p in
        forwarded first (length new) src' p after signals
          (change_in_tree-IsCurrent d q decimal unread mode tree true first new src p h known t)
          (regroup_in_tree-Leads first new src p h t)
    change_in_tree-Follows false first new src p h known t =
        forwarded first (length new) (change_rows first new src) p p []
          (change_in_tree-IsCurrent d q decimal unread mode tree false first new src p h known t)
          refl
