-- ===== src/Grouping/View/Handlers.antt =====
-- src/ui/ConnectionGroupProxy.cpp: the signals of the sort, of rows that change groups, and of changes
-- that are passed on.
use qiftop.Common.{
  ℕ, zero, suc, ◌+◌, ◌≤◌, ◌<◌, ◌≡◌, refl, sym, ◌∙◌, ap, subst, inl, inr, Bool, true, false, not,
  ◌||◌, List, [], ◌∷◌, ◌++◌, Option, none, some, arith, if◌then◌else◌, ◌==◌, nat_eq, list_eq,
  length, All, Bool-cases,
}
use qiftop.Containers.Map.{find}
use qiftop.Flow.Types.{Text, Connection, is_empty}
use qiftop.Aggregate.Real.{Real}
use qiftop.Grouping.Keys.{ViewMode}
use qiftop.Grouping.Groups.{Group, Signal, holds, regroup_from}
use qiftop.Grouping.Groups.Position.{find-index_groups-locate}
use qiftop.Grouping.Order.{Variants, SourceRow}
use qiftop.Grouping.Tree.{
  GroupProxy, is_flat, orders_differ, refresh_src_index, sorted_by, key_at, label_at, resort,
}
use qiftop.Grouping.Proxy.{
  regroup_source_row, regroup_rows, forward_rows, parent_headers, forward_source_data_changed,
  change_of, parent_added,
}
use qiftop.Grouping.Proxy.Steps.{IsTree, regroup_source_row-IsTree}
use qiftop.Grouping.View.{shape, receive, Leads, Leads-append, Leads-header}
use qiftop.Grouping.View.Groups.{length-shape, size_at-shape, IsThere, locate-IsThere}
use qiftop.Grouping.View.Moves.{regroup_from-Leads}

Leads-parent_headers :
    (now s seen parents : List ℕ)
    → All (λ gi. gi < length s) parents
    → Leads now (parent_headers seen parents) s s
unfolding parent_headers
Leads-parent_headers now s seen [] h = refl
Leads-parent_headers now s seen (gi ∷ parents) h = elim (Bool-cases (holds gi seen)) [
  | inl again ↦ rw again (Leads-parent_headers now s seen parents h.1)
  | inr first ↦ rw first (
      Leads-header now gi (parent_headers (gi ∷ seen) parents) s s h.0
        (Leads-parent_headers now s (gi ∷ seen) parents h.1))
]

change_of-Leads :
    (now : List ℕ) (at : Option (ℕ × ℕ)) (gs : List Group) (xs : List Signal)
    → IsThere at gs
    → Leads now xs (shape gs) (shape gs)
    → Leads now (change_of at ++ xs) (shape gs) (shape gs)
unfolding receive
change_of-Leads now none gs xs h k = k
change_of-Leads now (some (gi, c)) gs xs h k =
    ground (arith, h.0, h.1, k, length-shape gs, size_at-shape gi gs)

parent_added-lt :
    (at : Option (ℕ × ℕ)) (gs : List Group) (parents : List ℕ)
    → IsThere at gs
    → All (λ gi. gi < length (shape gs)) parents
    → All (λ gi. gi < length (shape gs)) (parent_added at parents)
parent_added-lt none gs parents h k = k
parent_added-lt (some (gi, c)) gs parents h k = (omega (arith, h.0, length-shape gs), k)

forward_rows-Leads :
    (now : List ℕ) (n r : ℕ) (p : GroupProxy)
    → ((x : ℕ) → IsThere (find x p.src_index) p.groups)
    → let (signals, parents) = forward_rows n r p in
      Leads now signals (shape p.groups) (shape p.groups)
      × All (λ gi. gi < length (shape p.groups)) parents
unfolding forward_rows
forward_rows-Leads now zero r p h = (refl, tt)
forward_rows-Leads now (suc n) r p h =
    let at = find r p.src_index in
    let (signals, parents) = forward_rows n (r + 1) p in
    let (rest, below) = forward_rows-Leads now n (r + 1) p h in
    (
      change_of-Leads now at p.groups signals (h r) rest,
      parent_added-lt at p.groups parents (h r) below,
    )

pub forward-Leads :
    (now : List ℕ) (first n : ℕ) (p : GroupProxy)
    → ((x : ℕ) → IsThere (find x p.src_index) p.groups)
    → Leads now (forward_source_data_changed first n p) (shape p.groups) (shape p.groups)
unfolding forward_source_data_changed
forward-Leads now first n p h =
    let (signals, parents) = forward_rows n first p in
    let (rows, below) = forward_rows-Leads now n first p h in
    Leads-append now signals (parent_headers [] parents) (shape p.groups) (shape p.groups)
      (shape p.groups) rows (Leads-parent_headers now (shape p.groups) [] parents below)

module _ {Num : Type 0} (d : Real Num) (q : Variants Num) (decimal : ℕ → Text)
    (unread : Connection) where
  pub resort-Leads :
      (src : List (SourceRow Num)) (p : GroupProxy)
      → let (p', signals) = resort d q decimal unread src p in
        Leads (shape p'.groups) signals (shape p.groups) (shape p'.groups)
  unfolding resort receive
  resort-Leads src p =
      let sorted = sorted_by d q decimal unread p.sort_column src p in
      elim (Bool-cases
        (is_flat p.mode || (is_empty p.groups || not (orders_differ sorted p.groups)))) [
          | inl same ↦ rw same refl
          | inr differs ↦ rw differs refl
        ]

  regroup_source_row-Leads :
      (now : List ℕ) (r : ℕ) (src : List (SourceRow Num)) (p : GroupProxy)
      → IsThere (find r p.src_index) p.groups
      → let (p', moved, signals) = regroup_source_row d q decimal unread r src p in
        Leads now signals (shape p.groups) (shape p'.groups)
  unfolding regroup_source_row refresh_src_index
  regroup_source_row-Leads now r src p h =
      let k = key_at d q decimal unread p.mode src r in
      let label = label_at d q decimal unread p.mode src r in
      let (gs, moved, signals) = regroup_from (find r p.src_index) k label r p.groups in
      let done = regroup_from-Leads now (find r p.src_index) k label r p.groups h in
      elim (Bool-cases moved) [ inl goes ↦ rw goes done | inr stays ↦ rw stays done ]

module _ {Num : Type 0} (d : Real Num) (q : Variants Num) (decimal : ℕ → Text) (unread : Connection)
    (mode : ViewMode) (tree : is_flat mode ≡ false) where
  -- The reverse index of a tree gives places that are there.
  pub found-IsThere :
      (key : ℕ → Option Text) (present : ℕ → Bool) (p : GroupProxy) (r : ℕ)
      → IsTree mode key present p
      → IsThere (find r p.src_index) p.groups
  found-IsThere key present p r t =
      let here =
        ap (find r) t.indexed
        ∙ find-index_groups-locate r p.groups (ground (arith, t.placed.complete r)) in
      subst (λ o. IsThere o p.groups) (sym here) (locate-IsThere r p.groups)

  pub regroup_rows-Leads :
      (src : List (SourceRow Num)) (present : ℕ → Bool) (now : List ℕ) (n r : ℕ)
      (key key' : ℕ → Option Text) (p : GroupProxy)
      → ((x : ℕ) → r ≤ x → x < r + n → present x ≡ true)
      → ((x : ℕ) → r ≤ x → x < r + n → key' x ≡ some (key_at d q decimal unread mode src x))
      → IsTree mode key present p
      → let (p', moved, signals) = regroup_rows d q decimal unread n r src p in
        Leads now signals (shape p.groups) (shape p'.groups)
  unfolding regroup_rows
  regroup_rows-Leads src present now zero r key key' p known is_new t = refl
  regroup_rows-Leads src present now (suc n) r key key' p known is_new t =
      let middle : ℕ → Option Text = λ x. if r == x then key' r else key x in
      let step =
        regroup_source_row-IsTree d q decimal unread mode tree src present key middle r p
          (known r (omega arith) (omega arith))
          (ground (arith, is_new r (omega arith) (omega arith))) (λ x other. rw other refl) t in
      let (p', moved, signals) = regroup_source_row d q decimal unread r src p in
      let (p'', any, rest) = regroup_rows d q decimal unread n (r + 1) src p' in
      Leads-append now signals rest (shape p.groups) (shape p'.groups) (shape p''.groups)
        (regroup_source_row-Leads d q decimal unread now r src p (found-IsThere key present p r t))
        (regroup_rows-Leads src present now n (r + 1) middle key' p'
          (λ x lo hi. known x (omega arith) (omega arith))
          (λ x lo hi. is_new x (omega arith) (omega arith)) step)
