-- ===== src/Grouping/Proxy/Rebuild.antt =====
-- Whatever a source announces, the groups are in the end those that a rebuild would make.
use qiftop.Common.{
  ℕ, ◌+◌, ◌-◌, ◌≤◌, ◌≡◌, refl, sym, ap, subst, inl, inr, Bool, true, false, List, [], ◌∷◌, Option,
  none, some, arith, ltb, if◌then◌else◌, ◌==◌, ==_iff, nat_eq, list_eq, length, All, Bool-cases,
}
use qiftop.Flow.Types.{Text, Connection}
use qiftop.Aggregate.Real.{Real}
use qiftop.Grouping.Keys.{ViewMode}
use qiftop.Grouping.Groups.{Group, layout_changes}
use qiftop.Grouping.Groups.Content.{count, total, key_count}
use qiftop.Grouping.Groups.Moves.{Belongs, IsPlaced-agree}
use qiftop.Grouping.Order.{Variants, Column, SourceRow}
use qiftop.Grouping.Source.{change_rows, length-change_rows, get_elem?-change_rows}
use qiftop.Grouping.Tree.{GroupProxy, is_flat, resort}
use qiftop.Grouping.Proxy.{
  flat_changes, regroup_rows, regroup_in_tree, change_in_tree, on_source_data_changed, sort,
  set_sort_within_groups,
}
use qiftop.Grouping.Proxy.Steps.{IsTree, key_option, key_of, resort-IsTree, regroup_rows-IsTree}
use qiftop.Grouping.Proxy.Current.{IsCurrent, key_at_lt, grouped, otherwise}

either : {A : Type 0} (P : A → Type 0) (b : Bool) (x y : A) → P x → P y → P (if b then x else y)
either P true x y h k = h
either P false x y h k = k

-- The rows of the group with a key.
pub rows_of : Text → List Group → List ℕ
rows_of k [] = []
rows_of k (g ∷ gs) = if g.key == k then g.src_rows else rows_of k gs

abbrev pub is_key : Text → Option Text → Bool
is_key k none = false
is_key k (some j) = j == k

is_key_other :
    (o : Option Text) (j k : Text) → is_key k o ≡ true → (j == k) ≡ false → is_key j o ≡ false
is_key_other none j k h e = refl
is_key_other (some x) j k h e = ground (arith, ==_iff x k, ==_iff x j, ==_iff j k)

count_elsewhere :
    (key : ℕ → Option Text) (r : ℕ) (k : Text) (xs : List ℕ)
    → All (λ x. key x ≡ some k) xs
    → is_key k (key r) ≡ false
    → count r xs ≡ 0
unfolding count
count_elsewhere key r k [] h e = refl
count_elsewhere key r k (x ∷ xs) h e = elim (Bool-cases (x == r)) [
  | inl hit ↦
      absurd (ground (arith, subst (λ y. key y ≡ some k) ((==_iff x r).0 hit) h.0, ==_iff k k))
  | inr miss ↦ rw miss (omega (arith, count_elsewhere key r k xs h.1 e))
]

total_elsewhere :
    (key : ℕ → Option Text) (r : ℕ) (k : Text) (gs : List Group)
    → All (Belongs key) gs
    → key_count k gs ≡ 0
    → is_key k (key r) ≡ true
    → total r gs ≡ 0
unfolding total key_count
total_elsewhere key r k [] h n e = refl
total_elsewhere key r k (g ∷ gs) h n e = elim (Bool-cases (g.key == k)) [
  | inl hit ↦ absurd (ground arith)
  | inr miss ↦
      let other : is_key g.key (key r) ≡ false = is_key_other (key r) g.key k e miss in
      omega (
        arith,
        count_elsewhere key r g.key g.src_rows h.0 other,
        total_elsewhere key r k gs h.1 (omega arith) e,
      )
]

-- The group of a row's key has all of that row, and the other groups nothing.
pub count-rows_of :
    (key : ℕ → Option Text) (r : ℕ) (k : Text) (gs : List Group)
    → All (Belongs key) gs
    → key_count k gs ≤ 1
    → count r (rows_of k gs) ≡ (if is_key k (key r) then total r gs else 0)
unfolding rows_of total key_count count
count-rows_of key r k [] h n = ground arith
count-rows_of key r k (g ∷ gs) h n = elim (Bool-cases (g.key == k)) [
  | inl hit ↦ elim (Bool-cases (is_key k (key r))) [
    | inl same ↦ rw (hit, same) (omega (arith, total_elsewhere key r k gs h.1 (ground arith) same))
    | inr other ↦
        rw (hit, other)
          (count_elsewhere key r g.key g.src_rows h.0 (rw ((==_iff g.key k).0 hit) other))
  ]
  | inr miss ↦
      let rest = count-rows_of key r k gs h.1 (ground arith) in
      elim (Bool-cases (is_key k (key r))) [
        | inl same ↦
            let nothing =
              count_elsewhere key r g.key g.src_rows h.0 (is_key_other (key r) g.key k same miss) in
            rw (miss, same) (omega (arith, rw same at rest, nothing))
        | inr other ↦ rw (miss, other) (rw other at rest)
      ]
]

module _ {Num : Type 0} (d : Real Num) (q : Variants Num) (decimal : ℕ → Text) (unread : Connection)
    (mode : ViewMode) (tree : is_flat mode ≡ false) where
  abbrev IsNow : List (SourceRow Num) → GroupProxy → Type 0
  IsNow = IsCurrent d q decimal unread mode tree

  abbrev keys : List (SourceRow Num) → ℕ → Option Text
  keys = key_of d q decimal unread mode tree

  pub regroup_in_tree-IsCurrent :
      (first : ℕ) (new src : List (SourceRow Num)) (p : GroupProxy)
      → first + length new ≤ length src
      → IsNow src p
      → let src' = change_rows first new src in
        IsNow src' (regroup_in_tree d q decimal unread first (length new) src' p).0
  unfolding regroup_in_tree
  regroup_in_tree-IsCurrent first new src p h t =
      let src' = change_rows first new src in
      let n = length new in
      let same = length-change_rows first new src h in
      let regrouped =
        regroup_rows-IsTree d q decimal unread mode tree src' (λ r. ltb r (length src)) n first
          (keys src) (keys src') p (λ x lo hi. ground arith)
          (λ x lo hi. key_at_lt d q decimal unread mode tree src' mode x refl (omega arith))
          (λ x outside.
            ap (key_option d q decimal unread mode tree)
              (get_elem?-change_rows first new src x outside))
          t in
      let now =
        subst
          (λ m.
            IsTree mode (keys src') (λ r. ltb r m)
              (regroup_rows d q decimal unread n first src' p).0)
          (sym same) regrouped in
      elim (Bool-cases (regroup_rows d q decimal unread n first src' p).1) [
        | inl moved ↦ rw moved (
            resort-IsTree d q decimal unread mode tree (keys src') (λ r. ltb r (length src')) src'
              (regroup_rows d q decimal unread n first src' p).0 now)
        | inr stayed ↦ rw stayed now
      ]

  -- Data that changed, where the keys did not or the roles say that they may have.
  abbrev pub IsAnnounced : Bool → List (SourceRow Num) → List (SourceRow Num) → Type 0
  IsAnnounced true src src' = Unit
  IsAnnounced false src src' = (r : ℕ) → keys src' r ≡ keys src r

  pub change_in_tree-IsCurrent :
      (maybe : Bool) (first : ℕ) (new src : List (SourceRow Num)) (p : GroupProxy)
      → first + length new ≤ length src
      → IsAnnounced maybe src (change_rows first new src)
      → IsNow src p
      → let src' = change_rows first new src in
        IsNow src' (change_in_tree d q decimal unread maybe first (length new) src' p).0
  unfolding change_in_tree
  change_in_tree-IsCurrent true first new src p h known t =
      regroup_in_tree-IsCurrent first new src p h t
  change_in_tree-IsCurrent false first new src p h known t =
      subst (λ m. IsTree mode (keys (change_rows first new src)) (λ r. ltb r m) p)
        (sym (length-change_rows first new src h))
        (record {
          kind = t.kind;
          placed = IsPlaced-agree t.placed (keys (change_rows first new src)) (λ r here. known r);
          inhabited = t.inhabited;
          indexed = t.indexed;
        })

  pub data_changed-IsCurrent :
      (maybe : Bool) (first : ℕ) (new src : List (SourceRow Num)) (p : GroupProxy)
      → first + length new ≤ length src
      → IsAnnounced maybe src (change_rows first new src)
      → IsNow src p
      → let src' = change_rows first new src in
        IsNow src' (on_source_data_changed d q decimal unread maybe first (length new) src' p).0
  unfolding on_source_data_changed
  data_changed-IsCurrent maybe first new src p h known t =
      let src' = change_rows first new src in
      otherwise (λ r. IsNow src' r.0) (is_flat p.mode)
        (p, flat_changes first (first + length new - 1) ∷ [])
        (change_in_tree d q decimal unread maybe first (length new) src' p)
        (grouped d q decimal unread mode tree p.mode t.kind)
        (change_in_tree-IsCurrent maybe first new src p h known t)

  with_order :
      (src : List (SourceRow Num)) (p : GroupProxy) (column : Option Column)
      (ascending within : Bool)
      → IsNow src p
      → IsNow src
          (record p { sort_column = column; ascending = ascending; sort_within_groups = within })
  with_order src p column ascending within t = record {
    kind = t.kind;
    placed = t.placed;
    inhabited = t.inhabited;
    indexed = t.indexed;
  }

  resort-IsCurrent :
      (src : List (SourceRow Num)) (p : GroupProxy)
      → IsNow src p
      → IsNow src (resort d q decimal unread src p).0
  resort-IsCurrent src p t =
      resort-IsTree d q decimal unread mode tree (keys src) (λ r. ltb r (length src)) src p t

  pub sort-IsCurrent :
      (column : Option Column) (ascending : Bool) (src : List (SourceRow Num)) (p : GroupProxy)
      → IsNow src p
      → IsNow src (sort d q decimal unread column ascending src p).0
  unfolding sort
  sort-IsCurrent column ascending src p t =
      let p' = record p { sort_column = column; ascending = ascending } in
      otherwise (λ r. IsNow src r.0) (is_flat p.mode) (p', layout_changes ∷ [])
        (resort d q decimal unread src p') (grouped d q decimal unread mode tree p.mode t.kind)
        (resort-IsCurrent src p' (with_order src p column ascending p.sort_within_groups t))

  pub set_sort_within_groups-IsCurrent :
      (on : Bool) (src : List (SourceRow Num)) (p : GroupProxy)
      → IsNow src p
      → IsNow src (set_sort_within_groups d q decimal unread on src p).0
  unfolding set_sort_within_groups
  set_sort_within_groups-IsCurrent true src p t =
      either (λ r. IsNow src r.0) p.sort_within_groups (p, [])
        (resort d q decimal unread src (record p { sort_within_groups = true })) t
        (resort-IsCurrent src (record p { sort_within_groups = true })
          (with_order src p p.sort_column p.ascending true t))
  set_sort_within_groups-IsCurrent false src p t =
      either (λ r. IsNow src r.0) p.sort_within_groups
        (resort d q decimal unread src (record p { sort_within_groups = false })) (p, [])
        (resort-IsCurrent src (record p { sort_within_groups = false })
          (with_order src p p.sort_column p.ascending false t))
        t
