-- ===== src/Grouping/Proxy/Current.antt =====
-- In a grouped mode the tree is that of the source's rows, and stays so whatever the source announces.
use qiftop.Common.{
  ℕ, ◌+◌, ◌-◌, ◌≤◌, ◌<◌, ◌≡◌, ◌⊎◌, refl, sym, ◌∙◌, ap, subst, ltb→lt, inl, inr, Bool, true, false,
  not, ◌&&◌, List, [], ◌∷◌, Option, some, arith, ltb, leb, if◌then◌else◌, nat_eq, list_eq, length,
  get_elem?, Bool-cases,
}
use qiftop.Containers.Map.{find}
use qiftop.Flow.Types.{Text, Connection}
use qiftop.Aggregate.Real.{Real}
use qiftop.Grouping.Keys.{ViewMode}
use qiftop.Grouping.Groups.{
  find_group, shifted_up, shifted_down, renumber, place_rows, drop_emptied,
}
use qiftop.Grouping.Groups.Content.{total, key_count}
use qiftop.Grouping.Groups.Emptied.{
  Inhabited, Inhabited-renumber, Marks-none, drop_emptied-Inhabited,
}
use qiftop.Grouping.Groups.Moves.{IsPlaced, IsPlaced-up, IsPlaced-down, IsPlaced-present}
use qiftop.Grouping.Order.{Variants, SourceRow}
use qiftop.Grouping.Source.{
  insert_rows, drop_rows, length-insert_rows, get_elem?-insert_rows, length-drop_rows,
  get_elem?-drop_rows_before, get_elem?-drop_rows_after,
}
use qiftop.Grouping.Tree.{
  GroupProxy, is_flat, refresh_src_index, key_at, label_at, sorted_by, rebuild_tree, rebuild,
  rebuild_rows,
}
use qiftop.Grouping.Proxy.{
  flat_inserts, flat_removes, insert_in_tree, remove_in_tree, removal_of, on_source_rows_inserted,
  on_source_rows_removed,
}
use qiftop.Grouping.Proxy.Shrink.{remove_rows-IsPlaced, Marks-renumber, drop_emptied-IsPlaced}
use qiftop.Grouping.Proxy.Steps.{
  IsTree, key_option, key_of, key_of_lt, place_rows-IsPlaced, refresh-IsTree, resort-IsTree,
  sorted_by-IsPlaced, sorted_by-Inhabited,
}
use qiftop.Grouping.Proxy.Table.{rebuild_rows-place_rows}

pub otherwise :
    {A : Type 0} (P : A → Type 0) (b : Bool) (x y : A) → b ≡ false → P y → P (if b then x else y)
otherwise P b x y e h = rw e h

no_groups : (key : ℕ → Option Text) → IsPlaced key (λ x. false) []
unfolding total key_count
no_groups key = record { complete = λ x. refl; belonging = tt; distinct = λ k. omega arith }

agrees_none : (k : Text) → find {V = ℕ} k [] ≡ find_group k []
unfolding find find_group
agrees_none k = refl

-- A row that was there and is not among those that go.
apart :
    (first n r m : ℕ)
    → (not (leb first r && ltb r (first + n)) && ltb r m) ≡ true
    → (r < first) ⊎ (first + n ≤ r)
apart first n r m h = elim (Bool-cases (ltb r first)) [
  | inl below ↦ inl (ltb→lt r first below)
  | inr above ↦ inr (ground arith)
]

module _ {Num : Type 0} (d : Real Num) (q : Variants Num) (decimal : ℕ → Text) (unread : Connection)
    (mode : ViewMode) (tree : is_flat mode ≡ false) where
  -- Every row of the source stands once, in the group of its key; no two groups have one key and none
  -- is empty; the reverse index tells where a row stands.
  abbrev pub IsCurrent : List (SourceRow Num) → GroupProxy → Type 0
  IsCurrent src p =
      IsTree mode (key_of d q decimal unread mode tree src) (λ r. ltb r (length src)) p

  abbrev keys : List (SourceRow Num) → ℕ → Option Text
  keys = key_of d q decimal unread mode tree

  -- The key that a handler reads for a row.
  pub key_at_lt :
      (src : List (SourceRow Num)) (m : ViewMode) (x : ℕ)
      → m ≡ mode
      → x < length src
      → keys src x ≡ some (key_at d q decimal unread m src x)
  key_at_lt src m x e lt =
      key_of_lt d q decimal unread mode tree src x lt
      ∙ ap (λ k. some (key_at d q decimal unread k src x)) (sym e)

  pub grouped : (m : ViewMode) → m ≡ mode → is_flat m ≡ false
  grouped m e = ap is_flat e ∙ tree

  rebuild_tree-IsCurrent :
      (src : List (SourceRow Num)) (p : GroupProxy)
      → p.mode ≡ mode
      → IsCurrent src (rebuild_tree d q decimal unread src p)
  unfolding rebuild_tree
  rebuild_tree-IsCurrent src p e =
      let key = key_at d q decimal unread p.mode src in
      let label = label_at d q decimal unread p.mode src in
      let gs = rebuild_rows key label (length src) 0 [] [] in
      let empty : IsPlaced (keys src) (λ x. false) [] = no_groups (keys src) in
      let built =
        place_rows-IsPlaced key label (keys src) (λ x. false) (length src) 0 []
          (λ x lo hi. key_at_lt src p.mode x e (omega arith)) (λ x lo hi. refl) empty tt in
      let same = rebuild_rows-place_rows key label (length src) 0 [] [] (λ k. agrees_none k) in
      let placed = IsPlaced-present built.0 (λ r. ltb r (length src)) (λ x. ground arith) in
      let placed' = subst (IsPlaced (keys src) (λ r. ltb r (length src))) (sym same) placed in
      let full = subst Inhabited (sym same) built.1 in
      let made = record p { groups = gs } in
      refresh-IsTree d q decimal unread mode tree (keys src) (λ r. ltb r (length src))
        (record p { groups = sorted_by d q decimal unread p.sort_column src made }) e
        (sorted_by-IsPlaced d q decimal unread mode tree p.sort_column src made (keys src)
          (λ r. ltb r (length src)) placed')
        (sorted_by-Inhabited d q decimal unread mode tree p.sort_column src made full)

  pub rebuild-IsCurrent :
      (src : List (SourceRow Num)) (p : GroupProxy)
      → p.mode ≡ mode
      → IsCurrent src (rebuild d q decimal unread src p)
  unfolding rebuild
  rebuild-IsCurrent src p e =
      otherwise (IsCurrent src) (is_flat p.mode) (record p { groups = []; src_index = [] })
        (rebuild_tree d q decimal unread src p) (grouped p.mode e) (rebuild_tree-IsCurrent src p e)

  insert_in_tree-IsCurrent :
      (first : ℕ) (new src : List (SourceRow Num)) (p : GroupProxy)
      → first ≤ length src
      → IsCurrent src p
      → let src' = insert_rows first new src in
        IsCurrent src' (insert_in_tree d q decimal unread first (length new) src' p).0
  unfolding insert_in_tree
  insert_in_tree-IsCurrent first new src p h t =
      let src' = insert_rows first new src in
      let n = length new in
      let key = key_at d q decimal unread p.mode src' in
      let label = label_at d q decimal unread p.mode src' in
      let longer = length-insert_rows first new src in
      let shifted = renumber (shifted_up first n) p.groups in
      let up = IsPlaced-up t.placed first n (keys src') (λ r.
        ap (key_option d q decimal unread mode tree) (get_elem?-insert_rows first new src r h)) in
      let built =
        place_rows-IsPlaced key label (keys src')
          (λ x.
            if ltb x first
            then ltb x (length src)
            else if ltb x (first + n)
            then false
            else ltb (x - n) (length src))
          n first shifted (λ x lo hi. key_at_lt src' p.mode x t.kind (omega arith))
          (λ x lo hi. ground arith) up
          (Inhabited-renumber (shifted_up first n) p.groups t.inhabited) in
      let gs = (place_rows key label n first shifted).0 in
      let placed = IsPlaced-present built.0 (λ r. ltb r (length src')) (λ x. ground arith) in
      let made = record p { groups = gs } in
      resort-IsTree d q decimal unread mode tree (keys src') (λ r. ltb r (length src')) src'
        (refresh_src_index made)
        (refresh-IsTree d q decimal unread mode tree (keys src') (λ r. ltb r (length src')) made
          t.kind placed built.1)

  pub rows_inserted-IsCurrent :
      (first : ℕ) (new src : List (SourceRow Num)) (p : GroupProxy)
      → first ≤ length src
      → IsCurrent src p
      → let src' = insert_rows first new src in
        IsCurrent src' (on_source_rows_inserted d q decimal unread first (length new) src' p).0
  unfolding on_source_rows_inserted
  rows_inserted-IsCurrent first new src p h t =
      let src' = insert_rows first new src in
      otherwise (λ r. IsCurrent src' r.0) (is_flat p.mode)
        (p, flat_inserts first (first + length new - 1) ∷ [])
        (insert_in_tree d q decimal unread first (length new) src' p) (grouped p.mode t.kind)
        (insert_in_tree-IsCurrent first new src p h t)

  kept_key :
      (first n : ℕ) (src : List (SourceRow Num)) (r : ℕ)
      → 0 < n
      → (r < first) ⊎ (first + n ≤ r)
      → get_elem? (drop_rows first n src) (shifted_down (first + n - 1) n r) ≡ get_elem? src r
  kept_key first n src r pos (inl below) =
      ap (get_elem? (drop_rows first n src)) (ground arith)
      ∙ get_elem?-drop_rows_before first n src r below
  kept_key first n src r pos (inr above) =
      ap (get_elem? (drop_rows first n src)) (ground arith)
      ∙ get_elem?-drop_rows_after first n src (r - n) (omega arith)
      ∙ ap (get_elem? src) (omega arith)

  remove_in_tree-IsCurrent :
      (first n : ℕ) (src : List (SourceRow Num)) (p : GroupProxy)
      → 0 < n
      → first + n ≤ length src
      → IsCurrent src p
      → let src' = drop_rows first n src in
        IsCurrent src' (remove_in_tree d q decimal unread first n src' p).0
  unfolding remove_in_tree
  remove_in_tree-IsCurrent first n src p pos h t =
      let src' = drop_rows first n src in
      let last = first + n - 1 in
      let st = removal_of first n p.groups in
      let shorter = length-drop_rows first n src h in
      let taken =
        remove_rows-IsPlaced (keys src) (λ r. ltb r (length src)) n first
          (record { groups = p.groups; emptied = []; touched = []; signals = [] })
          (λ x lo hi. ground arith) t.placed (Marks-none 0 p.groups t.inhabited) in
      let down =
        IsPlaced-down taken.0 first last n (keys src') (omega arith) (λ r lo hi. ground arith)
          (λ r here.
            ap (key_option d q decimal unread mode tree)
              (kept_key first n src r pos (apart first n r (length src) here))) in
      let marks = Marks-renumber (shifted_down last n) st.emptied 0 st.groups taken.1 in
      let shifted = renumber (shifted_down last n) st.groups in
      let gs = (drop_emptied st.emptied 0 shifted).0 in
      let placed =
        IsPlaced-present (drop_emptied-IsPlaced _ _ st.emptied shifted marks down)
          (λ r. ltb r (length src')) (λ x. ground arith) in
      let made = record p { groups = gs } in
      resort-IsTree d q decimal unread mode tree (keys src') (λ r. ltb r (length src')) src'
        (refresh_src_index made)
        (refresh-IsTree d q decimal unread mode tree (keys src') (λ r. ltb r (length src')) made
          t.kind placed (drop_emptied-Inhabited st.emptied 0 shifted marks))

  pub rows_removed-IsCurrent :
      (first n : ℕ) (src : List (SourceRow Num)) (p : GroupProxy)
      → 0 < n
      → first + n ≤ length src
      → IsCurrent src p
      → let src' = drop_rows first n src in
        IsCurrent src' (on_source_rows_removed d q decimal unread first n src' p).0
  unfolding on_source_rows_removed
  rows_removed-IsCurrent first n src p pos h t =
      let src' = drop_rows first n src in
      otherwise (λ r. IsCurrent src' r.0) (is_flat p.mode)
        (p, flat_removes first (first + n - 1) ∷ [])
        (remove_in_tree d q decimal unread first n src' p) (grouped p.mode t.kind)
        (remove_in_tree-IsCurrent first n src p pos h t)
