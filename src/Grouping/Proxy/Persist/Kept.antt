-- ===== src/Grouping/Proxy/Persist/Kept.antt =====
-- What a persistent index stands for before and after a sort.
use qiftop.Common.{
  ℕ, zero, suc, ◌<◌, ◌≡◌, refl, sym, ◌∙◌, ap, subst, inl, inr, true, false, not, ◌||◌, List, [],
  ◌∷◌, Option, none, some, arith, ltb, nat_eq, list_eq, length, get_elem?, Bool-cases, Option-cases,
}
use qiftop.Containers.Map.{find}
use qiftop.Flow.Types.{Text, Connection, is_empty}
use qiftop.Aggregate.Real.{Real}
use qiftop.Grouping.Keys.{ViewMode}
use qiftop.Grouping.Groups.{Group, locate}
use qiftop.Grouping.Groups.Content.{key_count, locate-none}
use qiftop.Grouping.Groups.Moves.{Belongs}
use qiftop.Grouping.Groups.Position.{find-index_groups-locate}
use qiftop.Grouping.Order.{Variants, Column, SourceRow}
use qiftop.Grouping.Order.Kept.{key_count-sort_groups}
use qiftop.Grouping.Tree.{GroupProxy, is_flat, orders_differ, sorted_by, resort, refresh_src_index}
use qiftop.Grouping.Proxy.Steps.{key_of, resort-IsTree}
use qiftop.Grouping.Proxy.Current.{IsCurrent, grouped, otherwise}
use qiftop.Grouping.Proxy.Mapping.{ModelIndex, invalid, top, child, row_in, map_to_source}
use qiftop.Grouping.Proxy.Mapping.Back.{locate-row_in}
use qiftop.Grouping.Proxy.Persist.{identity_of, index_keys, remapped, resort_index}
use qiftop.Grouping.Proxy.Persist.Table.{
  find_known, key_count-get_elem?, All-get_elem?, first_of, is_empty-group_key_for,
}

module _ {Num : Type 0} (d : Real Num) (q : Variants Num) (decimal : ℕ → Text) (unread : Connection)
    (mode : ViewMode) (tree : is_flat mode ≡ false) where
  abbrev keys : List (SourceRow Num) → ℕ → Option Text
  keys = key_of d q decimal unread mode tree

  -- A row that has a key is there, and the key is not empty.
  keys-some :
      (src : List (SourceRow Num)) (r : ℕ) (k : Text)
      → keys src r ≡ some k
      → (r < length src) × (is_empty k ≡ false)
  keys-some [] r k h = cc
  keys-some (s ∷ src) zero k h =
      let full = is_empty-group_key_for decimal mode s.connection tree in
      (omega arith, subst (λ j. is_empty j ≡ false) (cc) full)
  keys-some (s ∷ src) (suc r) k h = let (lt, full) = keys-some src r k h in (omega arith, full)

  row_key :
      (src : List (SourceRow Num)) (p : GroupProxy) (gi c r : ℕ) (g : Group)
      → IsCurrent d q decimal unread mode tree src p
      → get_elem? p.groups gi ≡ some g
      → get_elem? g.src_rows c ≡ some r
      → keys src r ≡ some g.key
  row_key src p gi c r g t at here =
      All-get_elem? (λ x. keys src x ≡ some g.key) g.src_rows c r here
        (All-get_elem? (Belongs (keys src)) p.groups gi g at t.placed.belonging)

  group_key :
      (src : List (SourceRow Num)) (p : GroupProxy) (gi : ℕ) (g : Group)
      → IsCurrent d q decimal unread mode tree src p
      → get_elem? p.groups gi ≡ some g
      → is_empty g.key ≡ false
  group_key src p gi g t at =
      let full = All-get_elem? (λ x. is_empty x.src_rows ≡ false) p.groups gi g at t.inhabited in
      let (r, here) = first_of g.src_rows full in
      (keys-some src r g.key (row_key src p gi 0 r g t at here)).1

  key_count-sorted_by :
      (column : Option Column) (k : Text) (src : List (SourceRow Num)) (p : GroupProxy)
      → key_count k (sorted_by d q decimal unread column src p) ≡ key_count k p.groups
  key_count-sorted_by none k src p = refl
  key_count-sorted_by (some col) k src p =
      key_count-sort_groups d q src col p.ascending p.sort_within_groups k p.groups

  remapped_child :
      (src : List (SourceRow Num)) (p p' : GroupProxy) (n columns gi c r column : ℕ) (g : Group)
      → IsCurrent d q decimal unread mode tree src p
      → IsCurrent d q decimal unread mode tree src p'
      → key_count g.key p'.groups ≡ key_count g.key p.groups
      → get_elem? p.groups gi ≡ some g
      → get_elem? g.src_rows c ≡ some r
      → (gi' : ℕ) × (c' : ℕ) × (remapped
            (index_keys 0 p'.groups [])
            p'.src_index
            (identity_of p.groups (child gi c column))
          ≡ child gi' c' column)
        × (row_in (get_elem? p'.groups gi') c' ≡ some r)
  unfolding identity_of remapped
  remapped_child src p p' n columns gi c r column g t t' same at here =
      let key = row_key src p gi c r g t at here in
      let (lt, full) = keys-some src r g.key key in
      let (j, h, found, there, named) =
        find_known g.key p'.groups (omega (arith, same, key_count-get_elem? p.groups gi g at)) in
      elim (Option-cases (locate r p'.groups)) [
        | inl nowhere ↦
            absurd (ground (arith, locate-none r p'.groups nowhere, t'.placed.complete r))
        | inr ((gi', c'), known) ↦
            let stands =
              ap (find r) t'.indexed
              ∙ find-index_groups-locate r p'.groups (ground (arith, t'.placed.complete r))
              ∙ known in
            (
              gi',
              c',
              rw (at, here, full, found, stands) refl,
              locate-row_in r gi' c' p'.groups known,
            )
      ]

  remapped_top :
      (src : List (SourceRow Num)) (p p' : GroupProxy) (gi column : ℕ) (g : Group)
      → IsCurrent d q decimal unread mode tree src p
      → key_count g.key p'.groups ≡ key_count g.key p.groups
      → get_elem? p.groups gi ≡ some g
      → (gi' : ℕ) × (g' : Group) × (remapped
            (index_keys 0 p'.groups [])
            p'.src_index
            (identity_of p.groups (top gi column))
          ≡ top gi' column)
        × (get_elem? p'.groups gi' ≡ some g')
        × (g'.key ≡ g.key)
  unfolding identity_of remapped
  remapped_top src p p' gi column g t same at =
      let full = group_key src p gi g t at in
      let (j, h, found, there, named) =
        find_known g.key p'.groups (omega (arith, same, key_count-get_elem? p.groups gi g at)) in
      (j, h, rw (at, full, found) refl, there, named)

  -- The key of the group that an index at the top level shows.
  abbrev key_option : Option Group → Option Text
  key_option none = none
  key_option (some g) = some g.key

  abbrev pub shown_key : GroupProxy → ModelIndex → Option Text
  shown_key p invalid = none
  shown_key p (top gi column) = key_option (get_elem? p.groups gi)
  shown_key p (child gi row column) = none

  abbrev Keeps : ℕ → ℕ → GroupProxy → GroupProxy → ModelIndex → ModelIndex → Type 0
  Keeps n columns p p' i i' =
      (map_to_source n columns p' i' ≡ map_to_source n columns p i)
      × (shown_key p' i' ≡ shown_key p i)

  remapped-Keeps :
      (src : List (SourceRow Num)) (p p' : GroupProxy) (n columns : ℕ) (i : ModelIndex)
      → IsCurrent d q decimal unread mode tree src p
      → IsCurrent d q decimal unread mode tree src p'
      → ((k : Text) → key_count k p'.groups ≡ key_count k p.groups)
      → Keeps n columns p p' i
          (remapped (index_keys 0 p'.groups []) p'.src_index (identity_of p.groups i))
  unfolding map_to_source identity_of remapped
  remapped-Keeps src p p' n columns invalid t t' same = (refl, refl)
  remapped-Keeps src p p' n columns (top gi column) t t' same =
      elim (Option-cases (get_elem? p.groups gi)) [
        | inl nothing ↦
            rw (nothing, grouped d q decimal unread mode tree p.mode t.kind) (refl, refl)
        | inr (g, at) ↦
            let (gi', g', eq, there, named) = remapped_top src p p' gi column g t (same g.key) at in
            let kind = grouped d q decimal unread mode tree p.mode t.kind in
            let kind' = grouped d q decimal unread mode tree p'.mode t'.kind in
            subst (Keeps n columns p p' (top gi column)) (sym eq)
              (rw (kind, kind', there, at) (refl, ap some named))
      ]
  remapped-Keeps src p p' n columns (child gi c column) t t' same =
      elim (Option-cases (get_elem? p.groups gi)) [
        | inl nothing ↦
            rw (nothing, grouped d q decimal unread mode tree p.mode t.kind) (refl, refl)
        | inr (g, at) ↦ elim (Option-cases (get_elem? g.src_rows c)) [
          | inl empty ↦
              rw (at, empty, grouped d q decimal unread mode tree p.mode t.kind) (refl, refl)
          | inr (r, here) ↦
              let (gi', c', eq, there) =
                remapped_child src p p' n columns gi c r column g t t' (same g.key) at here in
              let kind = grouped d q decimal unread mode tree p.mode t.kind in
              let kind' = grouped d q decimal unread mode tree p'.mode t'.kind in
              subst (Keeps n columns p p' (child gi c column)) (sym eq)
                (rw (kind, kind', there, at, here) (refl, refl))
        ]
      ]

  key_count-resort :
      (k : Text) (src : List (SourceRow Num)) (p : GroupProxy)
      → key_count k (resort d q decimal unread src p).0.groups ≡ key_count k p.groups
  unfolding resort refresh_src_index
  key_count-resort k src p =
      let sorted = sorted_by d q decimal unread p.sort_column src p in
      elim (Bool-cases
        (is_flat p.mode || (is_empty p.groups || not (orders_differ sorted p.groups)))) [
          | inl same ↦ rw same refl
          | inr differs ↦ rw differs (key_count-sorted_by p.sort_column k src p)
        ]

  resort-Keeps_same :
      (src : List (SourceRow Num)) (p : GroupProxy) (n columns : ℕ) (i : ModelIndex)
      → (is_flat p.mode
          || (is_empty p.groups
              || not (orders_differ (sorted_by d q decimal unread p.sort_column src p) p.groups)))
        ≡ true
      → Keeps n columns p
          (resort d q decimal unread src p).0
          i
          (resort_index d q decimal unread src p i)
  unfolding resort resort_index
  resort-Keeps_same src p n columns i same = rw same (refl, refl)

  resort-Keeps_differs :
      (src : List (SourceRow Num)) (p : GroupProxy) (n columns : ℕ) (i : ModelIndex)
      → (is_flat p.mode
          || (is_empty p.groups
              || not (orders_differ (sorted_by d q decimal unread p.sort_column src p) p.groups)))
        ≡ false
      → let p' = (resort d q decimal unread src p).0 in
        Keeps n columns p p' i
          (remapped (index_keys 0 p'.groups []) p'.src_index (identity_of p.groups i))
        → Keeps n columns p p' i (resort_index d q decimal unread src p i)
  unfolding resort_index
  resort-Keeps_differs src p n columns i differs =
      let p' = (resort d q decimal unread src p).0 in
      let sorted = sorted_by d q decimal unread p.sort_column src p in
      otherwise (Keeps n columns p p' i)
        (is_flat p.mode || (is_empty p.groups || not (orders_differ sorted p.groups))) i
        (remapped (index_keys 0 p'.groups []) p'.src_index (identity_of p.groups i)) differs

  -- If each row of the source stands once in the tree, in the group of its key, no group is empty
  -- or has the key of another, and the reverse index gives the places, then a sort takes each
  -- persistent index to one that stands for the same row of the source, or to the group with the
  -- same key.
  pub resort-resort_index :
      (src : List (SourceRow Num)) (p : GroupProxy) (n columns : ℕ) (i : ModelIndex)
      → IsCurrent d q decimal unread mode tree src p
      → let p' = (resort d q decimal unread src p).0 in
        let i' = resort_index d q decimal unread src p i in
        (map_to_source n columns p' i' ≡ map_to_source n columns p i)
        × (shown_key p' i' ≡ shown_key p i)
  resort-resort_index src p n columns i t =
      let sorted = sorted_by d q decimal unread p.sort_column src p in
      let p' = (resort d q decimal unread src p).0 in
      elim (Bool-cases
        (is_flat p.mode || (is_empty p.groups || not (orders_differ sorted p.groups)))) [
          | inl same ↦ resort-Keeps_same src p n columns i same
          | inr differs ↦ resort-Keeps_differs src p n columns i differs (
              remapped-Keeps src p p' n columns i t
                (resort-IsTree d q decimal unread mode tree (keys src) (λ r. ltb r (length src)) src
                  p t)
                (λ k. key_count-resort k src p))
        ]
