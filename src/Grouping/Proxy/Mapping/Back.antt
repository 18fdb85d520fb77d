-- ===== src/Grouping/Proxy/Mapping/Back.antt =====
-- From the source to the tree and back.
use qiftop.Common.{
  ℕ, zero, suc, ◌<◌, ◌≡◌, refl, sym, ◌∙◌, ap, inl, inr, false, List, [], ◌∷◌, Option, none, some,
  arith, lt→ltb, ◌==◌, ==_iff, nat_eq, length, get_elem?, Bool-cases, Option-cases,
}
use qiftop.Containers.Map.{find}
use qiftop.Flow.Types.{Text, Connection}
use qiftop.Aggregate.Real.{Real}
use qiftop.Grouping.Keys.{ViewMode}
use qiftop.Grouping.Groups.{Group, index_of, locate}
use qiftop.Grouping.Groups.Content.{locate-none}
use qiftop.Grouping.Groups.Position.{find-index_groups-locate, locate-lt}
use qiftop.Grouping.Order.{Variants, SourceRow}
use qiftop.Grouping.Tree.{GroupProxy, is_flat}
use qiftop.Grouping.Proxy.Current.{IsCurrent, grouped}
use qiftop.Grouping.Proxy.Mapping.{
  child, row_in, group_rows, map_to_source, map_from_source, index, parent,
}

index_of-get_elem? : (r i : ℕ) (xs : List ℕ) → index_of r xs ≡ some i → get_elem? xs i ≡ some r
unfolding index_of
index_of-get_elem? r i [] h = cc
index_of-get_elem? r i (x ∷ xs) h = elim (Bool-cases (x == r)) [
  | inl hit ↦ ground (arith, ==_iff x r)
  | inr miss ↦ elim (Option-cases (index_of r xs)) [
    | inl absent ↦ ground (arith)
    | inr (j, found) ↦ ground (arith, index_of-get_elem? r j xs)
  ]
]

pub locate-row_in :
    (r gi c : ℕ) (gs : List Group)
    → locate r gs ≡ some (gi, c)
    → row_in (get_elem? gs gi) c ≡ some r
unfolding locate
locate-row_in r gi c [] h = cc
locate-row_in r gi c (g ∷ gs) h = elim (Option-cases (index_of r g.src_rows)) [
  | inl absent ↦ elim (Option-cases (locate r gs)) [
    | inl nowhere ↦ ground (arith)
    | inr ((gj, d), found) ↦ ground (arith, locate-row_in r gj d gs)
  ]
  | inr (d, found) ↦ ground (arith, index_of-get_elem? r d g.src_rows)
]

get_elem?-some_lt :
    {A : Type 0} (xs : List A) (i : ℕ) (x : A) → get_elem? xs i ≡ some x → i < length xs
get_elem?-some_lt [] i x h = cc
get_elem?-some_lt (y ∷ xs) zero x h = omega arith
get_elem?-some_lt (y ∷ xs) (suc i) x h = omega (arith, get_elem?-some_lt xs i x h)

row_in-lt : (o : Option Group) (c r : ℕ) → row_in o c ≡ some r → c < group_rows o
row_in-lt none c r h = cc
row_in-lt (some g) c r h = get_elem?-some_lt g.src_rows c r h

map_from_source_eq :
    (p : GroupProxy) (n r column gi c : ℕ)
    → is_flat p.mode ≡ false
    → find r p.src_index ≡ some (gi, c)
    → map_from_source n p r column ≡ child gi c column
unfolding map_from_source
map_from_source_eq p n r column gi c kind at = rw (kind, at) refl

map_to_source_eq :
    (p : GroupProxy) (n columns r column gi c : ℕ)
    → is_flat p.mode ≡ false
    → row_in (get_elem? p.groups gi) c ≡ some r
    → r < n
    → column < columns
    → map_to_source n columns p (child gi c column) ≡ some (r, column)
unfolding map_to_source
map_to_source_eq p n columns r column gi c kind here lt fits =
    rw (kind, here, lt→ltb r n lt, lt→ltb column columns fits) refl

index_eq :
    (p : GroupProxy) (n column gi c : ℕ)
    → is_flat p.mode ≡ false
    → gi < length p.groups
    → c < group_rows (get_elem? p.groups gi)
    → index n p c column (parent p (child gi c column)) ≡ child gi c column
unfolding index parent
index_eq p n column gi c kind lt fits =
    rw (kind, lt→ltb gi (length p.groups) lt, lt→ltb c (group_rows (get_elem? p.groups gi)) fits)
      refl

-- If each row of the source stands once in the tree, in the group of its key, no group is empty or
-- has the key of another, and the reverse index gives the places, then an index of the source that
-- is there leads to the index of a flow and from it back to itself, and that index is the one that
-- index() gives for its row under its parent.
pub map_to_source-map_from_source :
    {Num : Type 0} (d : Real Num) (q : Variants Num) (decimal : ℕ → Text) (unread : Connection)
    (mode : ViewMode) (tree : is_flat mode ≡ false) (src : List (SourceRow Num)) (p : GroupProxy)
    (r column columns : ℕ)
    → IsCurrent d q decimal unread mode tree src p
    → r < length src
    → column < columns
    → let n = length src in
      let i = map_from_source n p r column in
      (map_to_source n columns p i ≡ some (r, column))
      × ((c : ℕ) × (gi : ℕ) × (i ≡ child gi c column) × (index n p c column (parent p i) ≡ i))
map_to_source-map_from_source d q decimal unread mode tree src p r column columns t lt fits =
    elim (Option-cases (locate r p.groups)) [
      | inl nowhere ↦ absurd (ground (arith, locate-none r p.groups nowhere, t.placed.complete r))
      | inr ((gi, c), found) ↦
          let n = length src in
          let kind = grouped d q decimal unread mode tree p.mode t.kind in
          let at =
            ap (find r) t.indexed
            ∙ find-index_groups-locate r p.groups (ground (arith, t.placed.complete r))
            ∙ found in
          let here = locate-row_in r gi c p.groups found in
          let there = map_from_source_eq p n r column gi c kind at in
          (
            ap (map_to_source n columns p) there
                ∙ map_to_source_eq p n columns r column gi c kind here lt fits,
            (
              c,
              gi,
              there,
              ap (λ i. index n p c column (parent p i)) there
                  ∙ index_eq p n column gi c kind (locate-lt r gi c p.groups found)
                      (row_in-lt (get_elem? p.groups gi) c r here)
                  ∙ sym there,
            ),
          )
    ]
