-- ===== src/Grouping/Groups/Position.antt =====
-- The reverse index of refreshSrcIndex tells where a row stands, and what is known of that place.
use qiftop.Common.{
  ℕ, ◌+◌, ◌≤◌, ◌<◌, ◌≡◌, refl, subst, inl, inr, true, List, [], ◌∷◌, Option, none, some, arith,
  ◌==◌, ==_iff, nat_eq, list_eq, length, get_elem?, All, Bool-cases, Option-cases,
}
use qiftop.Containers.Map.{Map, find, put, find-put}
use qiftop.Flow.Types.{Text}
use qiftop.Grouping.Groups.{Group, index_of, locate, index_rows, index_groups, has_key}
use qiftop.Grouping.Groups.Content.{count, total}
use qiftop.Grouping.Groups.Moves.{Belongs}

index_of-some : (r j : ℕ) (xs : List ℕ) → index_of r xs ≡ some j → 0 < count r xs
unfolding index_of count
index_of-some r j [] h = cc
index_of-some r j (x ∷ xs) h = elim (Option-cases (index_of r xs)) [
  | inl absent ↦ ground (arith)
  | inr (i, found) ↦ ground (arith, index_of-some r i xs)
]

abbrev at_row : ℕ → ℕ → Option ℕ → Option (ℕ × ℕ) → Option (ℕ × ℕ)
at_row gi c none other = other
at_row gi c (some j) other = some (gi, c + j)

find-index_rows :
    (r gi c : ℕ) (xs : List ℕ) (m : Map ℕ (ℕ × ℕ))
    → count r xs ≤ 1
    → find r (index_rows gi c xs m) ≡ at_row gi c (index_of r xs) (find r m)
unfolding index_rows index_of count
find-index_rows r gi c [] m h = refl
find-index_rows r gi c (x ∷ xs) m h =
    let rest = find-index_rows r gi (c + 1) xs (put x (gi, c) m) (omega arith) in
    elim (Option-cases (index_of r xs)) [
      | inl absent ↦ ground (arith, rest, find-put r x (gi, c) m)
      | inr (i, found) ↦ ground (arith, rest, index_of-some r i xs)
    ]

abbrev at_group : ℕ → Option (ℕ × ℕ) → Option (ℕ × ℕ) → Option (ℕ × ℕ)
at_group gi none other = other
at_group gi (some (gj, c)) other = some (gi + gj, c)

locate-some : (r gi c : ℕ) (gs : List Group) → locate r gs ≡ some (gi, c) → 0 < total r gs
unfolding locate total
locate-some r gi c [] h = cc
locate-some r gi c (g ∷ gs) h = elim (Option-cases (index_of r g.src_rows)) [
  | inl absent ↦ elim (Option-cases (locate r gs)) [
    | inl nowhere ↦ ground (arith)
    | inr ((gj, d), found) ↦ omega (arith, locate-some r gj d gs found)
  ]
  | inr (d, found) ↦ omega (arith, index_of-some r d g.src_rows found)
]

find-index_groups :
    (r gi : ℕ) (gs : List Group) (m : Map ℕ (ℕ × ℕ))
    → total r gs ≤ 1
    → find r (index_groups gi gs m) ≡ at_group gi (locate r gs) (find r m)
unfolding index_groups locate total
find-index_groups r gi [] m h = refl
find-index_groups r gi (g ∷ gs) m h =
    let rest = find-index_groups r (gi + 1) gs (index_rows gi 0 g.src_rows m) (omega arith) in
    let here = find-index_rows r gi 0 g.src_rows m (omega arith) in
    elim (Option-cases (locate r gs)) [
      | inl nowhere ↦ elim (Option-cases (index_of r g.src_rows)) [
        | inl absent ↦ ground (arith, rest, here)
        | inr (j, found) ↦ ground (arith, rest, here)
      ]
      | inr ((gj, c), found) ↦ elim (Option-cases (index_of r g.src_rows)) [
        | inl absent ↦ ground (arith, rest, here)
        | inr (j, twice) ↦
            absurd (omega (arith, locate-some r gj c gs found, index_of-some r j g.src_rows twice))
      ]
    ]

-- The index and a search over the groups agree.
pub find-index_groups-locate :
    (r : ℕ) (gs : List Group) → total r gs ≤ 1 → find r (index_groups 0 gs []) ≡ locate r gs
unfolding find
find-index_groups-locate r gs h = elim (Option-cases (locate r gs)) [
  | inl nowhere ↦ ground (arith, find-index_groups r 0 gs [] h)
  | inr ((gi, c), found) ↦ ground (arith, find-index_groups r 0 gs [] h)
]

pub locate-lt : (r gi c : ℕ) (gs : List Group) → locate r gs ≡ some (gi, c) → gi < length gs
unfolding locate
locate-lt r gi c [] h = cc
locate-lt r gi c (g ∷ gs) h = elim (Option-cases (index_of r g.src_rows)) [
  | inl absent ↦ elim (Option-cases (locate r gs)) [
    | inl nowhere ↦ ground (arith)
    | inr ((gj, d), found) ↦ ground (arith, locate-lt r gj d gs)
  ]
  | inr (d, found) ↦ ground (arith)
]

All-index_of : (P : ℕ → Type 0) (r j : ℕ) (xs : List ℕ) → index_of r xs ≡ some j → All P xs → P r
unfolding index_of
All-index_of P r j [] h k = cc
All-index_of P r j (x ∷ xs) h k = elim (Bool-cases (x == r)) [
  | inl hit ↦ subst P ((==_iff x r).0 hit) k.0
  | inr miss ↦ elim (Option-cases (index_of r xs)) [
    | inl absent ↦ ground (arith)
    | inr (i, found) ↦ All-index_of P r i xs found k.1
  ]
]

-- The key of the group in which a row stands is the row's.
pub locate-key :
    (key_of : ℕ → Option Text) (k : Text) (r gi c : ℕ) (gs : List Group)
    → locate r gs ≡ some (gi, c)
    → All (Belongs key_of) gs
    → has_key k (get_elem? gs gi) ≡ true
    → key_of r ≡ some k
unfolding locate
locate-key key_of k r gi c [] h b e = cc
locate-key key_of k r gi c (g ∷ gs) h b e = elim (Option-cases (index_of r g.src_rows)) [
  | inl absent ↦ elim (Option-cases (locate r gs)) [
    | inl nowhere ↦ ground (arith)
    | inr ((gj, d), found) ↦ ground (arith, locate-key key_of k r gj d gs found b.1)
  ]
  | inr (d, found) ↦
      ground
        (arith, All-index_of (λ x. key_of x ≡ some g.key) r d g.src_rows found b.0, ==_iff g.key k)
]
