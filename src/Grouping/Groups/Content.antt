-- ===== src/Grouping/Groups/Content.antt =====
-- How often a source row stands in the groups, and what the steps do to that.
use qiftop.Common.{
  ℕ, ◌+◌, ◌-◌, ◌≤◌, ◌≡◌, refl, ◌∙◌, ap, ◌⊎◌, inl, inr, List, [], ◌∷◌, ◌++◌, Option, none, some,
  arith, ltb, leb, if◌then◌else◌, ◌==◌, ==_iff, nat_eq, list_eq, modify, map, Bool-cases,
  Option-cases,
}
use qiftop.Flow.Types.{Text}
use qiftop.Grouping.Groups.{
  Group, later, index_of, remove_at, find_group, appended, place_in, place, shifted_up,
  shifted_down, renumber, locate, without,
}

unfoldable pub count : ℕ → List ℕ → ℕ
count x [] = 0
count x (y ∷ ys) = (if y == x then 1 else 0) + count x ys

unfoldable pub total : ℕ → List Group → ℕ
unfolding count
total x [] = 0
total x (g ∷ gs) = count x g.src_rows + total x gs

unfoldable pub key_count : Text → List Group → ℕ
key_count k [] = 0
key_count k (g ∷ gs) = (if g.key == k then 1 else 0) + key_count k gs

pub count-append : (x : ℕ) (xs ys : List ℕ) → count x (xs ++ ys) ≡ count x xs + count x ys
unfolding count
count-append x [] ys = omega arith
count-append x (z ∷ xs) ys = omega (arith, count-append x xs ys)

pub total-append : (x : ℕ) (gs hs : List Group) → total x (gs ++ hs) ≡ total x gs + total x hs
unfolding total
total-append x [] hs = omega arith
total-append x (g ∷ gs) hs = omega (arith, total-append x gs hs)

-- The groups after a row was placed, by recursion.
unfoldable pub placed : Text → Text → ℕ → List Group → List Group
placed k label r [] = record { key = k; label = label; src_rows = r ∷ [] } ∷ []
placed k label r (g ∷ gs) = if g.key == k then appended r g ∷ gs else g ∷ placed k label r gs

place_in-later :
    (o : Option ℕ) (k label : Text) (r : ℕ) (g : Group) (gs : List Group)
    → (place_in (later o) k label r (g ∷ gs)).0 ≡ g ∷ (place_in o k label r gs).0
unfolding place_in
place_in-later none k label r g gs = refl
place_in-later (some i) k label r g gs = refl

pub place-placed :
    (k label : Text) (r : ℕ) (gs : List Group) → (place k label r gs).0 ≡ placed k label r gs
unfolding place find_group place_in placed
place-placed k label r [] = refl
place-placed k label r (g ∷ gs) = elim (Bool-cases (g.key == k)) [
  | inl hit ↦ rw hit refl
  | inr miss ↦ rw miss (
      place_in-later (find_group k gs) k label r g gs
      ∙ ap (λ hs. g ∷ hs) (place-placed k label r gs))
]

pub total-placed :
    (x : ℕ) (k label : Text) (r : ℕ) (gs : List Group)
    → total x (placed k label r gs) ≡ total x gs + (if r == x then 1 else 0)
unfolding total placed count
total-placed x k label r [] = omega arith
total-placed x k label r (g ∷ gs) = elim (Bool-cases (g.key == k)) [
  | inl hit ↦ rw hit (omega (arith, count-append x g.src_rows (r ∷ [])))
  | inr miss ↦ rw miss (omega (arith, total-placed x k label r gs))
]

pub key_count-placed :
    (j : Text) (k label : Text) (r : ℕ) (gs : List Group)
    → (key_count j (placed k label r gs) ≡ key_count j gs)
      ⊎ ((k ≡ j) × (key_count j gs ≡ 0) × (key_count j (placed k label r gs) ≡ 1))
unfolding key_count placed
key_count-placed j k label r [] = elim (Bool-cases (k == j)) [
  | inl same ↦ inr ((==_iff k j).0 same, refl, rw same (omega arith))
  | inr other ↦ inl (rw other (omega arith))
]
key_count-placed j k label r (g ∷ gs) = elim (Bool-cases (g.key == k)) [
  | inl hit ↦ inl (rw hit refl)
  | inr miss ↦ rw miss (elim (key_count-placed j k label r gs) [
    | inl kept ↦ inl (rw kept refl)
    | inr (same, before, after) ↦
        let apart = rw same at miss in
        inr (same, rw (apart, before) (omega arith), rw (apart, after) (omega arith))
  ])
]

-- The groups after a row was taken out, by recursion.
unfoldable pub row_removed : ℕ → List ℕ → List ℕ
row_removed r [] = []
row_removed r (x ∷ xs) = if x == r then xs else x ∷ row_removed r xs

remove_at-row_removed :
    (r c : ℕ) (xs : List ℕ) → index_of r xs ≡ some c → remove_at c xs ≡ row_removed r xs
unfolding index_of remove_at row_removed
remove_at-row_removed r c [] h = cc
remove_at-row_removed r c (x ∷ xs) h = elim (Bool-cases (x == r)) [
  | inl hit ↦ ground (arith)
  | inr miss ↦ elim (Option-cases (index_of r xs)) [
    | inl absent ↦ ground (arith)
    | inr (i, found) ↦ ground (arith, remove_at-row_removed r i xs)
  ]
]

pub count-row_removed :
    (x r c : ℕ) (xs : List ℕ)
    → index_of r xs ≡ some c
    → count x xs ≡ count x (row_removed r xs) + (if r == x then 1 else 0)
unfolding index_of count row_removed
count-row_removed x r c [] h = cc
count-row_removed x r c (y ∷ xs) h = elim (Bool-cases (y == r)) [
  | inl hit ↦ rw (hit, (==_iff y r).0 hit) (omega arith)
  | inr miss ↦ elim (Option-cases (index_of r xs)) [
    | inl absent ↦ ground (arith)
    | inr (i, found) ↦ rw miss (omega (arith, count-row_removed x r i xs found))
  ]
]

pub index_of-none : (r : ℕ) (xs : List ℕ) → index_of r xs ≡ none → count r xs ≡ 0
unfolding index_of count
index_of-none r [] h = refl
index_of-none r (x ∷ xs) h = elim (Option-cases (index_of r xs)) [
  | inl absent ↦ ground (arith, index_of-none r xs)
  | inr (i, found) ↦ ground (arith)
]

abbrev removed_here : Option ℕ → ℕ → Group → List Group → List Group → List Group
removed_here none r g gs rest = g ∷ rest
removed_here (some c) r g gs rest = record g { src_rows = row_removed r g.src_rows } ∷ gs

-- The groups without the row in the first group that has it.
unfoldable pub removed : ℕ → List Group → List Group
removed r [] = []
removed r (g ∷ gs) = removed_here (index_of r g.src_rows) r g gs (removed r gs)

pub locate-none : (r : ℕ) (gs : List Group) → locate r gs ≡ none → total r gs ≡ 0
unfolding locate total
locate-none r [] h = refl
locate-none r (g ∷ gs) h = elim (Option-cases (index_of r g.src_rows)) [
  | inl absent ↦ elim (Option-cases (locate r gs)) [
    | inl nowhere ↦ omega (arith, index_of-none r g.src_rows absent, locate-none r gs nowhere)
    | inr (p, found) ↦ ground (arith)
  ]
  | inr (c, found) ↦ ground (arith)
]

-- What holds of the first group with a row, where it is.
pub locate-removed :
    (r gi c : ℕ) (gs : List Group)
    → locate r gs ≡ some (gi, c)
    → modify (without c) gi gs ≡ removed r gs
unfolding locate removed
locate-removed r gi c [] h = cc
locate-removed r gi c (g ∷ gs) h = elim (Option-cases (index_of r g.src_rows)) [
  | inl absent ↦ elim (Option-cases (locate r gs)) [
    | inl nowhere ↦ ground (arith)
    | inr ((gj, d), found) ↦ ground (arith, locate-removed r gj d gs)
  ]
  | inr (d, found) ↦ ground (arith, remove_at-row_removed r d g.src_rows)
]

pub total-removed :
    (x r gi c : ℕ) (gs : List Group)
    → locate r gs ≡ some (gi, c)
    → total x gs ≡ total x (removed r gs) + (if r == x then 1 else 0)
unfolding locate removed total
total-removed x r gi c [] h = cc
total-removed x r gi c (g ∷ gs) h = elim (Option-cases (index_of r g.src_rows)) [
  | inl absent ↦ elim (Option-cases (locate r gs)) [
    | inl nowhere ↦ ground (arith)
    | inr ((gj, d), found) ↦ rw absent (omega (arith, total-removed x r gj d gs found))
  ]
  | inr (d, found) ↦ rw found (omega (arith, count-row_removed x r d g.src_rows found))
]

pub key_count-removed :
    (k : Text) (r : ℕ) (gs : List Group) → key_count k (removed r gs) ≡ key_count k gs
unfolding removed key_count
key_count-removed k r [] = refl
key_count-removed k r (g ∷ gs) = elim (Option-cases (index_of r g.src_rows)) [
  | inl absent ↦ rw absent (omega (arith, key_count-removed k r gs))
  | inr (d, found) ↦ rw found refl
]

count-shifted_up :
    (x first n : ℕ) (xs : List ℕ)
    → count x (map (shifted_up first n) xs)
      ≡ (if ltb x first then count x xs else if ltb x (first + n) then 0 else count (x - n) xs)
unfolding count
count-shifted_up x first n [] = ground (arith)
count-shifted_up x first n (y ∷ xs) = ground (arith, count-shifted_up x first n xs)

pub total-shifted_up :
    (x first n : ℕ) (gs : List Group)
    → total x (renumber (shifted_up first n) gs)
      ≡ (if ltb x first then total x gs else if ltb x (first + n) then 0 else total (x - n) gs)
unfolding total renumber
total-shifted_up x first n [] = ground (arith)
total-shifted_up x first n (g ∷ gs) =
    ground (arith, count-shifted_up x first n g.src_rows, total-shifted_up x first n gs)

count-shifted_down :
    (x last n : ℕ) (xs : List ℕ)
    → n ≤ last + 1
    → count x (map (shifted_down last n) xs)
      ≡ (if leb x last then count x xs else 0) + (if ltb last (x + n) then count (x + n) xs else 0)
unfolding count
count-shifted_down x last n [] h = ground (arith)
count-shifted_down x last n (y ∷ xs) h = ground (arith, count-shifted_down x last n xs)

pub total-shifted_down :
    (x last n : ℕ) (gs : List Group)
    → n ≤ last + 1
    → total x (renumber (shifted_down last n) gs)
      ≡ (if leb x last then total x gs else 0) + (if ltb last (x + n) then total (x + n) gs else 0)
unfolding total renumber
total-shifted_down x last n [] h = ground (arith)
total-shifted_down x last n (g ∷ gs) h =
    ground (arith, count-shifted_down x last n g.src_rows h, total-shifted_down x last n gs h)

pub key_count-renumber :
    (k : Text) (f : ℕ → ℕ) (gs : List Group) → key_count k (renumber f gs) ≡ key_count k gs
unfolding key_count renumber
key_count-renumber k f [] = refl
key_count-renumber k f (g ∷ gs) = omega (arith, key_count-renumber k f gs)
