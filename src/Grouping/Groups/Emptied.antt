-- ===== src/Grouping/Groups/Emptied.antt =====
-- Groups that lose their last row, and go.
use qiftop.Common.{
  ℕ, zero, suc, ◌+◌, ◌≤◌, ◌<◌, ◌≡◌, refl, sym, ◌∙◌, inl, inr, Bool, true, false, List, [], ◌∷◌,
  ◌++◌, some, arith, if◌then◌else◌, ◌==◌, nat_eq, list_eq, modify, get_elem?, All, map, Bool-cases,
  Option-cases,
}
use qiftop.Flow.Types.{Text, is_empty}
use qiftop.Grouping.Groups.{
  Group, index_of, remove_at, place, renumber, locate, without, holds, drop_emptied, is_spent,
  take_out,
}
use qiftop.Grouping.Groups.Content.{count, total, key_count, placed, place-placed}

abbrev pub Inhabited : List Group → Type 0
Inhabited = All (λ g. is_empty g.src_rows ≡ false)

is_empty-append : (r : ℕ) (xs : List ℕ) → is_empty (xs ++ r ∷ []) ≡ false
is_empty-append r [] = refl
is_empty-append r (x ∷ xs) = refl

Inhabited-placed :
    (k label : Text) (r : ℕ) (gs : List Group) → Inhabited gs → Inhabited (placed k label r gs)
unfolding placed
Inhabited-placed k label r [] h = (refl, tt)
Inhabited-placed k label r (g ∷ gs) h = elim (Bool-cases (g.key == k)) [
  | inl hit ↦ rw hit (is_empty-append r g.src_rows, h.1)
  | inr miss ↦ rw miss (h.0, Inhabited-placed k label r gs h.1)
]

pub Inhabited-place :
    (k label : Text) (r : ℕ) (gs : List Group) → Inhabited gs → Inhabited (place k label r gs).0
Inhabited-place k label r gs h = rw (place-placed k label r gs) (Inhabited-placed k label r gs h)

is_empty-map : (f : ℕ → ℕ) (xs : List ℕ) → is_empty (map f xs) ≡ is_empty xs
is_empty-map f [] = refl
is_empty-map f (x ∷ xs) = refl

pub Inhabited-renumber : (f : ℕ → ℕ) (gs : List Group) → Inhabited gs → Inhabited (renumber f gs)
unfolding renumber
Inhabited-renumber f [] h = tt
Inhabited-renumber f (g ∷ gs) h = (is_empty-map f g.src_rows ∙ h.0, Inhabited-renumber f gs h.1)

-- All groups have rows but perhaps one.
abbrev InhabitedBut : ℕ → List Group → Type 0
InhabitedBut gi [] = Unit
InhabitedBut zero (g ∷ gs) = Inhabited gs
InhabitedBut (suc gi) (g ∷ gs) = (is_empty g.src_rows ≡ false) × InhabitedBut gi gs

InhabitedBut-modify :
    (f : Group → Group) (gi : ℕ) (gs : List Group) → Inhabited gs → InhabitedBut gi (modify f gi gs)
InhabitedBut-modify f gi [] h = tt
InhabitedBut-modify f zero (g ∷ gs) h = h.1
InhabitedBut-modify f (suc gi) (g ∷ gs) h = (h.0, InhabitedBut-modify f gi gs h.1)

Inhabited-remove_at : (gi : ℕ) (gs : List Group) → InhabitedBut gi gs → Inhabited (remove_at gi gs)
unfolding remove_at
Inhabited-remove_at gi [] h = tt
Inhabited-remove_at zero (g ∷ gs) h = h
Inhabited-remove_at (suc gi) (g ∷ gs) h = (h.0, Inhabited-remove_at gi gs h.1)

Inhabited-unspent :
    (gi : ℕ) (gs : List Group)
    → InhabitedBut gi gs
    → is_spent (get_elem? gs gi) ≡ false
    → Inhabited gs
Inhabited-unspent gi [] h e = tt
Inhabited-unspent zero (g ∷ gs) h e = (e, h)
Inhabited-unspent (suc gi) (g ∷ gs) h e = (h.0, Inhabited-unspent gi gs h.1 e)

pub Inhabited-take_out :
    (gi c : ℕ) (gs : List Group) → Inhabited gs → Inhabited (take_out gi c gs).0
unfolding take_out
Inhabited-take_out gi c gs h =
    let left = modify (without c) gi gs in
    let but = InhabitedBut-modify (without c) gi gs h in
    elim (Bool-cases (is_spent (get_elem? left gi))) [
      | inl spent ↦ rw spent (Inhabited-remove_at gi left but)
      | inr kept ↦ rw kept (Inhabited-unspent gi left but kept)
    ]

count_empty : (x : ℕ) (xs : List ℕ) → is_empty xs ≡ true → count x xs ≡ 0
unfolding count
count_empty x [] h = refl
count_empty x (y ∷ xs) h = cc

pub total-remove_at :
    (x gi : ℕ) (gs : List Group)
    → is_spent (get_elem? gs gi) ≡ true
    → total x (remove_at gi gs) ≡ total x gs
unfolding total remove_at
total-remove_at x gi [] h = refl
total-remove_at x zero (g ∷ gs) h = omega (arith, count_empty x g.src_rows h)
total-remove_at x (suc gi) (g ∷ gs) h = omega (arith, total-remove_at x gi gs h)

pub All-remove_at {ℓ} :
    (P : Group → Type ℓ) (gi : ℕ) (gs : List Group) → All P gs → All P (remove_at gi gs)
unfolding remove_at
All-remove_at P gi [] h = tt
All-remove_at P zero (g ∷ gs) h = h.1
All-remove_at P (suc gi) (g ∷ gs) h = (h.0, All-remove_at P gi gs h.1)

pub key_count-remove_at-le :
    (k : Text) (gi : ℕ) (gs : List Group) → key_count k (remove_at gi gs) ≤ key_count k gs
unfolding key_count remove_at
key_count-remove_at-le k gi [] = omega arith
key_count-remove_at-le k zero (g ∷ gs) = omega arith
key_count-remove_at-le k (suc gi) (g ∷ gs) = omega (arith, key_count-remove_at-le k gi gs)

-- The indices in `emptied` are those of the groups without rows.
abbrev pub Marks : List ℕ → ℕ → List Group → Type 0
Marks emptied i [] = Unit
Marks emptied i (g ∷ gs) = (holds i emptied ≡ is_empty g.src_rows) × Marks emptied (i + 1) gs

pub Marks-none : (i : ℕ) (gs : List Group) → Inhabited gs → Marks [] i gs
unfolding holds
Marks-none i [] h = tt
Marks-none i (g ∷ gs) h = (sym h.0, Marks-none (i + 1) gs h.1)

Marks-above :
    (j i : ℕ) (emptied : List ℕ) (gs : List Group)
    → j < i
    → Marks emptied i gs
    → Marks (j ∷ emptied) i gs
unfolding holds
Marks-above j i emptied [] lt h = tt
Marks-above j i emptied (g ∷ gs) lt h =
    (ground (arith), Marks-above j (i + 1) emptied gs (omega arith) h.1)

Marks-spent :
    (f : Group → Group) (gi i j : ℕ) (emptied : List ℕ) (gs : List Group)
    → j ≡ i + gi
    → is_spent (get_elem? (modify f gi gs) gi) ≡ true
    → Marks emptied i gs
    → Marks (j ∷ emptied) i (modify f gi gs)
unfolding holds
Marks-spent f gi i j emptied [] e spent h = tt
Marks-spent f zero i j emptied (g ∷ gs) e spent h =
    (ground (arith), Marks-above j (i + 1) emptied gs (omega arith) h.1)
Marks-spent f (suc gi) i j emptied (g ∷ gs) e spent h =
    (ground (arith), Marks-spent f gi (i + 1) j emptied gs (omega arith) spent h.1)

Marks-kept :
    (f : Group → Group) (gi i : ℕ) (emptied : List ℕ) (gs : List Group)
    → is_spent (get_elem? gs gi) ≡ false
    → is_spent (get_elem? (modify f gi gs) gi) ≡ false
    → Marks emptied i gs
    → Marks emptied i (modify f gi gs)
Marks-kept f gi i emptied [] full kept h = tt
Marks-kept f zero i emptied (g ∷ gs) full kept h = (h.0 ∙ full ∙ sym kept, h.1)
Marks-kept f (suc gi) i emptied (g ∷ gs) full kept h =
    (h.0, Marks-kept f gi (i + 1) emptied gs full kept h.1)

full_of : (r c : ℕ) (xs : List ℕ) → index_of r xs ≡ some c → is_empty xs ≡ false
unfolding index_of
full_of r c [] h = cc
full_of r c (x ∷ xs) h = refl

locate_unspent :
    (r gi c : ℕ) (gs : List Group) → locate r gs ≡ some (gi, c) → is_spent (get_elem? gs gi) ≡ false
unfolding locate
locate_unspent r gi c [] h = cc
locate_unspent r gi c (g ∷ gs) h = elim (Option-cases (index_of r g.src_rows)) [
  | inl absent ↦ elim (Option-cases (locate r gs)) [
    | inl nowhere ↦ ground (arith)
    | inr ((gj, d), found) ↦ ground (arith, locate_unspent r gj d gs)
  ]
  | inr (d, found) ↦ ground (arith, full_of r d g.src_rows)
]

-- The loop notes a group where it takes its last row.
pub Marks-without :
    (r gi c : ℕ) (emptied : List ℕ) (gs : List Group) (spent : Bool)
    → locate r gs ≡ some (gi, c)
    → is_spent (get_elem? (modify (without c) gi gs) gi) ≡ spent
    → Marks emptied 0 gs
    → Marks (if spent then gi ∷ emptied else emptied) 0 (modify (without c) gi gs)
Marks-without r gi c emptied gs true found e h =
    Marks-spent (without c) gi 0 gi emptied gs (omega arith) e h
Marks-without r gi c emptied gs false found e h =
    Marks-kept (without c) gi 0 emptied gs (locate_unspent r gi c gs found) e h

pub drop_emptied-Inhabited :
    (emptied : List ℕ) (i : ℕ) (gs : List Group)
    → Marks emptied i gs
    → Inhabited (drop_emptied emptied i gs).0
unfolding drop_emptied
drop_emptied-Inhabited emptied i [] h = tt
drop_emptied-Inhabited emptied i (g ∷ gs) h =
    let rest = drop_emptied-Inhabited emptied (i + 1) gs h.1 in
    elim (Bool-cases (holds i emptied)) [
      | inl gone ↦ rw gone rest
      | inr kept ↦ rw kept (sym h.0 ∙ kept, rest)
    ]

pub total-drop_emptied :
    (x : ℕ) (emptied : List ℕ) (i : ℕ) (gs : List Group)
    → Marks emptied i gs
    → total x (drop_emptied emptied i gs).0 ≡ total x gs
unfolding drop_emptied total
total-drop_emptied x emptied i [] h = refl
total-drop_emptied x emptied i (g ∷ gs) h =
    let rest = total-drop_emptied x emptied (i + 1) gs h.1 in
    elim (Bool-cases (holds i emptied)) [
      | inl gone ↦ rw gone (omega (arith, count_empty x g.src_rows (sym h.0 ∙ gone)))
      | inr kept ↦ rw kept (omega arith)
    ]

pub All-drop_emptied {ℓ} :
    (P : Group → Type ℓ) (emptied : List ℕ) (i : ℕ) (gs : List Group)
    → All P gs
    → All P (drop_emptied emptied i gs).0
unfolding drop_emptied
All-drop_emptied P emptied i [] h = tt
All-drop_emptied P emptied i (g ∷ gs) h =
    let rest = All-drop_emptied P emptied (i + 1) gs h.1 in
    elim (Bool-cases (holds i emptied)) [ inl gone ↦ rw gone rest | inr kept ↦ rw kept (h.0, rest) ]

pub key_count-drop_emptied-le :
    (k : Text) (emptied : List ℕ) (i : ℕ) (gs : List Group)
    → key_count k (drop_emptied emptied i gs).0 ≤ key_count k gs
unfolding drop_emptied key_count
key_count-drop_emptied-le k emptied i [] = omega arith
key_count-drop_emptied-le k emptied i (g ∷ gs) =
    let rest = key_count-drop_emptied-le k emptied (i + 1) gs in
    elim (Bool-cases (holds i emptied)) [
      | inl gone ↦ rw gone (omega arith)
      | inr kept ↦ rw kept (omega arith)
    ]
