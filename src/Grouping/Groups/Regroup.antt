-- ===== src/Grouping/Groups/Regroup.antt =====
-- A row whose key changed moves to the group of its key: regroupSourceRow.
use qiftop.Common.{
  ℕ, zero, suc, ◌+◌, ◌≡◌, refl, sym, ◌∙◌, subst, lt→ltb, inl, inr, Bool, true, false, not, ◌&&◌,
  List, [], ◌∷◌, Option, none, some, arith, ◌==◌, ==_iff, nat_eq, list_eq, modify, length,
  get_elem?, All, Bool-cases, Option-cases,
}
use qiftop.Containers.Map.{Map}
use qiftop.Flow.Types.{Text}
use qiftop.Grouping.Groups.{
  Group, remove_at, locate, without, place, has_key, has_label, relabel, is_spent, take_out,
  regroup_from, index_rows, index_groups,
}
use qiftop.Grouping.Groups.Content.{total, key_count, locate-none}
use qiftop.Grouping.Groups.Emptied.{
  Inhabited, Inhabited-place, Inhabited-take_out, total-remove_at, All-remove_at,
  key_count-remove_at-le,
}
use qiftop.Grouping.Groups.Moves.{
  IsPlaced, Belongs, IsPlaced-place, IsPlaced-remove, IsPlaced-agree, IsPlaced-present,
}
use qiftop.Grouping.Groups.Position.{locate-lt, locate-key}

abbrev titled : Text → Group → Group
titled label g = record g { label = label }

total-titled :
    (x : ℕ) (label : Text) (gi : ℕ) (gs : List Group)
    → total x (modify (titled label) gi gs) ≡ total x gs
unfolding total
total-titled x label gi [] = refl
total-titled x label zero (g ∷ gs) = refl
total-titled x label (suc gi) (g ∷ gs) = omega (arith, total-titled x label gi gs)

key_count-titled :
    (k : Text) (label : Text) (gi : ℕ) (gs : List Group)
    → key_count k (modify (titled label) gi gs) ≡ key_count k gs
unfolding key_count
key_count-titled k label gi [] = refl
key_count-titled k label zero (g ∷ gs) = refl
key_count-titled k label (suc gi) (g ∷ gs) = omega (arith, key_count-titled k label gi gs)

belonging-titled :
    (key_of : ℕ → Option Text) (label : Text) (gi : ℕ) (gs : List Group)
    → All (Belongs key_of) gs
    → All (Belongs key_of) (modify (titled label) gi gs)
belonging-titled key_of label gi [] h = tt
belonging-titled key_of label zero (g ∷ gs) h = h
belonging-titled key_of label (suc gi) (g ∷ gs) h = (h.0, belonging-titled key_of label gi gs h.1)

Inhabited-titled :
    (label : Text) (gi : ℕ) (gs : List Group)
    → Inhabited gs
    → Inhabited (modify (titled label) gi gs)
Inhabited-titled label gi [] h = tt
Inhabited-titled label zero (g ∷ gs) h = h
Inhabited-titled label (suc gi) (g ∷ gs) h = (h.0, Inhabited-titled label gi gs h.1)

index_groups-titled :
    (i gi : ℕ) (label : Text) (gs : List Group) (m : Map ℕ (ℕ × ℕ))
    → index_groups i (modify (titled label) gi gs) m ≡ index_groups i gs m
unfolding index_groups
index_groups-titled i gi label [] m = refl
index_groups-titled i zero label (g ∷ gs) m = refl
index_groups-titled i (suc gi) label (g ∷ gs) m =
    index_groups-titled (i + 1) gi label gs (index_rows i 0 g.src_rows m)

-- Where no row moves, the reverse index stays right.
pub index_groups-regroup_from :
    (at : Option (ℕ × ℕ)) (k label : Text) (r : ℕ) (gs : List Group)
    → (regroup_from at k label r gs).1 ≡ false
    → index_groups 0 (regroup_from at k label r gs).0 [] ≡ index_groups 0 gs []
unfolding regroup_from relabel
index_groups-regroup_from none k label r gs h = cc
index_groups-regroup_from (some (gi, c)) k label r gs h =
    elim (Bool-cases (has_key k (get_elem? gs gi))) [
      | inl same ↦ elim (Bool-cases (has_label label (get_elem? gs gi))) [
        | inl titled ↦ rw (same, titled) refl
        | inr other ↦ rw (same, other) (index_groups-titled 0 gi label gs [])
      ]
      | inr moved ↦ cc (rw moved at h)
    ]

Inhabited-relabel :
    (gi : ℕ) (label : Text) (gs : List Group) → Inhabited gs → Inhabited (relabel gi label gs).0
unfolding relabel
Inhabited-relabel gi label gs h = elim (Bool-cases (has_label label (get_elem? gs gi))) [
  | inl same ↦ rw same h
  | inr other ↦ rw other (Inhabited-titled label gi gs h)
]

module _ {key_of : ℕ → Option Text} {present : ℕ → Bool} {gs : List Group}
    (p : IsPlaced key_of present gs) where
  IsPlaced-relabel : (gi : ℕ) (label : Text) → IsPlaced key_of present (relabel gi label gs).0
  unfolding relabel
  IsPlaced-relabel gi label = elim (Bool-cases (has_label label (get_elem? gs gi))) [
    | inl same ↦ rw same p
    | inr other ↦ rw other (record {
      complete = λ x. total-titled x label gi gs ∙ p.complete x;
      belonging = belonging-titled key_of label gi gs p.belonging;
      distinct = λ k. omega (arith, key_count-titled k label gi gs, p.distinct k);
    })
  ]

  IsPlaced-remove_at :
      (gi : ℕ) → is_spent (get_elem? gs gi) ≡ true → IsPlaced key_of present (remove_at gi gs)
  IsPlaced-remove_at gi spent = record {
    complete = λ x. total-remove_at x gi gs spent ∙ p.complete x;
    belonging = All-remove_at (Belongs key_of) gi gs p.belonging;
    distinct = λ k. omega (arith, key_count-remove_at-le k gi gs, p.distinct k);
  }

IsPlaced-take_out :
    (key_of : ℕ → Option Text) (present : ℕ → Bool) (r gi c : ℕ) (gs : List Group)
    → IsPlaced key_of present gs
    → locate r gs ≡ some (gi, c)
    → IsPlaced key_of (λ x. not (r == x) && present x) (take_out gi c gs).0
unfolding take_out
IsPlaced-take_out key_of present r gi c gs p found =
    let left = IsPlaced-remove p r gi c found in
    elim (Bool-cases (is_spent (get_elem? (modify (without c) gi gs) gi))) [
      | inl spent ↦ rw spent (IsPlaced-remove_at left gi spent)
      | inr kept ↦ rw kept left
    ]

module _ (key_of key_of' : ℕ → Option Text) (present : ℕ → Bool) (r : ℕ) (k label : Text)
    (gs : List Group) (p : IsPlaced key_of present gs) (known : present r ≡ true)
    (is_new : key_of' r ≡ some k) (others : (x : ℕ) → (r == x) ≡ false → key_of' x ≡ key_of x) where
  stays :
      (gi c : ℕ)
      → locate r gs ≡ some (gi, c)
      → has_key k (get_elem? gs gi) ≡ true
      → IsPlaced key_of' present (relabel gi label gs).0
  stays gi c found same = IsPlaced-agree (IsPlaced-relabel p gi label) key_of' (λ x here.
      elim (Bool-cases (r == x)) [
        | inl hit ↦
            subst (λ y. key_of' y ≡ key_of y) ((==_iff r x).0 hit)
              (is_new ∙ sym (locate-key key_of k r gi c gs found p.belonging same))
        | inr miss ↦ others x miss
      ])

  moves :
      (gi c : ℕ)
      → locate r gs ≡ some (gi, c)
      → IsPlaced key_of' present (place k label r (take_out gi c gs).0).0
  moves gi c found =
      let left = IsPlaced-take_out key_of present r gi c gs p found in
      let agreed = IsPlaced-agree left key_of' (λ x here. others x (ground arith)) in
      IsPlaced-present (IsPlaced-place agreed k label r is_new (ground arith)) present
        (λ x. ground (arith, known, ==_iff r x))

  pub regroup_from-IsPlaced : IsPlaced key_of' present (regroup_from (locate r gs) k label r gs).0
  unfolding regroup_from
  regroup_from-IsPlaced = elim (Option-cases (locate r gs)) [
    | inl nowhere ↦ absurd (ground (arith, locate-none r gs nowhere, p.complete r))
    | inr ((gi, c), found) ↦ elim (Bool-cases (has_key k (get_elem? gs gi))) [
      | inl same ↦ rw (found, same) (stays gi c found same)
      | inr other ↦
          rw (found, other, lt→ltb gi (length gs) (locate-lt r gi c gs found)) (moves gi c found)
    ]
  ]

  pub regroup_from-Inhabited : Inhabited gs → Inhabited (regroup_from (locate r gs) k label r gs).0
  unfolding regroup_from
  regroup_from-Inhabited h = elim (Option-cases (locate r gs)) [
    | inl nowhere ↦ absurd (ground (arith, locate-none r gs nowhere, p.complete r))
    | inr ((gi, c), found) ↦ elim (Bool-cases (has_key k (get_elem? gs gi))) [
      | inl same ↦ rw (found, same) (Inhabited-relabel gi label gs h)
      | inr other ↦
          rw (found, other, lt→ltb gi (length gs) (locate-lt r gi c gs found))
            (Inhabited-place k label r (take_out gi c gs).0 (Inhabited-take_out gi c gs h))
    ]
  ]
