-- ===== src/Grouping/Order/Kept.antt =====
-- Sorting keeps every source row in its group, and every group.
use qiftop.Common.{
  ℕ, ◌+◌, ◌≡◌, refl, sym, ◌∙◌, inl, inr, Bool, true, false, List, [], ◌∷◌, Option, some, arith,
  if◌then◌else◌, ◌==◌, nat_eq, list_eq, All, map, Bool-cases,
}
use qiftop.Flow.Types.{Text, is_empty}
use qiftop.Aggregate.Real.{Real}
use qiftop.Grouping.Groups.{Group}
use qiftop.Grouping.Groups.Content.{count, total, key_count}
use qiftop.Grouping.Groups.Emptied.{Inhabited}
use qiftop.Grouping.Groups.Moves.{IsPlaced, Belongs}
use qiftop.Grouping.Order.{
  Variants, Column, SourceRow, insert_before, sorted, row_before, group_before, with_rows_sorted,
  sort_groups,
}

-- A sum over the elements does not see their order.
abbrev sum_of {ℓ} : {A : Type ℓ} → (A → ℕ) → List A → ℕ
sum_of w [] = 0
sum_of w (x ∷ xs) = w x + sum_of w xs

module _ {ℓ} {A : Type ℓ} (before : A → A → Bool) where
  sum_of-insert_before :
      (w : A → ℕ) (x : A) (ys : List A) → sum_of w (insert_before before x ys) ≡ w x + sum_of w ys
  sum_of-insert_before w x [] = refl
  sum_of-insert_before w x (y ∷ ys) = ground (arith, sum_of-insert_before w x ys)

  sum_of-sorted : (w : A → ℕ) (xs : List A) → sum_of w (sorted before xs) ≡ sum_of w xs
  unfolding sorted
  sum_of-sorted w [] = refl
  sum_of-sorted w (x ∷ xs) =
      omega (arith, sum_of-insert_before w x (sorted before xs), sum_of-sorted w xs)

  All-insert_before {κ} :
      (P : A → Type κ) (x : A) (ys : List A) → P x → All P ys → All P (insert_before before x ys)
  All-insert_before P x [] h k = (h, tt)
  All-insert_before P x (y ∷ ys) h k = elim (Bool-cases (before y x)) [
    | inl later ↦ rw later (k.0, All-insert_before P x ys h k.1)
    | inr here ↦ rw here (h, k)
  ]

  All-sorted {κ} : (P : A → Type κ) (xs : List A) → All P xs → All P (sorted before xs)
  unfolding sorted
  All-sorted P [] h = tt
  All-sorted P (x ∷ xs) h = All-insert_before P x (sorted before xs) h.0 (All-sorted P xs h.1)

  is_empty_inserted : (x : A) (ys : List A) → is_empty (insert_before before x ys) ≡ false
  is_empty_inserted x [] = refl
  is_empty_inserted x (y ∷ ys) = elim (Bool-cases (before y x)) [
    | inl later ↦ rw later refl
    | inr here ↦ rw here refl
  ]

  is_empty-sorted : (xs : List A) → is_empty (sorted before xs) ≡ is_empty xs
  unfolding sorted
  is_empty-sorted [] = refl
  is_empty-sorted (x ∷ xs) = is_empty_inserted x (sorted before xs)

count-sum_of : (x : ℕ) (xs : List ℕ) → count x xs ≡ sum_of (λ y. if y == x then 1 else 0) xs
unfolding count
count-sum_of x [] = refl
count-sum_of x (y ∷ xs) = omega (arith, count-sum_of x xs)

total-sum_of : (x : ℕ) (gs : List Group) → total x gs ≡ sum_of (λ g. count x g.src_rows) gs
unfolding total
total-sum_of x [] = refl
total-sum_of x (g ∷ gs) = omega (arith, total-sum_of x gs)

key_count-sum_of :
    (k : Text) (gs : List Group) → key_count k gs ≡ sum_of (λ g. if g.key == k then 1 else 0) gs
unfolding key_count
key_count-sum_of k [] = refl
key_count-sum_of k (g ∷ gs) = omega (arith, key_count-sum_of k gs)

module _ {Num : Type 0} (d : Real Num) (q : Variants Num) (src : List (SourceRow Num))
    (col : Column) (ascending : Bool) where
  count-sorted :
      (x : ℕ) (xs : List ℕ) → count x (sorted (row_before d q src col ascending) xs) ≡ count x xs
  count-sorted x xs =
      count-sum_of x (sorted (row_before d q src col ascending) xs)
      ∙ sum_of-sorted (row_before d q src col ascending) (λ y. if y == x then 1 else 0) xs
      ∙ sym (count-sum_of x xs)

  abbrev contents : List Group → List Group
  contents = map (with_rows_sorted d q src col ascending)

  total-contents : (x : ℕ) (gs : List Group) → total x (contents gs) ≡ total x gs
  unfolding total
  total-contents x [] = refl
  total-contents x (g ∷ gs) = omega (arith, count-sorted x g.src_rows, total-contents x gs)

  key_count-contents : (k : Text) (gs : List Group) → key_count k (contents gs) ≡ key_count k gs
  unfolding key_count
  key_count-contents k [] = refl
  key_count-contents k (g ∷ gs) = omega (arith, key_count-contents k gs)

  belonging-contents :
      (key_of : ℕ → Option Text) (gs : List Group)
      → All (Belongs key_of) gs
      → All (Belongs key_of) (contents gs)
  belonging-contents key_of [] h = tt
  belonging-contents key_of (g ∷ gs) h = (
    All-sorted (row_before d q src col ascending) (λ r. key_of r ≡ some g.key) g.src_rows h.0,
    belonging-contents key_of gs h.1,
  )

  Inhabited-contents : (gs : List Group) → Inhabited gs → Inhabited (contents gs)
  Inhabited-contents [] h = tt
  Inhabited-contents (g ∷ gs) h = (
    is_empty-sorted (row_before d q src col ascending) g.src_rows ∙ h.0,
    Inhabited-contents gs h.1,
  )

  total-sorted :
      (x : ℕ) (gs : List Group)
      → total x (sorted (group_before d q src col ascending) gs) ≡ total x gs
  total-sorted x gs =
      total-sum_of x (sorted (group_before d q src col ascending) gs)
      ∙ sum_of-sorted (group_before d q src col ascending) (λ g. count x g.src_rows) gs
      ∙ sym (total-sum_of x gs)

  key_count-sorted :
      (k : Text) (gs : List Group)
      → key_count k (sorted (group_before d q src col ascending) gs) ≡ key_count k gs
  key_count-sorted k gs =
      key_count-sum_of k (sorted (group_before d q src col ascending) gs)
      ∙ sum_of-sorted (group_before d q src col ascending) (λ g. if g.key == k then 1 else 0) gs
      ∙ sym (key_count-sum_of k gs)

  pub sort_groups-IsPlaced :
      (within : Bool) (key_of : ℕ → Option Text) (present : ℕ → Bool) (gs : List Group)
      → IsPlaced key_of present gs
      → IsPlaced key_of present (sort_groups d q src col ascending within gs)
  unfolding sort_groups
  sort_groups-IsPlaced true key_of present gs p = record {
    complete = λ x. total-contents x gs ∙ p.complete x;
    belonging = belonging-contents key_of gs p.belonging;
    distinct = λ k. omega (arith, key_count-contents k gs, p.distinct k);
  }
  sort_groups-IsPlaced false key_of present gs p = record {
    complete = λ x. total-sorted x (contents gs) ∙ total-contents x gs ∙ p.complete x;
    belonging =
        All-sorted (group_before d q src col ascending) (Belongs key_of) (contents gs)
          (belonging-contents key_of gs p.belonging);
    distinct =
        λ k. omega (arith, key_count-sorted k (contents gs), key_count-contents k gs, p.distinct k);
  }

  pub key_count-sort_groups :
      (within : Bool) (k : Text) (gs : List Group)
      → key_count k (sort_groups d q src col ascending within gs) ≡ key_count k gs
  unfolding sort_groups
  key_count-sort_groups true k gs = key_count-contents k gs
  key_count-sort_groups false k gs = key_count-sorted k (contents gs) ∙ key_count-contents k gs

  pub sort_groups-Inhabited :
      (within : Bool) (gs : List Group)
      → Inhabited gs
      → Inhabited (sort_groups d q src col ascending within gs)
  unfolding sort_groups
  sort_groups-Inhabited true gs h = Inhabited-contents gs h
  sort_groups-Inhabited false gs h =
      All-sorted (group_before d q src col ascending) (λ g. is_empty g.src_rows ≡ false)
        (contents gs) (Inhabited-contents gs h)
