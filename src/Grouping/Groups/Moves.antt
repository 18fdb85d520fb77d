-- ===== src/Grouping/Groups/Moves.antt =====
-- Every source row stands once, in the group of its key, and no two groups have one key: what the
-- steps need for this, and what they leave of it.
use qiftop.Common.{
  ℕ, ◌+◌, ◌-◌, ◌≤◌, ◌<◌, ◌≡◌, sym, ◌∙◌, ap, inl, inr, Bool, true, false, not, ◌&&◌, ◌||◌, List, [],
  ◌∷◌, Option, some, arith, ltb, if◌then◌else◌, ◌==◌, ==_iff, nat_eq, list_eq, modify, All,
  All-append, map, Bool-cases, Option-cases,
}
use qiftop.Flow.Types.{Text}
use qiftop.Grouping.Groups.{
  Group, index_of, place, shifted_up, shifted_down, renumber, locate, without,
}
use qiftop.Grouping.Groups.Content.{
  count, total, key_count, placed, place-placed, total-placed, key_count-placed, row_removed,
  removed, locate-removed, total-removed, key_count-removed, total-shifted_up, total-shifted_down,
  key_count-renumber,
}

-- `key_of` gives the key of a source row.
abbrev pub Belongs : (ℕ → Option Text) → Group → Type 0
Belongs key_of g = All (λ r. key_of r ≡ some g.key) g.src_rows

pub record IsPlaced (key_of : ℕ → Option Text) (present : ℕ → Bool) (gs : List Group) : Type 0 where
  pub complete : (x : ℕ) → total x gs ≡ (if present x then 1 else 0)
  pub belonging : All (Belongs key_of) gs
  pub distinct : (k : Text) → key_count k gs ≤ 1

All-count : (P : ℕ → Type 0) (xs : List ℕ) → ((r : ℕ) → 0 < count r xs → P r) → All P xs
unfolding count
All-count P [] h = tt
All-count P (x ∷ xs) h = (h x (ground (arith)), All-count P xs (λ r pos. h r (omega (arith, pos))))

All-agree :
    (key_of key_of' : ℕ → Option Text) (k : Text) (xs : List ℕ)
    → All (λ r. key_of r ≡ some k) xs
    → All (λ r. key_of' r ≡ key_of r) xs
    → All (λ r. key_of' r ≡ some k) xs
All-agree key_of key_of' k [] h e = tt
All-agree key_of key_of' k (x ∷ xs) h e = (e.0 ∙ h.0, All-agree key_of key_of' k xs h.1 e.1)

belonging-agree :
    (key_of key_of' : ℕ → Option Text) (gs : List Group)
    → All (Belongs key_of) gs
    → ((r : ℕ) → 0 < total r gs → key_of' r ≡ key_of r)
    → All (Belongs key_of') gs
unfolding total
belonging-agree key_of key_of' [] h e = tt
belonging-agree key_of key_of' (g ∷ gs) h e = (
  All-agree key_of key_of' g.key g.src_rows h.0
      (All-count (λ r. key_of' r ≡ key_of r) g.src_rows (λ r pos. e r (omega (arith, pos)))),
  belonging-agree key_of key_of' gs h.1 (λ r pos. e r (omega (arith, pos))),
)

All-renumber :
    (f : ℕ → ℕ) (key_of : ℕ → Option Text) (k : Text) (xs : List ℕ)
    → All (λ r. key_of (f r) ≡ some k) xs
    → All (λ r. key_of r ≡ some k) (map f xs)
All-renumber f key_of k [] h = tt
All-renumber f key_of k (x ∷ xs) h = (h.0, All-renumber f key_of k xs h.1)

belonging-renumber :
    (f : ℕ → ℕ) (key_of : ℕ → Option Text) (gs : List Group)
    → All (Belongs (λ r. key_of (f r))) gs
    → All (Belongs key_of) (renumber f gs)
unfolding renumber
belonging-renumber f key_of [] h = tt
belonging-renumber f key_of (g ∷ gs) h =
    (All-renumber f key_of g.key g.src_rows h.0, belonging-renumber f key_of gs h.1)

belonging-placed :
    (key_of : ℕ → Option Text) (k label : Text) (r : ℕ) (gs : List Group)
    → key_of r ≡ some k
    → All (Belongs key_of) gs
    → All (Belongs key_of) (placed k label r gs)
unfolding placed
belonging-placed key_of k label r [] e h = ((e, tt), tt)
belonging-placed key_of k label r (g ∷ gs) e h = elim (Bool-cases (g.key == k)) [
  | inl hit ↦ rw hit (
    All-append (λ x. key_of x ≡ some g.key) g.src_rows (r ∷ []) h.0
        (e ∙ ap some (sym ((==_iff g.key k).0 hit)), tt),
    h.1,
  )
  | inr miss ↦ rw miss (h.0, belonging-placed key_of k label r gs e h.1)
]

All-row_removed : (P : ℕ → Type 0) (r : ℕ) (xs : List ℕ) → All P xs → All P (row_removed r xs)
unfolding row_removed
All-row_removed P r [] h = tt
All-row_removed P r (x ∷ xs) h = elim (Bool-cases (x == r)) [
  | inl hit ↦ rw hit h.1
  | inr miss ↦ rw miss (h.0, All-row_removed P r xs h.1)
]

belonging-removed :
    (key_of : ℕ → Option Text) (r : ℕ) (gs : List Group)
    → All (Belongs key_of) gs
    → All (Belongs key_of) (removed r gs)
unfolding removed
belonging-removed key_of r [] h = tt
belonging-removed key_of r (g ∷ gs) h = elim (Option-cases (index_of r g.src_rows)) [
  | inl absent ↦ rw absent (h.0, belonging-removed key_of r gs h.1)
  | inr (c, found) ↦ rw found (All-row_removed (λ x. key_of x ≡ some g.key) r g.src_rows h.0, h.1)
]

module _ {key_of : ℕ → Option Text} {present : ℕ → Bool} {gs : List Group}
    (p : IsPlaced key_of present gs) where
  pub IsPlaced-place :
      (k label : Text) (r : ℕ)
      → key_of r ≡ some k
      → present r ≡ false
      → IsPlaced key_of (λ x. r == x || present x) (place k label r gs).0
  IsPlaced-place k label r e new = rw (place-placed k label r gs) (record {
    complete =
        λ x. ground (arith, total-placed x k label r gs, p.complete x, p.complete r, ==_iff r x);
    belonging = belonging-placed key_of k label r gs e p.belonging;
    distinct = λ j. ground (arith, key_count-placed j k label r gs, p.distinct j);
  })

  pub IsPlaced-remove :
      (r gi c : ℕ)
      → locate r gs ≡ some (gi, c)
      → IsPlaced key_of (λ x. not (r == x) && present x) (modify (without c) gi gs)
  IsPlaced-remove r gi c found = rw (locate-removed r gi c gs found) (record {
    complete = λ x. ground (arith, total-removed x r gi c gs found, p.complete x);
    belonging = belonging-removed key_of r gs p.belonging;
    distinct = λ k. omega (arith, key_count-removed k r gs, p.distinct k);
  })

  pub IsPlaced-agree :
      (key_of' : ℕ → Option Text)
      → ((r : ℕ) → present r ≡ true → key_of' r ≡ key_of r)
      → IsPlaced key_of' present gs
  IsPlaced-agree key_of' same = record {
    complete = p.complete;
    belonging =
        belonging-agree key_of key_of' gs p.belonging
          (λ r pos. same r (ground (arith, p.complete r)));
    distinct = p.distinct;
  }

  pub IsPlaced-present :
      (present' : ℕ → Bool) → ((r : ℕ) → present' r ≡ present r) → IsPlaced key_of present' gs
  IsPlaced-present present' same = record {
    complete = λ x. rw (same x) (p.complete x);
    belonging = p.belonging;
    distinct = p.distinct;
  }

  pub IsPlaced-up :
      (first n : ℕ) (key_of' : ℕ → Option Text)
      → ((r : ℕ) → key_of' (shifted_up first n r) ≡ key_of r)
      → IsPlaced key_of'
          (λ x.
            if ltb x first then present x else if ltb x (first + n) then false else present (x - n))
          (renumber (shifted_up first n) gs)
  IsPlaced-up first n key_of' same = record {
    complete = λ x. ground (arith, total-shifted_up x first n gs, p.complete x, p.complete (x - n));
    belonging = belonging-renumber (shifted_up first n) key_of' gs (
        belonging-agree key_of (λ r. key_of' (shifted_up first n r)) gs p.belonging
          (λ r pos. same r));
    distinct = λ k. omega (arith, key_count-renumber k (shifted_up first n) gs, p.distinct k);
  }

  -- After the rows from `first` on, up to `last`, are gone.
  pub IsPlaced-down :
      (first last n : ℕ) (key_of' : ℕ → Option Text)
      → first + n ≡ last + 1
      → ((r : ℕ) → first ≤ r → r ≤ last → present r ≡ false)
      → ((r : ℕ) → present r ≡ true → key_of' (shifted_down last n r) ≡ key_of r)
      → IsPlaced key_of'
          (λ x. if ltb x first then present x else present (x + n))
          (renumber (shifted_down last n) gs)
  IsPlaced-down first last n key_of' e gone same = record {
    complete = λ x. ground (
      arith,
      total-shifted_down x last n gs (omega arith),
      p.complete x,
      p.complete (x + n),
      gone x,
      gone (x + n),
    );
    belonging = belonging-renumber (shifted_down last n) key_of' gs (
        belonging-agree key_of (λ r. key_of' (shifted_down last n r)) gs p.belonging
          (λ r pos. same r (ground (arith, p.complete r))));
    distinct = λ k. omega (arith, key_count-renumber k (shifted_down last n) gs, p.distinct k);
  }
