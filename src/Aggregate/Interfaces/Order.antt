-- ===== src/Aggregate/Interfaces/Order.antt =====
-- The order of interfaces by name.
use qiftop.Common.{
  ◌≡◌, refl, inl, inr, true, false, List, [], ◌∷◌, arith, ==_iff, nat_eq, Bool-cases,
}
use qiftop.Flow.Types.{Text}
use qiftop.Aggregate.Interfaces.{InterfaceStats, is_before, insert_by_name, sorted_by_name}

is_before_asym : (s t : Text) → is_before s t ≡ true → is_before t s ≡ false
unfolding is_before
is_before_asym s [] h = ground arith
is_before_asym [] (y ∷ t) h = refl
is_before_asym (x ∷ s) (y ∷ t) h = ground (arith, ==_iff x y, ==_iff y x, is_before_asym s t)

-- No interface stands before one whose name comes first.
abbrev pub IsOrdered : List InterfaceStats → Type 0
IsOrdered [] = Unit
IsOrdered (s ∷ []) = Unit
IsOrdered (s ∷ t ∷ ts) = (is_before t.name s.name ≡ false) × IsOrdered (t ∷ ts)

insert_by_name-IsOrdered :
    (s : InterfaceStats) (ts : List InterfaceStats) → IsOrdered ts → IsOrdered (insert_by_name s ts)
unfolding insert_by_name
insert_by_name-IsOrdered s [] h = tt
insert_by_name-IsOrdered s (t ∷ []) h = elim (Bool-cases (is_before t.name s.name)) [
  | inl after ↦ rw after (is_before_asym t.name s.name after, tt)
  | inr before ↦ rw before (before, tt)
]
insert_by_name-IsOrdered s (t ∷ u ∷ us) h =
    let rest = insert_by_name-IsOrdered s (u ∷ us) h.1 in
    elim (Bool-cases (is_before t.name s.name)) [
      | inl after ↦ elim (Bool-cases (is_before u.name s.name)) [
        | inl later ↦ rw (after, later) (h.0, rw later at rest)
        | inr here ↦ rw (after, here) (is_before_asym t.name s.name after, rw here at rest)
      ]
      | inr before ↦ rw before (before, h)
    ]

pub sorted_by_name-IsOrdered : (ss : List InterfaceStats) → IsOrdered (sorted_by_name ss)
unfolding sorted_by_name
sorted_by_name-IsOrdered [] = tt
sorted_by_name-IsOrdered (s ∷ ss) =
    insert_by_name-IsOrdered s (sorted_by_name ss) (sorted_by_name-IsOrdered ss)
