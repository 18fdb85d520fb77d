-- ===== src/Grouping/Proxy/Shrink.antt =====
-- The loop over rows that are removed, and the groups that it empties.
use qiftop.Common.{
  ℕ, zero, suc, ◌+◌, ◌≤◌, ◌<◌, ◌≡◌, refl, sym, ◌∙◌, inl, inr, Bool, true, not, ◌&&◌, List, [], ◌∷◌,
  ◌++◌, Option, none, some, arith, ltb, leb, if◌then◌else◌, ◌==◌, nat_eq, list_eq, modify,
  get_elem?, map, Option-cases,
}
use qiftop.Flow.Types.{Text, is_empty}
use qiftop.Grouping.Groups.{
  Group, renumber, locate, Removal, removes, without, note_removed, remove_found, remove_rows,
  drop_emptied, is_spent,
}
use qiftop.Grouping.Groups.Content.{locate-none}
use qiftop.Grouping.Groups.Emptied.{
  Marks, Marks-without, total-drop_emptied, All-drop_emptied, key_count-drop_emptied-le,
}
use qiftop.Grouping.Groups.Moves.{IsPlaced, Belongs, IsPlaced-remove, IsPlaced-present}

note_removed-groups :
    (gi : ℕ) (o : Option Group) (st : Removal) → (note_removed gi o st).groups ≡ st.groups
unfolding note_removed
note_removed-groups gi none st = refl
note_removed-groups gi (some g) st = ground arith

note_removed-emptied :
    (gi : ℕ) (o : Option Group) (st : Removal)
    → (note_removed gi o st).emptied ≡ (if is_spent o then gi ∷ st.emptied else st.emptied)
unfolding note_removed
note_removed-emptied gi none st = refl
note_removed-emptied gi (some g) st = ground arith

-- One row is taken out.
remove_found-IsPlaced :
    (key_of : ℕ → Option Text) (present : ℕ → Bool) (r : ℕ) (st : Removal)
    → present r ≡ true
    → IsPlaced key_of present st.groups
    → Marks st.emptied 0 st.groups
    → let st' = remove_found (locate r st.groups) st in
      IsPlaced key_of (λ x. not (r == x) && present x) st'.groups × Marks st'.emptied 0 st'.groups
unfolding remove_found
remove_found-IsPlaced key_of present r st known p m = elim (Option-cases (locate r st.groups)) [
  | inl nowhere ↦ absurd (ground (arith, locate-none r st.groups nowhere, p.complete r))
  | inr ((gi, c), found) ↦
      let left = modify (without c) gi st.groups in
      let st' = record st { groups = left; signals = st.signals ++ removes (some gi) c ∷ [] } in
      let o = get_elem? left gi in
      rw (found, note_removed-groups gi o st', note_removed-emptied gi o st')
        (
          IsPlaced-remove p r gi c found,
          Marks-without r gi c st.emptied st.groups (is_spent o) found refl m,
        )
]

pub remove_rows-IsPlaced :
    (key_of : ℕ → Option Text) (present : ℕ → Bool) (n r : ℕ) (st : Removal)
    → ((x : ℕ) → r ≤ x → x < r + n → present x ≡ true)
    → IsPlaced key_of present st.groups
    → Marks st.emptied 0 st.groups
    → let st' = remove_rows n r st in
      IsPlaced key_of (λ x. not (leb r x && ltb x (r + n)) && present x) st'.groups
      × Marks st'.emptied 0 st'.groups
unfolding remove_rows
remove_rows-IsPlaced key_of present zero r st known p m =
    (IsPlaced-present p _ (λ x. ground (arith)), m)
remove_rows-IsPlaced key_of present (suc n) r st known p m =
    let step =
      remove_found-IsPlaced key_of present r st (known r (omega arith) (omega arith)) p m in
    let rest =
      remove_rows-IsPlaced key_of (λ x. not (r == x) && present x) n (r + 1)
        (remove_found (locate r st.groups) st) (λ x lo hi. ground (arith, known x)) step.0 step.1 in
    (IsPlaced-present rest.0 _ (λ x. ground (arith)), rest.1)

is_empty-map : (f : ℕ → ℕ) (xs : List ℕ) → is_empty (map f xs) ≡ is_empty xs
is_empty-map f [] = refl
is_empty-map f (x ∷ xs) = refl

pub Marks-renumber :
    (f : ℕ → ℕ) (emptied : List ℕ) (i : ℕ) (gs : List Group)
    → Marks emptied i gs
    → Marks emptied i (renumber f gs)
unfolding renumber
Marks-renumber f emptied i [] m = tt
Marks-renumber f emptied i (g ∷ gs) m =
    (m.0 ∙ sym (is_empty-map f g.src_rows), Marks-renumber f emptied (i + 1) gs m.1)

pub drop_emptied-IsPlaced :
    (key_of : ℕ → Option Text) (present : ℕ → Bool) (emptied : List ℕ) (gs : List Group)
    → Marks emptied 0 gs
    → IsPlaced key_of present gs
    → IsPlaced key_of present (drop_emptied emptied 0 gs).0
drop_emptied-IsPlaced key_of present emptied gs m p = record {
  complete = λ x. total-drop_emptied x emptied 0 gs m ∙ p.complete x;
  belonging = All-drop_emptied (Belongs key_of) emptied 0 gs p.belonging;
  distinct = λ k. omega (arith, key_count-drop_emptied-le k emptied 0 gs, p.distinct k);
}
