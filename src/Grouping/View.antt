-- ===== src/Grouping/View.antt =====
-- What a view keeps of a tree of groups, which is how many flows each has, and what it makes of the
-- signals, by the protocol of QAbstractItemModel.
pub mod Groups
pub mod Moves
pub mod Handlers
pub mod Steps
pub mod Sync
use qiftop.Common.{
  ℕ, zero, suc, ◌+◌, ◌-◌, ◌≤◌, ◌<◌, ◌≡◌, refl, sym, ◌∙◌, ap, inl, inr, Bool, true, false, ◌&&◌,
  List, [], ◌∷◌, ◌++◌, Option, none, some, arith, ltb, leb, if◌then◌else◌, nat_eq, modify, length,
  Bool-cases, Option-cases,
}
use qiftop.Grouping.Groups.{
  Group, Signal, inserts, removes, header_changed, row_changed, layout_changes, remove_at,
}

abbrev pub shape : List Group → List ℕ
shape [] = []
shape (g ∷ gs) = length g.src_rows ∷ shape gs

abbrev pub insert_at : ℕ → ℕ → List ℕ → List ℕ
insert_at zero n s = n ∷ s
insert_at (suc i) n [] = n ∷ []
insert_at (suc i) n (m ∷ s) = m ∷ insert_at i n s

abbrev pub size_at : ℕ → List ℕ → ℕ
size_at gi [] = 0
size_at zero (n ∷ s) = n
size_at (suc gi) (n ∷ s) = size_at gi s

abbrev pub one_less : ℕ → ℕ
one_less n = n - 1

-- The view after a signal; `none` where it is about rows that the view does not have. A new group
-- comes with one flow; after a change of the layout the view reads the model again, which has the
-- shape `now`.
unfoldable pub receive : List ℕ → Signal → List ℕ → Option (List ℕ)
unfolding remove_at
receive now (inserts none row) s = if leb row (length s) then some (insert_at row 1 s) else none
receive now (inserts (some gi) row) s =
    if ltb gi (length s) && leb row (size_at gi s) then some (modify suc gi s) else none
receive now (removes none row) s = if ltb row (length s) then some (remove_at row s) else none
receive now (removes (some gi) row) s =
    if ltb gi (length s) && ltb row (size_at gi s) then some (modify one_less gi s) else none
receive now (header_changed gi) s = if ltb gi (length s) then some s else none
receive now (row_changed gi row) s =
    if ltb gi (length s) && ltb row (size_at gi s) then some s else none
receive now layout_changes s = some now

abbrev pub and_then : (List ℕ → Option (List ℕ)) → Option (List ℕ) → Option (List ℕ)
and_then f none = none
and_then f (some s) = f s

abbrev pub receive_all : List ℕ → List Signal → List ℕ → Option (List ℕ)
receive_all now [] s = some s
receive_all now (x ∷ xs) s = and_then (receive_all now xs) (receive now x s)

-- Signals lead from a shape to another.
abbrev pub Leads : List ℕ → List Signal → List ℕ → List ℕ → Type 0
Leads now xs s t = receive_all now xs s ≡ some t

pub Leads-append :
    (now : List ℕ) (xs ys : List Signal) (s t u : List ℕ)
    → Leads now xs s t
    → Leads now ys t u
    → Leads now (xs ++ ys) s u
Leads-append now [] ys s t u h k = cc
Leads-append now (x ∷ xs) ys s t u h k = elim (Option-cases (receive now x s)) [
  | inl lost ↦ ground (arith, h, lost)
  | inr (s', here) ↦
      rw here (Leads-append now xs ys s' t u (ap (and_then (receive_all now xs)) (sym here) ∙ h) k)
]

pub Leads-header :
    (now : List ℕ) (gi : ℕ) (xs : List Signal) (s t : List ℕ)
    → gi < length s
    → Leads now xs s t
    → Leads now (header_changed gi ∷ xs) s t
unfolding receive
Leads-header now gi xs s t lt h = ground (arith)
