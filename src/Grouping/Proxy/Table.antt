-- ===== src/Grouping/Proxy/Table.antt =====
-- The table of keys in rebuild agrees with a search over the groups.
use qiftop.Common.{
  ℕ, zero, suc, ◌+◌, ◌≡◌, refl, sym, ◌∙◌, ap, inl, inr, Bool, List, [], ◌∷◌, ◌++◌, Option, none,
  some, arith, if◌then◌else◌, ◌==◌, ==_iff, nat_eq, list_eq, modify, length, Option-cases,
}
use qiftop.Containers.Map.{Map, find, find-put}
use qiftop.Flow.Types.{Text}
use qiftop.Grouping.Groups.{Group, find_group, appended, place_in, place, place_rows}
use qiftop.Grouping.Tree.{table_after, rebuild_rows}

abbrev or_last : Option ℕ → ℕ → Bool → Option ℕ
or_last (some i) n hit = some i
or_last none n hit = if hit then some n else none

find_group-append :
    (j : Text) (gs : List Group) (g : Group)
    → find_group j (gs ++ g ∷ []) ≡ or_last (find_group j gs) (length gs) (g.key == j)
unfolding find_group
find_group-append j [] g = refl
find_group-append j (h ∷ gs) g = elim (Option-cases (find_group j gs)) [
  | inl absent ↦ ground (arith, find_group-append j gs g)
  | inr (i, found) ↦ ground (arith, find_group-append j gs g)
]

find_group-appended :
    (j : Text) (r gi : ℕ) (gs : List Group)
    → find_group j (modify (appended r) gi gs) ≡ find_group j gs
unfolding find_group
find_group-appended j r gi [] = refl
find_group-appended j r zero (g ∷ gs) = refl
find_group-appended j r (suc gi) (g ∷ gs) = ground (arith, find_group-appended j r gi gs)

abbrev Agrees : Map Text ℕ → List Group → Type 0
Agrees table gs = (k : Text) → find k table ≡ find_group k gs

Agrees-place :
    (at : Option ℕ) (k label : Text) (r : ℕ) (table : Map Text ℕ) (gs : List Group)
    → at ≡ find_group k gs
    → Agrees table gs
    → Agrees (table_after at k (length gs) table) (place_in at k label r gs).0
unfolding place_in
Agrees-place none k label r table gs e h j =
    find-put j k (length gs) table
    ∙ ground (
      arith,
      h j,
      e,
      ==_iff k j,
      find_group-append j gs (record { key = k; label = label; src_rows = r ∷ [] }),
    )
Agrees-place (some i) k label r table gs e h j = h j ∙ sym (find_group-appended j r i gs)

pub rebuild_rows-place_rows :
    (keys labels : ℕ → Text) (n r : ℕ) (table : Map Text ℕ) (gs : List Group)
    → Agrees table gs
    → rebuild_rows keys labels n r table gs ≡ (place_rows keys labels n r gs).0
unfolding rebuild_rows place_rows place
rebuild_rows-place_rows keys labels zero r table gs h = refl
rebuild_rows-place_rows keys labels (suc n) r table gs h =
    let k = keys r in
    let after = Agrees-place (find k table) k (labels r) r table gs (h k) h in
    rebuild_rows-place_rows keys labels n (r + 1) (table_after (find k table) k (length gs) table)
      (place_in (find k table) k (labels r) r gs).0 after
    ∙ ap (λ o. (place_rows keys labels n (r + 1) (place_in o k (labels r) r gs).0).0) (h k)
