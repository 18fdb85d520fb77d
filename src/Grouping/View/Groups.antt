-- ===== src/Grouping/View/Groups.antt =====
-- src/ui/ConnectionGroupProxy.cpp: the signals of the loops over the groups lead a view from the shape
-- before to the one after.
use qiftop.Common.{
  ℕ, zero, suc, ◌+◌, ◌-◌, ◌<◌, ◌≡◌, refl, sym, ◌∙◌, ap, inl, inr, true, List, [], ◌∷◌, ◌++◌, Option,
  none, some, arith, leb, nat_eq, list_eq, modify, length, length-append, get_elem?, map,
  Bool-cases, Option-cases,
}
use qiftop.Flow.Types.{Text, is_empty}
use qiftop.Grouping.Groups.{
  Group, removes, later, index_of, remove_at, find_group, group_size, appended, place_in, place,
  place_rows, renumber, locate, next_group, Removal, without, note_removed, remove_found,
  remove_rows,
}
use qiftop.Grouping.View.{shape, insert_at, size_at, one_less, receive, Leads, Leads-append}

pub length-shape : (gs : List Group) → length (shape gs) ≡ length gs
length-shape [] = refl
length-shape (g ∷ gs) = ap suc (length-shape gs)

pub size_at-shape :
    (gi : ℕ) (gs : List Group) → size_at gi (shape gs) ≡ group_size (get_elem? gs gi)
size_at-shape gi [] = refl
size_at-shape zero (g ∷ gs) = refl
size_at-shape (suc gi) (g ∷ gs) = size_at-shape gi gs

shape-appended :
    (r gi : ℕ) (gs : List Group) → shape (modify (appended r) gi gs) ≡ modify suc gi (shape gs)
shape-appended r gi [] = refl
shape-appended r zero (g ∷ gs) =
    ap (λ n. n ∷ shape gs) (omega (arith, length-append g.src_rows (r ∷ [])))
shape-appended r (suc gi) (g ∷ gs) = ap (λ s. length g.src_rows ∷ s) (shape-appended r gi gs)

shape-append :
    (gs : List Group) (g : Group)
    → shape (gs ++ g ∷ []) ≡ insert_at (length (shape gs)) (length g.src_rows) (shape gs)
shape-append [] g = refl
shape-append (x ∷ gs) g = ap (λ s. length x.src_rows ∷ s) (shape-append gs g)

pub length-modify :
    {A : Type 0} (f : A → A) (i : ℕ) (xs : List A) → length (modify f i xs) ≡ length xs
length-modify f i [] = refl
length-modify f zero (x ∷ xs) = refl
length-modify f (suc i) (x ∷ xs) = ap suc (length-modify f i xs)

find_group-lt : (k : Text) (gi : ℕ) (gs : List Group) → find_group k gs ≡ some gi → gi < length gs
unfolding find_group
find_group-lt k gi [] h = cc
find_group-lt k gi (g ∷ gs) h = elim (Option-cases (find_group k gs)) [
  | inl absent ↦ ground (arith)
  | inr (j, found) ↦ ground (arith, find_group-lt k j gs found)
]

place_in-Leads :
    (now : List ℕ) (at : Option ℕ) (k label : Text) (r : ℕ) (gs : List Group)
    → ((gi : ℕ) → at ≡ some gi → gi < length gs)
    → let (placed, signals) = place_in at k label r gs in
      Leads now signals (shape gs) (shape placed)
unfolding place_in receive
place_in-Leads now none k label r gs h =
    let lt : leb (length gs) (length (shape gs)) ≡ true = ground (arith, length-shape gs) in
    rw lt (
      ap some (
        ap (λ n. insert_at n 1 (shape gs)) (sym (length-shape gs))
        ∙ sym (shape-append gs (record { key = k; label = label; src_rows = r ∷ [] }))))
place_in-Leads now (some gi) k label r gs h = ground (
  arith,
  h gi refl,
  length-shape gs,
  size_at-shape gi gs,
  shape-appended r gi gs,
  length-modify suc gi (shape gs),
)

pub place-Leads :
    (now : List ℕ) (k label : Text) (r : ℕ) (gs : List Group)
    → let (placed, signals) = place k label r gs in Leads now signals (shape gs) (shape placed)
unfolding place
place-Leads now k label r gs =
    place_in-Leads now (find_group k gs) k label r gs (λ gi e. find_group-lt k gi gs e)

pub place_rows-Leads :
    (now : List ℕ) (keys labels : ℕ → Text) (n r : ℕ) (gs : List Group)
    → let (placed, signals) = place_rows keys labels n r gs in
      Leads now signals (shape gs) (shape placed)
unfolding place_rows
place_rows-Leads now keys labels zero r gs = refl
place_rows-Leads now keys labels (suc n) r gs =
    let (placed, signals) = place (keys r) (labels r) r gs in
    let (rest, later) = place_rows keys labels n (r + 1) placed in
    Leads-append now signals later (shape gs) (shape placed) (shape rest)
      (place-Leads now (keys r) (labels r) r gs) (place_rows-Leads now keys labels n (r + 1) placed)

pub shape-renumber : (f : ℕ → ℕ) (gs : List Group) → shape (renumber f gs) ≡ shape gs
unfolding renumber
shape-renumber f [] = refl
shape-renumber f (g ∷ gs) = ground (arith, length-map f g.src_rows, shape-renumber f gs)
  where
    length-map : (h : ℕ → ℕ) (xs : List ℕ) → length (map h xs) ≡ length xs
    length-map h [] = refl
    length-map h (x ∷ xs) = ap suc (length-map h xs)

index_of-lt : (r c : ℕ) (xs : List ℕ) → index_of r xs ≡ some c → c < length xs
unfolding index_of
index_of-lt r c [] h = cc
index_of-lt r c (x ∷ xs) h = elim (Option-cases (index_of r xs)) [
  | inl absent ↦ ground (arith)
  | inr (j, found) ↦ ground (arith, index_of-lt r j xs)
]

-- A place in the groups that has a row.
abbrev pub IsThere : Option (ℕ × ℕ) → List Group → Type 0
IsThere none gs = Unit
IsThere (some (gi, c)) gs = (gi < length gs) × (c < group_size (get_elem? gs gi))

pub locate-IsThere : (r : ℕ) (gs : List Group) → IsThere (locate r gs) gs
unfolding locate
locate-IsThere r [] = tt
locate-IsThere r (g ∷ gs) = elim (Option-cases (index_of r g.src_rows)) [
  | inr (c, found) ↦ rw found (omega arith, index_of-lt r c g.src_rows found)
  | inl absent ↦ rw absent (later_there (locate r gs) (locate-IsThere r gs))
]
  where
    later_there : (o : Option (ℕ × ℕ)) → IsThere o gs → IsThere (next_group o) (g ∷ gs)
    later_there none h = tt
    later_there (some (gi, c)) h = (omega (arith, h.0), h.1)

length-remove_at :
    {A : Type 0} (c : ℕ) (xs : List A) → c < length xs → length (remove_at c xs) ≡ length xs - 1
unfolding remove_at
length-remove_at c [] h = refl
length-remove_at zero (x ∷ xs) h = omega arith
length-remove_at (suc c) (x ∷ xs) h = omega (arith, length-remove_at c xs)

shape-without :
    (c gi : ℕ) (gs : List Group)
    → c < group_size (get_elem? gs gi)
    → shape (modify (without c) gi gs) ≡ modify one_less gi (shape gs)
shape-without c gi [] h = refl
shape-without c zero (g ∷ gs) h = ap (λ n. n ∷ shape gs) (length-remove_at c g.src_rows h)
shape-without c (suc gi) (g ∷ gs) h = ap (λ s. length g.src_rows ∷ s) (shape-without c gi gs h)

pub receive-removes :
    (now : List ℕ) (gi c : ℕ) (gs : List Group)
    → IsThere (some (gi, c)) gs
    → receive now (removes (some gi) c) (shape gs) ≡ some (shape (modify (without c) gi gs))
unfolding receive
receive-removes now gi c gs h =
    ground (arith, h.0, h.1, length-shape gs, size_at-shape gi gs, shape-without c gi gs h.1)

note_removed_groups :
    (gi : ℕ) (o : Option Group) (st : Removal)
    → ((note_removed gi o st).groups ≡ st.groups) × ((note_removed gi o st).signals ≡ st.signals)
unfolding note_removed
note_removed_groups gi none st = (refl, refl)
note_removed_groups gi (some g) st = elim (Bool-cases (is_empty g.src_rows)) [
  | inl spent ↦ rw spent (refl, refl)
  | inr left ↦ rw left (refl, refl)
]

remove_found-Leads :
    (now s : List ℕ) (at : Option (ℕ × ℕ)) (st : Removal)
    → IsThere at st.groups
    → Leads now st.signals s (shape st.groups)
    → let st' = remove_found at st in Leads now st'.signals s (shape st'.groups)
unfolding remove_found
remove_found-Leads now s none st h k = k
remove_found-Leads now s (some (gi, c)) st h k =
    let gs = modify (without c) gi st.groups in
    let st' = record st { groups = gs; signals = st.signals ++ removes (some gi) c ∷ [] } in
    let (same, signals) = note_removed_groups gi (get_elem? gs gi) st' in
    let step : Leads now (removes (some gi) c ∷ []) (shape st.groups) (shape gs) =
      rw (receive-removes now gi c st.groups h) refl in
    rw (same, signals)
      (Leads-append now st.signals (removes (some gi) c ∷ []) s (shape st.groups) (shape gs) k step)

pub remove_rows-Leads :
    (now s : List ℕ) (n r : ℕ) (st : Removal)
    → Leads now st.signals s (shape st.groups)
    → let st' = remove_rows n r st in Leads now st'.signals s (shape st'.groups)
unfolding remove_rows
remove_rows-Leads now s zero r st h = h
remove_rows-Leads now s (suc n) r st h =
    remove_rows-Leads now s n (r + 1) (remove_found (locate r st.groups) st)
      (remove_found-Leads now s (locate r st.groups) st (locate-IsThere r st.groups) h)
