-- ===== src/Grouping/Groups.antt =====
-- src/ui/ConnectionGroupProxy.cpp: the steps on m_groups and m_srcIndex. A pair of beginInsertRows and
-- endInsertRows, or of beginRemoveRows and endRemoveRows, is one signal: what stands between them is
-- the one change that it announces.
pub mod Content
pub mod Emptied
pub mod Moves
pub mod Position
pub mod Regroup
use qiftop.Common.{
  ℕ, zero, suc, ◌+◌, ◌-◌, Bool, true, false, not, ◌&&◌, ◌||◌, List, [], ◌∷◌, ◌++◌, Option, none,
  some, ltb, leb, if◌then◌else◌, Eq, ◌==◌, nat_eq, list_eq, length, modify, get_elem?, map,
}
use qiftop.Containers.Map.{Map, find, put}
use qiftop.Flow.Types.{Text, is_empty}

pub record Group : Type 0 where
  pub key : Text
  pub label : Text
  pub src_rows : List ℕ

-- Rows under a parent, which is a group or the root; `header_changed` is dataChanged for the row of
-- a group, and `row_changed` for that of a flow.
pub data Signal : Type 0 where
  inserts : Option ℕ → ℕ → Signal
  removes : Option ℕ → ℕ → Signal
  header_changed : ℕ → Signal
  row_changed : ℕ → ℕ → Signal
  layout_changes : Signal

abbrev pub later : Option ℕ → Option ℕ
later none = none
later (some i) = some (suc i)

-- QList::indexOf and removeAt
unfoldable pub index_of : ℕ → List ℕ → Option ℕ
index_of r [] = none
index_of r (x ∷ xs) = if x == r then some 0 else later (index_of r xs)

unfoldable pub remove_at {ℓ} : {A : Type ℓ} → ℕ → List A → List A
remove_at i [] = []
remove_at zero (x ∷ xs) = xs
remove_at (suc i) (x ∷ xs) = x ∷ remove_at i xs

-- The first group with a key.
unfoldable pub find_group : Text → List Group → Option ℕ
find_group k [] = none
find_group k (g ∷ gs) = if g.key == k then some 0 else later (find_group k gs)

abbrev pub group_size : Option Group → ℕ
group_size none = 0
group_size (some g) = length g.src_rows

abbrev pub appended : ℕ → Group → Group
appended r g = record g { src_rows = g.src_rows ++ r ∷ [] }

-- A source row is put at the end of a group, or into a group of its own.
unfoldable pub place_in : Option ℕ → Text → Text → ℕ → List Group → List Group × List Signal
place_in (some gi) k label r gs = (
  modify (appended r) gi gs,
  inserts (some gi) (group_size (get_elem? gs gi)) ∷ header_changed gi ∷ [],
)
place_in none k label r gs =
    (gs ++ record { key = k; label = label; src_rows = r ∷ [] } ∷ [], inserts none (length gs) ∷ [])

unfoldable pub place : Text → Text → ℕ → List Group → List Group × List Signal
unfolding find_group place_in
place k label r gs = place_in (find_group k gs) k label r gs

-- The loop over rows that were inserted, `n` of them from row `r` on.
unfoldable pub place_rows : (ℕ → Text) → (ℕ → Text) → ℕ → ℕ → List Group → List Group × List Signal
unfolding place
place_rows key_at label_at zero r gs = (gs, [])
place_rows key_at label_at (suc n) r gs =
    let (placed, signals) = place (key_at r) (label_at r) r gs in
    let (rest, later) = place_rows key_at label_at n (r + 1) placed in (rest, signals ++ later)

-- Row numbers after `n` rows were inserted at `first`, or removed from there.
abbrev pub shifted_up : ℕ → ℕ → ℕ → ℕ
shifted_up first n r = if leb first r then r + n else r

abbrev pub shifted_down : ℕ → ℕ → ℕ → ℕ
shifted_down last n r = if ltb last r then r - n else r

unfoldable pub renumber : (ℕ → ℕ) → List Group → List Group
renumber f [] = []
renumber f (g ∷ gs) = record g { src_rows = map f g.src_rows } ∷ renumber f gs

-- The search over the groups for a source row: the group and the place in it.
abbrev pub next_group : Option (ℕ × ℕ) → Option (ℕ × ℕ)
next_group none = none
next_group (some (gi, c)) = some (suc gi, c)

abbrev pub or_here : Option ℕ → Option (ℕ × ℕ) → Option (ℕ × ℕ)
or_here none rest = rest
or_here (some c) rest = some (0, c)

unfoldable pub locate : ℕ → List Group → Option (ℕ × ℕ)
unfolding index_of
locate r [] = none
locate r (g ∷ gs) = or_here (index_of r g.src_rows) (next_group (locate r gs))

-- The loop over rows that were removed: the groups, which of them were emptied, and the keys of
-- those that lost a row and have more.
pub record Removal : Type 0 where
  pub groups : List Group
  pub emptied : List ℕ
  pub touched : List Text
  pub signals : List Signal

abbrev pub without : ℕ → Group → Group
without c g = record g { src_rows = remove_at c g.src_rows }

unfoldable pub note_removed : ℕ → Option Group → Removal → Removal
note_removed gi none st = st
note_removed gi (some g) st =
    if is_empty g.src_rows
    then record st { emptied = gi ∷ st.emptied }
    else record st { touched = g.key ∷ st.touched }

unfoldable pub remove_found : Option (ℕ × ℕ) → Removal → Removal
unfolding note_removed remove_at
remove_found none st = st
remove_found (some (gi, c)) st =
    let gs = modify (without c) gi st.groups in
    note_removed gi (get_elem? gs gi)
      (record st { groups = gs; signals = st.signals ++ removes (some gi) c ∷ [] })

unfoldable pub remove_rows : ℕ → ℕ → Removal → Removal
unfolding locate remove_found
remove_rows zero r st = st
remove_rows (suc n) r st = remove_rows n (r + 1) (remove_found (locate r st.groups) st)

unfoldable pub holds {ℓ} : {A : Type ℓ} ⦃e : Eq A⦄ → A → List A → Bool
holds a [] = false
holds a (x ∷ xs) = x == a || holds a xs

-- The groups that were emptied go, from the last; `i` is the index of the first group here.
unfoldable pub drop_emptied : List ℕ → ℕ → List Group → List Group × List Signal
unfolding holds
drop_emptied emptied i [] = ([], [])
drop_emptied emptied i (g ∷ gs) =
    let (rest, signals) = drop_emptied emptied (i + 1) gs in
    if holds i emptied then (rest, signals ++ removes none i ∷ []) else (g ∷ rest, signals)

-- The headers of the groups with a key that is in `keys`.
unfoldable pub headers_of : List Text → ℕ → List Group → List Signal
unfolding holds
headers_of keys i [] = []
headers_of keys i (g ∷ gs) =
    let rest = headers_of keys (i + 1) gs in
    if holds g.key keys then header_changed i ∷ rest else rest

-- `refreshSrcIndex`
unfoldable pub index_rows : ℕ → ℕ → List ℕ → Map ℕ (ℕ × ℕ) → Map ℕ (ℕ × ℕ)
index_rows gi c [] m = m
index_rows gi c (r ∷ rs) m = index_rows gi (c + 1) rs (put r (gi, c) m)

unfoldable pub index_groups : ℕ → List Group → Map ℕ (ℕ × ℕ) → Map ℕ (ℕ × ℕ)
unfolding index_rows
index_groups gi [] m = m
index_groups gi (g ∷ gs) m = index_groups (gi + 1) gs (index_rows gi 0 g.src_rows m)

-- `regroupSourceRow` for a row that stays in its group: its title may differ.
abbrev pub has_key : Text → Option Group → Bool
has_key k none = false
has_key k (some g) = g.key == k

abbrev pub has_label : Text → Option Group → Bool
has_label label none = false
has_label label (some g) = g.label == label

unfoldable pub relabel : ℕ → Text → List Group → List Group × List Signal
relabel gi label gs =
    if has_label label (get_elem? gs gi)
    then (gs, [])
    else (modify (λ g. record g { label = label }) gi gs, header_changed gi ∷ [])

abbrev pub is_spent : Option Group → Bool
is_spent none = false
is_spent (some g) = is_empty g.src_rows

-- The first half of a move: the row leaves its group, which may go as well.
unfoldable pub take_out : ℕ → ℕ → List Group → List Group × List Signal
unfolding remove_at
take_out gi c gs =
    let left = modify (without c) gi gs in
    if is_spent (get_elem? left gi)
    then (remove_at gi left, removes (some gi) c ∷ removes none gi ∷ [])
    else (left, removes (some gi) c ∷ header_changed gi ∷ [])

-- `regroupSourceRow`: the groups, whether the row moved, and the signals; the position comes from
-- `m_srcIndex`.
unfoldable pub regroup_from :
    Option (ℕ × ℕ) → Text → Text → ℕ → List Group → List Group × Bool × List Signal
unfolding relabel take_out place
regroup_from none k label r gs =
    let (placed, signals) = place k label r gs in (placed, true, signals)
regroup_from (some (gi, c)) k label r gs =
    let (relabelled, header) = relabel gi label gs in
    let (left, removals) = if ltb gi (length gs) then take_out gi c gs else (gs, []) in
    let (placed, signals) = place k label r left in
    if has_key k (get_elem? gs gi)
    then (relabelled, false, header)
    else (placed, true, removals ++ signals)
