-- ===== src/Aggregate/Rows/Adapter.antt =====
-- The protocol of QAbstractItemModel that the signals of src/aggregate/ConnectionAggregator.h are
-- passed on to: what an adapter that counts the rows makes of them.
use qiftop.Common.{
  ℕ, suc, ◌+◌, ◌-◌, ◌≤◌, ◌<◌, ◌≡◌, refl, ◌∙◌, ap, inl, inr, Bool, true, false, ◌&&◌, List, [], ◌∷◌,
  ◌++◌, Option, none, some, arith, ltb, leb, if◌then◌else◌, nat_eq, Bool-cases, length,
  length-append, list_eq, All, All-parts, map,
}
use qiftop.Containers.Map.{Map, put}
use qiftop.Flow.Types.{Text, Address, Connection}
use qiftop.Flow.Key.{KeyText, connection_key}
use qiftop.Aggregate.Runs.{Run}
use qiftop.Aggregate.Runs.Cover.{
  rows_of_run, rows_of_runs, IsMaximal, last-rows_of_run, tail-IsMaximal,
}
use qiftop.Aggregate.Real.{Real}
use qiftop.Aggregate.Rows.{
  Row, Settings, Signal, rows_updated, rows_about_to_be_removed, rows_removed,
  rows_about_to_be_inserted, rows_inserted, view_data_changed, resolves, is_overdue, prune_rows,
  new_row, update_rows, append_rows,
}

-- What was announced and is not done yet.
pub data Pending : Type 0 where
  idle : Pending
  removing : ℕ → ℕ → Pending
  inserting : ℕ → ℕ → Pending

-- The adapter after a signal; `none` where the model would refuse it: a range that is empty or
-- out of the rows, or an announcement that is not followed by its change.
pub receive : Signal → ℕ × Pending → Option (ℕ × Pending)
receive (rows_updated first last) (n, idle) =
    if leb first last && ltb last n then some (n, idle) else none
receive (rows_about_to_be_removed first last) (n, idle) =
    if leb first last && ltb last n then some (n, removing first last) else none
receive rows_removed (n, removing first last) = some (n - (last + 1 - first), idle)
receive (rows_about_to_be_inserted first last) (n, idle) =
    if leb first last && leb first n then some (n, inserting first last) else none
receive rows_inserted (n, inserting first last) = some (n + (last + 1 - first), idle)
receive view_data_changed (n, idle) = some (n, idle)
receive (resolves a) s = some s
receive s t = none

abbrev pub and_then : List Signal → Option (ℕ × Pending) → Option (ℕ × Pending)
and_then [] x = x
and_then (s ∷ ss) none = none
and_then (s ∷ ss) (some x) = and_then ss (receive s x)

abbrev pub receive_all : List Signal → ℕ × Pending → Option (ℕ × Pending)
receive_all ss x = and_then ss (some x)

and_then-none : (ss : List Signal) → and_then ss none ≡ none
and_then-none [] = refl
and_then-none (s ∷ ss) = refl

pub and_then-append :
    (ss ts : List Signal) (x : Option (ℕ × Pending))
    → and_then (ss ++ ts) x ≡ and_then ts (and_then ss x)
and_then-append [] ts x = refl
and_then-append (s ∷ ss) [] none = refl
and_then-append (s ∷ ss) (t ∷ ts) none = refl
and_then-append (s ∷ ss) ts (some x) = and_then-append ss ts (receive s x)

receive-rows_updated :
    (first last n : ℕ)
    → first ≤ last
    → last < n
    → receive (rows_updated first last) (n, idle) ≡ some (n, idle)
unfolding receive
receive-rows_updated first last n h k = ground arith

pub receive-resolves : (addr : Address) (x : ℕ × Pending) → receive (resolves addr) x ≡ some x
unfolding receive
receive-resolves addr x = refl

-- `k + 1` rows behind `n`.
pub receive-rows_about_to_be_inserted :
    (n k : ℕ)
    → receive (rows_about_to_be_inserted n (n + suc k - 1)) (n, idle)
      ≡ some (n, inserting n (n + suc k - 1))
unfolding receive
receive-rows_about_to_be_inserted n k = ground arith

pub receive-rows_inserted :
    (n k : ℕ) → receive rows_inserted (n, inserting n (n + suc k - 1)) ≡ some (n + suc k, idle)
unfolding receive
receive-rows_inserted n k =
    let e : n + (n + suc k - 1 + 1 - n) ≡ n + suc k = omega arith in ap (λ t. some (t, idle)) e

receive-rows_removed :
    (i n : ℕ)
    → i ≤ n
    → receive_all (rows_about_to_be_removed i i ∷ rows_removed ∷ []) (n + 1, idle) ≡ some (n, idle)
unfolding receive
receive-rows_removed i n h =
    let announced : receive (rows_about_to_be_removed i i) (n + 1, idle)
        ≡ some (n + 1, removing i i) =
      ground arith in
    let one : n + 1 - (i + 1 - i) ≡ n = omega arith in
    ap (and_then (rows_removed ∷ [])) announced ∙ ap (λ t. some (t, idle)) one

pub prune_rows-receive :
    {Num : Type 0} (cfg : Settings) (now i : ℕ) (rs : List (Row Num))
    → let (kept, signals) = prune_rows cfg now i rs in
      receive_all signals (i + length rs, idle) ≡ some (i + length kept, idle)
unfolding prune_rows receive
prune_rows-receive cfg now i [] = refl
prune_rows-receive cfg now i (r ∷ rs) =
    let ih = prune_rows-receive cfg now (i + 1) rs in
    let rest = prune_rows cfg now (i + 1) rs in
    let start : i + suc (length rs) ≡ i + 1 + length rs = omega arith in
    let stop : i + suc (length rest.0) ≡ i + 1 + length rest.0 = omega arith in
    let removed : i + 1 + length rest.0 ≡ i + length rest.0 + 1 = omega arith in
    elim (Bool-cases (is_overdue cfg now r)) [
      | inl over ↦
          rw
            (
              over,
              start,
              and_then-append rest.1 (rows_about_to_be_removed i i ∷ rows_removed ∷ [])
                  (some (i + 1 + length rs, idle)),
              ih,
              removed,
            )
            (receive-rows_removed i (i + length rest.0) (omega arith))
      | inr kept ↦ rw (kept, start, stop) ih
    ]

-- The runs of rows below `n` are ranges of rows.
pub runs-receive :
    (n : ℕ) (rs : List Run)
    → IsMaximal rs
    → All (λ i. i < n) (rows_of_runs rs)
    → receive_all (map (λ r. rows_updated r.0 r.1) rs) (n, idle) ≡ some (n, idle)
runs-receive n [] h a = refl
runs-receive n (r ∷ rs) h a =
    let parts = All-parts (λ i. i < n) (rows_of_run r) (rows_of_runs rs) a in
    let whole = tail-IsMaximal r rs h in
    ap (and_then (map (λ r. rows_updated r.0 r.1) rs)) (
      receive-rows_updated r.0 r.1 n whole.0
        (last-rows_of_run (λ i. i < n) r.0 r.1 whole.0 parts.0))
    ∙ (runs-receive n rs whole.1 parts.1)

module _ {Num : Type 0} (d : Real Num) (q : KeyText) where
  pub length-append_rows :
      (now : ℕ) (rows : List (Row Num)) (idx : Map Text ℕ) (cs : List Connection)
      → length (append_rows d q now rows idx cs).0 ≡ length rows + length cs
  unfolding append_rows
  length-append_rows now rows idx [] = omega arith
  length-append_rows now rows idx (c ∷ cs) =
      let r = new_row d now c in
      omega (
        arith,
        length-append_rows now (rows ++ r ∷ []) (put (connection_key q c) (length rows) idx) cs,
        length-append rows (r ∷ []),
      )

  module _ (cfg : Settings) (now delta_ms : ℕ) (prev incoming : Map Text Connection) where
    pub length-update_rows :
        (i : ℕ) (rs : List (Row Num))
        → length (update_rows d q cfg now delta_ms prev incoming i rs).0 ≡ length rs
    unfolding update_rows
    length-update_rows i [] = refl
    length-update_rows i (r ∷ rs) = omega (arith, length-update_rows (i + 1) rs)

    All-if :
        (P : ℕ → Type 0) (b : Bool) (i : ℕ) (is : List ℕ)
        → P i
        → All P is
        → All P (if b then i ∷ is else is)
    All-if P true i is h a = (h, a)
    All-if P false i is h a = a

    -- The rows that are reported are rows.
    pub update_rows-All :
        (i n : ℕ) (rs : List (Row Num))
        → i + length rs ≤ n
        → All (λ j. j < n) (update_rows d q cfg now delta_ms prev incoming i rs).1
    unfolding update_rows
    update_rows-All i n [] h = tt
    update_rows-All i n (r ∷ rs) h =
        All-if (λ j. j < n) _ i _ (omega arith) (update_rows-All (i + 1) n rs (omega arith))
