-- ===== src/Aggregate/Interfaces/Rebuild.antt =====
-- Interfaces that are updated in place, against a list of rows that is built anew.
use qiftop.Common.{
  ℕ, subst, ◌≡◌, ◌≢◌, refl, sym, inl, inr, false, List, [], ◌∷◌, none, arith, ◌==◌, ==_iff, nat_eq,
  list_eq, Bool-cases, length, map, All,
}
use qiftop.Containers.Map.{Map, find, put, find-put, find-contains}
use qiftop.Flow.Types.{Text}
use qiftop.Aggregate.Real.{Real}
use qiftop.Aggregate.Interfaces.Order.{IsOrdered, sorted_by_name-IsOrdered}
use qiftop.Aggregate.Interfaces.{
  InterfaceStats, InterfaceRow, InterfaceAggregator, sorted_by_name, names_differ,
  structure_changed, index_stats, renewed, fresh_row, renew_rows, secs_since, update_stats,
}

-- Every row is of an interface that the statistics before have.
abbrev IsKnown : {Num : Type 0} → Map Text InterfaceStats → List (InterfaceRow Num) → Type 0
IsKnown prev = All (λ r. find r.current.name prev ≢ none)

pub AreKept : {Num : Type 0} → InterfaceAggregator Num → Type 0
AreKept a = IsKnown a.prev a.rows

-- Names that were put stay, whatever else is put.
find-index_stats :
    (k : Text) (m : Map Text InterfaceStats) (ss : List InterfaceStats)
    → find k m ≢ none
    → find k (index_stats m ss) ≢ none
unfolding index_stats
find-index_stats k m [] h = h
find-index_stats k m (s ∷ ss) h =
    find-index_stats k (put s.name s m) ss (ground (arith, find-put k s.name s m))

All-index_stats :
    (m : Map Text InterfaceStats) (ss : List InterfaceStats)
    → All (λ s. find s.name (index_stats m ss) ≢ none) ss
unfolding index_stats
All-index_stats m [] = tt
All-index_stats m (s ∷ ss) = (
  find-index_stats s.name (put s.name s m) ss
      (ground (arith, find-put s.name s.name s m, ==_iff s.name s.name)),
  All-index_stats (put s.name s m) ss,
)

module _ {Num : Type 0} (d : Real Num) (delta_secs : Num) (prev : Map Text InterfaceStats) where
  -- A row of a known interface is the one that would be built.
  renewed-fresh_row :
      (s : InterfaceStats) (r : InterfaceRow Num)
      → find s.name prev ≢ none
      → renewed d delta_secs (find s.name prev) s r ≡ fresh_row d delta_secs prev s
  unfolding renewed fresh_row
  renewed-fresh_row s r h = elim (find-contains s.name prev) [
    | inl found ↦ let (_, (p, e)) = found in rw e refl
    | inr missing ↦ absurd (h missing.1)
  ]

  renew_rows-map :
      (ss : List InterfaceStats) (rs : List (InterfaceRow Num))
      → length ss ≡ length rs
      → names_differ ss rs ≡ false
      → IsKnown prev rs
      → renew_rows d delta_secs prev ss rs ≡ map (fresh_row d delta_secs prev) ss
  unfolding names_differ renew_rows
  renew_rows-map [] [] l n k = refl
  renew_rows-map [] (r ∷ rs) l n k = ground arith
  renew_rows-map (s ∷ ss) [] l n k = ground arith
  renew_rows-map (s ∷ ss) (r ∷ rs) l n k = elim (Bool-cases (s.name == r.current.name)) [
    | inl same ↦
        let known =
          subst (λ x. find x prev ≢ none) (sym ((==_iff s.name r.current.name).0 same)) k.0 in
        let rest = renew_rows-map ss rs (omega arith) (rw same at n) k.1 in
        rw (renewed-fresh_row s r known, rest) refl
    | inr other ↦ absurd (ground arith)
  ]

  fresh_row-current : (s : InterfaceStats) → (fresh_row d delta_secs prev s).current ≡ s
  unfolding fresh_row renewed
  fresh_row-current s = elim (find-contains s.name prev) [
    | inl found ↦ let (_, (p, e)) = found in rw e refl
    | inr missing ↦ rw missing.1 refl
  ]

  map-fresh_row :
      (ss : List InterfaceStats) → map (λ r. r.current) (map (fresh_row d delta_secs prev) ss) ≡ ss
  map-fresh_row [] = refl
  map-fresh_row (s ∷ ss) = rw (fresh_row-current s, map-fresh_row ss) refl

  fresh_rows-IsKnown :
      (m : Map Text InterfaceStats) (ss : List InterfaceStats)
      → All (λ s. find s.name m ≢ none) ss
      → IsKnown m (map (fresh_row d delta_secs prev) ss)
  fresh_rows-IsKnown m [] h = tt
  fresh_rows-IsKnown m (s ∷ ss) h = (rw (fresh_row-current s) h.0, fresh_rows-IsKnown m ss h.1)

structure_changed_parts :
    {Num : Type 0} (ss : List InterfaceStats) (rs : List (InterfaceRow Num))
    → structure_changed ss rs ≡ false
    → (length ss ≡ length rs) × (names_differ ss rs ≡ false)
unfolding structure_changed
structure_changed_parts ss rs h = ground arith

module _ {Num : Type 0} (d : Real Num) (now : ℕ) (stats : List InterfaceStats)
    (a : InterfaceAggregator Num) where
  -- The rows of a list that is built anew from the statistics, in order of names.
  abbrev pub rebuilt : List (InterfaceRow Num)
  rebuilt = map (fresh_row d (secs_since d a.last_elapsed_ms now) a.prev) (sorted_by_name stats)

  pub update_stats-rebuilt : AreKept a → (update_stats d now stats a).0.rows ≡ rebuilt
  unfolding update_stats AreKept
  update_stats-rebuilt kept =
      let ss = sorted_by_name stats in
      elim (Bool-cases (structure_changed ss a.rows)) [
        | inl changed ↦ rw changed refl
        | inr unchanged ↦
            let parts = structure_changed_parts ss a.rows unchanged in
            rw
              (
                unchanged,
                renew_rows-map d (secs_since d a.last_elapsed_ms now) a.prev ss a.rows parts.0
                    parts.1 kept,
              )
              refl
      ]

  update_stats-prev : (update_stats d now stats a).0.prev ≡ index_stats [] (sorted_by_name stats)
  unfolding update_stats
  update_stats-prev = elim (Bool-cases (structure_changed (sorted_by_name stats) a.rows)) [
    | inl changed ↦ rw changed refl
    | inr unchanged ↦ rw unchanged refl
  ]

  pub update_stats-AreKept : AreKept a → AreKept (update_stats d now stats a).0
  unfolding AreKept
  update_stats-AreKept kept =
      let ss = sorted_by_name stats in
      rw (update_stats-prev, update_stats-rebuilt kept)
        (fresh_rows-IsKnown d (secs_since d a.last_elapsed_ms now) a.prev (index_stats [] ss) ss
          (All-index_stats [] ss))

  update_stats-currents :
      AreKept a → map (λ r. r.current) (update_stats d now stats a).0.rows ≡ sorted_by_name stats
  update_stats-currents kept =
      rw (update_stats-rebuilt kept)
        (map-fresh_row d (secs_since d a.last_elapsed_ms now) a.prev (sorted_by_name stats))

-- The statistics of several polls, each with its time.
pub run_updates :
    {Num : Type 0}
    → Real Num
    → List (ℕ × List InterfaceStats)
    → InterfaceAggregator Num
    → InterfaceAggregator Num
run_updates d [] a = a
run_updates d ((now, stats) ∷ polls) a = run_updates d polls (update_stats d now stats a).0

abbrev pub new_aggregator : {Num : Type 0} → InterfaceAggregator Num
new_aggregator = record { rows = []; prev = []; last_elapsed_ms = 0 }

run_updates-AreKept :
    {Num : Type 0} (d : Real Num) (polls : List (ℕ × List InterfaceStats))
    (a : InterfaceAggregator Num)
    → AreKept a
    → AreKept (run_updates d polls a)
unfolding run_updates
run_updates-AreKept d [] a kept = kept
run_updates-AreKept d ((now, stats) ∷ polls) a kept =
    run_updates-AreKept d polls (update_stats d now stats a).0
      (update_stats-AreKept d now stats a kept)

-- After any polls of a new aggregator, an update that keeps the rows in place leaves just the rows
-- that building them anew would, with the same rates, and the rows stand in the order of their
-- names.
pub run_updates-rebuilt :
    {Num : Type 0} (d : Real Num) (polls : List (ℕ × List InterfaceStats)) (now : ℕ)
    (stats : List InterfaceStats)
    → let a = run_updates d polls new_aggregator in
      let rows = (update_stats d now stats a).0.rows in
      (rows ≡ rebuilt d now stats a) × IsOrdered (map (λ r. r.current) rows)
unfolding AreKept
run_updates-rebuilt d polls now stats =
    let a = run_updates d polls new_aggregator in
    let kept = run_updates-AreKept d polls new_aggregator tt in
    (
      update_stats-rebuilt d now stats a kept,
      rw (update_stats-currents d now stats a kept) (sorted_by_name-IsOrdered stats),
    )
