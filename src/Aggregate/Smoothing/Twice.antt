-- ===== src/Aggregate/Smoothing/Twice.antt =====
-- A second call of advanceSmoothing at the same time.
use qiftop.Common.{ℕ, ◌+◌, ◌≡◌, refl, inl, inr, false, List, [], ◌∷◌, ◌==◌, nat_eq, Bool-cases}
use qiftop.Aggregate.Runs.{runs_of}
use qiftop.Aggregate.Real.{Real}
use qiftop.Aggregate.Rows.{Channel, Row}
use qiftop.Aggregate.Update.{Aggregator}
use qiftop.Aggregate.Smoothing.{
  far_apart, progress, eased_rate, step, advance_row, advance_rows, advance_smoothing,
}

module _ {Num : Type 0} (d : Real Num)
    (same : (x : Num) → d.lt (d.of_nat 1) (d.sub x x) ≡ false) where
  far_apart-same : (x : Num) → far_apart d x x ≡ false
  unfolding far_apart
  far_apart-same x = rw (same x) refl

  step-twice :
      (now : ℕ) (ch : Channel Num) → step d now (step d now ch).0 ≡ ((step d now ch).0, false)
  unfolding step
  step-twice now ch = elim (Bool-cases (ch.anim_dur_ms == 0)) [
    | inl idle ↦ rw (idle, idle) refl
    | inr busy ↦ elim (Bool-cases (d.le (d.of_nat 1) (progress d now ch))) [
      | inl over ↦ rw (busy, over) refl
      | inr during ↦ elim (Bool-cases (d.le (progress d now ch) (d.of_nat 0))) [
        | inl early ↦ rw (busy, during, early, busy, during, early) refl
        | inr late ↦
            rw (busy, during, late, busy, during, late, far_apart-same (eased_rate d now ch)) refl
      ]
    ]
  ]

  advance_row-twice :
      (now : ℕ) (r : Row Num)
      → advance_row d now (advance_row d now r).0 ≡ ((advance_row d now r).0, false)
  unfolding advance_row
  advance_row-twice now r = elim (Bool-cases r.stale) [
    | inl stale ↦ rw stale refl
    | inr live ↦ rw (live, step-twice now r.rx, step-twice now r.tx) refl
  ]

  advance_rows-twice :
      (now i : ℕ) (rs : List (Row Num))
      → advance_rows d now i (advance_rows d now i rs).0 ≡ ((advance_rows d now i rs).0, [])
  unfolding advance_rows
  advance_rows-twice now i [] = refl
  advance_rows-twice now i (r ∷ rs) =
      rw (advance_row-twice now r, advance_rows-twice now (i + 1) rs) refl

  -- Moving the rates again at the same time changes nothing and reports no row, if no number is
  -- more than 1 above itself.
  pub advance_smoothing-twice :
      (now : ℕ) (a : Aggregator Num)
      → let b = (advance_smoothing d now a).0 in advance_smoothing d now b ≡ (b, [])
  unfolding advance_smoothing runs_of
  advance_smoothing-twice now a = elim (Bool-cases (a.settings.rate_smoothing_ms == 0)) [
    | inl off ↦ rw (off, off) refl
    | inr on ↦ rw (on, on, advance_rows-twice now 0 a.rows) refl
  ]
