-- ===== src/Aggregate/Real.antt =====
-- The operations of double that src/aggregate/ConnectionAggregator.cpp uses, and the formulas on
-- doubles of src/util/ConnectionHeuristics.h.
use qiftop.Common.{ℕ, Bool, ◌||◌, if◌then◌else◌}

pub record Real (Num : Type 0) : Type 0 where
  pub of_nat : ℕ → Num
  pub add : Num → Num → Num
  pub sub : Num → Num → Num
  pub mul : Num → Num → Num
  pub div : Num → Num → Num
  pub lt : Num → Num → Bool
  pub le : Num → Num → Bool

module _ {Num : Type 0} (d : Real Num) where
  unfoldable pub ema_update : Num → Num → Num → Num → Num
  ema_update prev raw dt_ms tau_ms =
      let alpha = d.div dt_ms (d.add tau_ms dt_ms) in
      if d.le tau_ms (d.of_nat 0) || d.le dt_ms (d.of_nat 0)
      then raw
      else d.add (d.mul alpha raw) (d.mul (d.sub (d.of_nat 1) alpha) prev)

  unfoldable pub ease_out_cubic : Num → Num
  ease_out_cubic t = let u = d.sub (d.of_nat 1) t in d.sub (d.of_nat 1) (d.mul (d.mul u u) u)
