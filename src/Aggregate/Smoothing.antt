-- ===== src/Aggregate/Smoothing.antt =====
-- src/aggregate/ConnectionAggregator.cpp: advanceSmoothing, which moves the rates that are shown towards
-- their targets between snapshots, and onResolved.
pub mod Twice
use qiftop.Common.{
  ℕ, ◌+◌, ◌-◌, Bool, true, false, not, ◌&&◌, ◌||◌, List, [], ◌∷◌, ltb, if◌then◌else◌, ◌==◌, nat_eq,
}
use qiftop.Flow.Types.{Address}
use qiftop.Aggregate.Real.{Real, ease_out_cubic}
use qiftop.Aggregate.Rows.{Channel, Row, Signal}
use qiftop.Aggregate.Update.{Aggregator, updates}

module _ {Num : Type 0} (d : Real Num) where
  -- `qAbs(a - b) > 1.0`
  unfoldable pub far_apart : Num → Num → Bool
  far_apart a b = d.lt (d.of_nat 1) (d.sub a b) || d.lt (d.of_nat 1) (d.sub b a)

  -- How much of the animation has passed.
  abbrev pub progress : ℕ → Channel Num → Num
  progress now ch = d.div (d.of_nat (now - ch.anim_start_ms)) (d.of_nat ch.anim_dur_ms)

  -- The rate on the way to the target.
  abbrev pub eased_rate : ℕ → Channel Num → Num
  eased_rate now ch =
      d.add ch.anim_from (d.mul (d.sub ch.target ch.anim_from) (ease_out_cubic d (progress now ch)))

  -- `step`: the channel, and whether its rate moved.
  unfoldable pub step : ℕ → Channel Num → Channel Num × Bool
  unfolding far_apart
  step now ch =
      if ch.anim_dur_ms == 0
      then (ch, false)
      else if d.le (d.of_nat 1) (progress now ch)
      then (record ch { rate = ch.target; anim_dur_ms = 0 }, far_apart ch.rate ch.target)
      else if d.le (progress now ch) (d.of_nat 0)
      then (ch, false)
      else (record ch { rate = eased_rate now ch }, far_apart (eased_rate now ch) ch.rate)

  unfoldable pub advance_row : ℕ → Row Num → Row Num × Bool
  unfolding step
  advance_row now r =
      let (rx, rx_moved) = step now r.rx in
      let (tx, tx_moved) = step now r.tx in
      if r.stale then (r, false) else (record r { rx = rx; tx = tx }, rx_moved || tx_moved)

  -- The loop, from row `i` on: the rows, and the indices that are reported.
  pub advance_rows : ℕ → ℕ → List (Row Num) → List (Row Num) × List ℕ
  unfolding advance_row
  advance_rows now i [] = ([], [])
  advance_rows now i (r ∷ rs) =
      let (r', moved) = advance_row now r in
      let (rest, indices) = advance_rows now (i + 1) rs in
      (r' ∷ rest, if moved then i ∷ indices else indices)

  unfoldable pub advance_smoothing : ℕ → Aggregator Num → Aggregator Num × List Signal
  unfolding advance_rows
  advance_smoothing now a =
      let (rows, indices) = advance_rows now 0 a.rows in
      if a.settings.rate_smoothing_ms == 0
      then (a, [])
      else (record a { rows = rows }, updates indices)

-- The rows, from row `i` on, with an address at one of their ends.
unfoldable pub rows_with : {Num : Type 0} → Address → ℕ → List (Row Num) → List ℕ
rows_with addr i [] = []
rows_with addr i (r ∷ rs) =
    let rest = rows_with addr (i + 1) rs in
    if r.current.local.address == addr || r.current.remote.address == addr then i ∷ rest else rest

unfoldable pub on_resolved : {Num : Type 0} → Address → Aggregator Num → List Signal
unfolding rows_with
on_resolved addr a = if a.resolve_enabled then updates (rows_with addr 0 a.rows) else []
