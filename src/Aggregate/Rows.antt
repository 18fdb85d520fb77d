-- ===== src/Aggregate/Rows.antt =====
-- src/aggregate/ConnectionAggregator.h, struct Row, and the loops of updateConnections over the rows.
-- The fields that a row has for each direction are a Channel; times are milliseconds.
pub mod Lookup
pub mod Append
pub mod Adapter
use qiftop.Common.{
  ℕ, ◌+◌, ◌-◌, ◌/◌, max, Bool, true, false, not, ◌&&◌, List, [], ◌∷◌, ◌++◌, Option, none, some, ltb,
  leb, if◌then◌else◌, ◌==◌, nat_eq, list_eq, length,
}
use qiftop.Containers.Map.{Map, find, contains, put}
use qiftop.Flow.Types.{Text, Address, udp, proto_eq, Connection}
use qiftop.Flow.Key.{KeyText, connection_key}
use qiftop.Aggregate.Real.{Real, ema_update}

pub record RateSample (Num : Type 0) : Type 0 where
  pub time_ms : ℕ
  pub rate : Num

pub record Channel (Num : Type 0) : Type 0 where
  pub rate : Num
  pub raw : Num
  pub target : Num
  pub anim_from : Num
  pub anim_start_ms : ℕ
  pub anim_dur_ms : ℕ
  pub samples : List (RateSample Num)
  pub sum : Num

pub record Row (Num : Type 0) : Type 0 where
  pub current : Connection
  pub rx : Channel Num
  pub tx : Channel Num
  pub last_seen_ms : ℕ
  pub stale : Bool
  pub samples : ℕ

-- What the setters set; a negative value is 0 there too.
pub record Settings : Type 0 where
  pub stale_retention_ms : ℕ
  pub stale_retention_ms_udp : ℕ
  pub udp_aggregate_by_peer : Bool
  pub window_ms : ℕ
  pub rate_smoothing_ms : ℕ
  pub poll_interval_ms : ℕ

-- What the object emits or asks for: its signals, and the names it has resolved.
pub data Signal : Type 0 where
  rows_updated : ℕ → ℕ → Signal
  rows_about_to_be_removed : ℕ → ℕ → Signal
  rows_removed : Signal
  rows_about_to_be_inserted : ℕ → ℕ → Signal
  rows_inserted : Signal
  view_data_changed : Signal
  resolves : Address → Signal

abbrev pub row_key : {Num : Type 0} → KeyText → Row Num → Text
row_key q r = connection_key q r.current

module _ {Num : Type 0} (d : Real Num) where
  abbrev no_channel : Channel Num
  no_channel = record {
    rate = d.of_nat 0;
    raw = d.of_nat 0;
    target = d.of_nat 0;
    anim_from = d.of_nat 0;
    anim_start_ms = 0;
    anim_dur_ms = 0;
    samples = [];
    sum = d.of_nat 0;
  }

  -- The row of a flow that was not seen before.
  abbrev pub new_row : ℕ → Connection → Row Num
  new_row now c = record {
    current = c;
    rx = no_channel;
    tx = no_channel;
    last_seen_ms = now;
    stale = false;
    samples = 0;
  }

  -- `deltaSecs`
  abbrev pub delta_secs : ℕ → Num
  delta_secs delta_ms =
      if ltb 0 delta_ms then d.div (d.of_nat delta_ms) (d.of_nat 1000) else d.of_nat 1

  -- The rate of a counter that was at `before`; one that fell has none.
  pub counter_rate : ℕ → ℕ → ℕ → Num
  counter_rate delta_ms before now =
      if leb before now then d.div (d.of_nat (now - before)) (delta_secs delta_ms) else d.of_nat 0

  pub drop_old : ℕ → List (RateSample Num) → List (RateSample Num)
  drop_old cutoff [] = []
  drop_old cutoff (s ∷ ss) = if ltb s.time_ms cutoff then drop_old cutoff ss else s ∷ ss

  -- The target, and the animation towards it or the jump to it.
  pub retarget : Settings → ℕ → ℕ → Num → Channel Num → Channel Num
  retarget cfg now delta_ms raw ch =
      let tau = d.of_nat cfg.rate_smoothing_ms in
      let target =
        if ltb 0 delta_ms then ema_update d ch.target raw (d.of_nat delta_ms) tau else raw in
      let rise = if ltb 0 cfg.poll_interval_ms then cfg.poll_interval_ms else 1000 in
      if ltb 0 cfg.rate_smoothing_ms
      then record ch {
        raw = raw;
        target = target;
        anim_from = ch.rate;
        anim_start_ms = now;
        anim_dur_ms = if d.lt target ch.rate then max 100 (rise / 3) else rise;
      }
      else record ch { raw = raw; rate = raw; target = raw; anim_dur_ms = 0 }

  pub sample : Settings → ℕ → Num → Channel Num → Channel Num
  unfolding drop_old
  sample cfg now raw ch =
      let s : RateSample Num = record { time_ms = now; rate = raw } in
      record ch {
        samples = drop_old (now - cfg.window_ms) (ch.samples ++ s ∷ []);
        sum = d.add ch.sum raw;
      }

  abbrev refresh_channel : Settings → ℕ → ℕ → Num → Channel Num → Channel Num
  refresh_channel cfg now delta_ms raw ch = sample cfg now raw (retarget cfg now delta_ms raw ch)

  -- 0 if the flow was not in the snapshot before.
  pub raw_rate : ℕ → (Connection → ℕ) → Option Connection → Connection → Num
  unfolding counter_rate
  raw_rate delta_ms bytes none c = d.of_nat 0
  raw_rate delta_ms bytes (some p) c = counter_rate delta_ms (bytes p) (bytes c)

  -- A row whose flow is in the snapshot; `p` is the flow in the snapshot before.
  unfoldable pub refresh_row : Settings → ℕ → ℕ → Option Connection → Connection → Row Num → Row Num
  unfolding retarget sample raw_rate
  refresh_row cfg now delta_ms p c r = record {
    current = c;
    rx = refresh_channel cfg now delta_ms (raw_rate delta_ms (λ x. x.rx_bytes) p c) r.rx;
    tx = refresh_channel cfg now delta_ms (raw_rate delta_ms (λ x. x.tx_bytes) p c) r.tx;
    last_seen_ms = now;
    stale = false;
    samples = r.samples + 1;
  }

  abbrev halted : Channel Num → Channel Num
  halted ch = record ch {
    rate = d.of_nat 0;
    raw = d.of_nat 0;
    target = d.of_nat 0;
    anim_dur_ms = 0;
  }

  unfoldable pub mark_stale : Row Num → Row Num
  mark_stale r = record r { stale = true; rx = halted r.rx; tx = halted r.tx }

  -- The body of the loop: the row, and whether it is reported.
  unfoldable pub update_row :
      Settings → ℕ → ℕ → Map Text Connection → Text → Option Connection → Row Num → Row Num × Bool
  unfolding refresh_row mark_stale
  update_row cfg now delta_ms prev k none r = if r.stale then (r, false) else (mark_stale r, true)
  update_row cfg now delta_ms prev k (some c) r =
      (refresh_row cfg now delta_ms (find k prev) c r, true)

  -- The loop, from row `i` on: the rows, and the indices that are reported.
  pub update_rows :
      KeyText
      → Settings
      → ℕ
      → ℕ
      → Map Text Connection
      → Map Text Connection
      → ℕ
      → List (Row Num)
      → List (Row Num) × List ℕ
  unfolding update_row
  update_rows q cfg now delta_ms prev incoming i [] = ([], [])
  update_rows q cfg now delta_ms prev incoming i (r ∷ rs) =
      let k = row_key q r in
      let (r', reported) = update_row cfg now delta_ms prev k (find k incoming) r in
      let (rest, indices) = update_rows q cfg now delta_ms prev incoming (i + 1) rs in
      (r' ∷ rest, if reported then i ∷ indices else indices)

  -- The loop that appends rows: the rows, and `m_keyToIdx`.
  pub append_rows :
      KeyText → ℕ → List (Row Num) → Map Text ℕ → List Connection → List (Row Num) × Map Text ℕ
  append_rows q now rows key_to_idx [] = (rows, key_to_idx)
  append_rows q now rows key_to_idx (c ∷ cs) =
      append_rows q now (rows ++ new_row now c ∷ [])
        (put (connection_key q c) (length rows) key_to_idx) cs

-- The budget of a row, and whether it is over.
abbrev pub budget : {Num : Type 0} → Settings → Row Num → ℕ
budget cfg r = if r.current.proto == udp then cfg.stale_retention_ms_udp else cfg.stale_retention_ms

abbrev pub is_overdue : {Num : Type 0} → Settings → ℕ → Row Num → Bool
is_overdue cfg now r = r.stale && ltb (budget cfg r) (now - r.last_seen_ms)

-- The loop that removes rows, from the last to row `i`: the rows, and its signals in order.
pub prune_rows : {Num : Type 0} → Settings → ℕ → ℕ → List (Row Num) → List (Row Num) × List Signal
prune_rows cfg now i [] = ([], [])
prune_rows cfg now i (r ∷ rs) =
    let (rest, signals) = prune_rows cfg now (i + 1) rs in
    if is_overdue cfg now r
    then (rest, signals ++ rows_about_to_be_removed i i ∷ rows_removed ∷ [])
    else (r ∷ rest, signals)

-- `m_keyToIdx` over the rows, from row `i` on.
pub index_rows : {Num : Type 0} → KeyText → ℕ → List (Row Num) → Map Text ℕ → Map Text ℕ
index_rows q i [] m = m
index_rows q i (r ∷ rs) m = index_rows q (i + 1) rs (put (row_key q r) i m)

-- The flows of the snapshot that have no row.
pub additions : Map Text ℕ → Map Text Connection → List Connection
additions key_to_idx [] = []
additions key_to_idx ((k, c) ∷ incoming) =
    if contains k key_to_idx
    then additions key_to_idx incoming
    else c ∷ additions key_to_idx incoming
