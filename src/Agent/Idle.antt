-- ===== src/Agent/Idle.antt =====
-- src/agent/IdleManager.h and IdleManager.cpp. The clock is an argument, and the timer calls
-- `evaluate`. A window or an interval of 0 stands for every one that is not positive. What an
-- operation does to the two monitors and to its observers is the list of intervals that it applies,
-- 0 for paused; `none` is the interval before the first is applied.
pub mod Cadence
pub mod Awake
use qiftop.Common.{
  ℕ, ◌+◌, ◌-◌, ◌≡◌, Bool, true, false, not, ◌&&◌, ◌||◌, List, [], ◌∷◌, ◌++◌, Option, none, some,
  arith, ltb, leb, if◌then◌else◌, ◌==◌, nat_eq, list_eq, max, min,
}
use qiftop.Common.Int.{ℤ, pos, negsuc, positive_or}
use qiftop.Containers.Map.{contains, put, remove}
use qiftop.Flow.Types.{Text, is_empty}
use qiftop.Agent.Table.{Hint, Hints, prune, is_refused}

pub record Config : Type 0 where
  pub active_interval_ms : ℕ
  pub slow1_interval_ms : ℕ
  pub slow2_interval_ms : ℕ
  pub active_window_ms : ℕ
  pub slow1_window_ms : ℕ
  pub slow2_window_ms : ℕ
  pub idle_timeout_ms : ℕ
  pub min_interval_ms : ℕ
  pub hint_ttl_ms : ℕ

abbrev pub default_config : Config
default_config = record {
  active_interval_ms = 1000;
  slow1_interval_ms = 2000;
  slow2_interval_ms = 5000;
  active_window_ms = 30000;
  slow1_window_ms = 45000;
  slow2_window_ms = 60000;
  idle_timeout_ms = 60000;
  min_interval_ms = 100;
  hint_ttl_ms = 10000;
}

pub record IdleManager : Type 0 where
  pub config : Config
  -- `m_since`: the time of the last activity.
  pub since : ℕ
  pub current_ms : Option ℕ
  pub hints : Hints ℕ

-- The manager after an operation, what the operation returns, and the intervals applied.
pub record Answer : Type 0 where
  pub manager : IdleManager
  pub accepted : Bool
  pub applied : List ℕ

-- The loop over the hints: the fastest that is live.
pub fastest_live : ℕ → ℕ → Hints ℕ → ℕ
fastest_live now best [] = best
fastest_live now best ((sender, h) ∷ m) =
    fastest_live now (if leb h.expires_at_ms now then best else min best h.value) m

-- `effectiveActiveIntervalMs`, which also erases the expired hints.
unfoldable pub effective_interval : IdleManager → ℕ → ℕ
unfolding fastest_live
effective_interval s now =
    max (fastest_live now s.config.active_interval_ms s.hints) s.config.min_interval_ms

pub pruned : IdleManager → ℕ → IdleManager
pruned s now = record s { hints = prune now s.hints }

abbrev is_current : Option ℕ → ℕ → Bool
is_current none target = false
is_current (some ms) target = ms == target

-- `if (target != m_currentMs) applyInterval(target);`
pub apply_interval : IdleManager → Bool → ℕ → Answer
apply_interval s accepted target =
    if is_current s.current_ms target
    then record { manager = s; accepted = accepted; applied = [] }
    else record {
      manager = record s { current_ms = some target };
      accepted = accepted;
      applied = target ∷ [];
    }

-- `window > 0 && elapsed >= window`
abbrev pub is_over : ℕ → ℕ → Bool
is_over window elapsed = ltb 0 window && leb window elapsed

-- The ladder of `evaluate`.
unfoldable pub target_of : Config → ℕ → ℕ → ℕ
target_of c elapsed active =
    if is_over c.idle_timeout_ms elapsed || is_over c.slow2_window_ms elapsed
    then 0
    else if is_over c.slow1_window_ms elapsed
    then max c.slow2_interval_ms active
    else if is_over c.active_window_ms elapsed
    then max c.slow1_interval_ms active
    else active

abbrev pub target : IdleManager → ℕ → ℕ
target s now = target_of s.config (now - s.since) (effective_interval s now)

-- `evaluate()` and then `return accepted`.
pub evaluated : IdleManager → ℕ → Bool → Answer
unfolding apply_interval pruned
evaluated s now accepted = apply_interval (pruned s now) accepted (target s now)

unfoldable pub evaluate : IdleManager → ℕ → Answer
unfolding evaluated
evaluate s now = evaluated s now true

-- The constructor.
pub new_manager : Config → ℕ → Answer
unfolding apply_interval pruned
new_manager c now =
    let s : IdleManager = record { config = c; since = now; current_ms = none; hints = [] } in
    apply_interval (pruned s now) true (effective_interval s now)

unfoldable pub note_activity : IdleManager → ℕ → Answer
unfolding apply_interval pruned
note_activity s now =
    apply_interval (pruned (record s { since = now }) now) true (effective_interval s now)

abbrev pub unchanged : IdleManager → Bool → Answer
unchanged s accepted = record { manager = s; accepted = accepted; applied = [] }

-- `setClientHint` for a hint that is positive.
unfoldable pub record_hint : IdleManager → Text → ℕ → ℕ → Answer
unfolding evaluated
record_hint s sender ms now =
    let hint : Hint ℕ = record {
      value = max ms s.config.min_interval_ms;
      expires_at_ms = now + s.config.hint_ttl_ms;
    } in
    if is_refused sender s.hints
    then unchanged s false
    else evaluated (record s { hints = put sender hint s.hints }) now true

-- `setClientHint` for one that is not: it clears.
pub drop_hint : IdleManager → Text → ℕ → Answer
unfolding evaluated
drop_hint s sender now =
    if contains sender s.hints
    then evaluated (record s { hints = remove sender s.hints }) now true
    else unchanged s true

unfoldable pub set_client_hint : IdleManager → Text → ℤ → ℕ → Answer
unfolding record_hint drop_hint
set_client_hint s sender ms now =
    let positive = positive_or ms 0 in
    if is_empty sender
    then unchanged s false
    else if positive == 0
    then drop_hint s sender now
    else record_hint s sender positive now

unfoldable pub on_name_owner_changed : IdleManager → Text → Text → Text → ℕ → Answer
unfolding evaluated
on_name_owner_changed s name old_owner new_owner now =
    if not (is_empty new_owner) || is_empty old_owner
    then unchanged s true
    else if contains name s.hints
    then evaluated (record s { hints = remove name s.hints }) now true
    else unchanged s true
