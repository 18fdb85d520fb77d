-- ===== src/Agent/Hints.antt =====
-- src/agent/AttributionHintManager.h and AttributionHintManager.cpp. The clock is an argument; the
-- timer calls `evaluate`; the signal `effectiveModeChanged` is the mode that an operation returns.
pub mod Laws
pub mod History
use qiftop.Common.{
  ℕ, ◌+◌, ◌/◌, ◌≡◌, ◌↔◌, Bool, true, false, not, ◌&&◌, ◌||◌, List, [], ◌∷◌, Option, none, some,
  arith, if◌then◌else◌, Eq, ◌==◌, nat_eq, list_eq, nat_beq, max, leb,
}
use qiftop.Common.Int.{ℤ, positive_or}
use qiftop.Containers.Map.{contains, put, remove}
use qiftop.Flow.Types.{Text, is_empty}
use qiftop.Attribution.Tuning.{Eagerness, off, balanced, eager, eagerness_number, eagerness_eq}
use qiftop.Agent.Table.{Hint, Hints, is_live, prune, is_refused}

pub record HintManager : Type 0 where
  pub config_mode : Eagerness
  pub hint_ttl_ms : ℕ
  pub last_emitted : Eagerness
  pub hints : Hints Eagerness

-- The constructor; `qMax(1, hintTtlMs)`.
pub new_manager : Eagerness → ℤ → HintManager
new_manager config ttl = record {
  config_mode = config;
  hint_ttl_ms = positive_or ttl 1;
  last_emitted = config;
  hints = [];
}

-- std::max on the enumerators' values.
abbrev pub more_eager : Eagerness → Eagerness → Eagerness
more_eager a b = if leb (eagerness_number b) (eagerness_number a) then a else b

-- `best` while `any` is false is `none` here.
abbrev pub best_with : Option Eagerness → Eagerness → Option Eagerness
best_with none e = some e
best_with (some b) e = some (more_eager b e)

-- The loop over the hints.
pub best_live : ℕ → Option Eagerness → Hints Eagerness → Option Eagerness
best_live now best [] = best
best_live now best ((sender, h) ∷ m) =
    best_live now (if leb h.expires_at_ms now then best else best_with best h.value) m

abbrev or_config : Eagerness → Option Eagerness → Eagerness
or_config config none = config
or_config config (some e) = e

unfoldable pub effective_mode : HintManager → ℕ → Eagerness
unfolding best_live
effective_mode s now =
    if s.config_mode == off then off else or_config s.config_mode (best_live now none s.hints)

-- The manager after an operation, what the operation returns, and the mode it announces.
pub record Answer : Type 0 where
  pub manager : HintManager
  pub accepted : Bool
  pub emitted : Option Eagerness

-- Prunes, and announces a transition.
pub evaluate : HintManager → ℕ → HintManager × Option Eagerness
evaluate s now =
    let pruned = record s { hints = prune now s.hints } in
    let eff = effective_mode pruned now in
    if eff == s.last_emitted
    then (pruned, none)
    else (record pruned { last_emitted = eff }, some eff)

-- `evaluate()` and then `return accepted`.
abbrev evaluated : HintManager → ℕ → Bool → Answer
evaluated s now accepted =
    let r = evaluate s now in record { manager = r.0; accepted = accepted; emitted = r.1 }

abbrev unchanged : HintManager → Bool → Answer
unchanged s accepted = record { manager = s; accepted = accepted; emitted = none }

unfoldable pub set_hint : HintManager → Text → Eagerness → ℕ → Answer
set_hint s sender mode now =
    let hint : Hint Eagerness = record { value = mode; expires_at_ms = now + s.hint_ttl_ms } in
    if is_empty sender
    then unchanged s false
    else if is_refused sender s.hints
    then unchanged s false
    else evaluated (record s { hints = put sender hint s.hints }) now true

pub clear_hint : HintManager → Text → ℕ → Answer
clear_hint s sender now =
    if is_empty sender
    then unchanged s false
    else if contains sender s.hints
    then evaluated (record s { hints = remove sender s.hints }) now true
    else unchanged s true

pub on_name_owner_changed : HintManager → Text → Text → Text → ℕ → HintManager × Option Eagerness
on_name_owner_changed s name old_owner new_owner now =
    if not (is_empty new_owner) || is_empty old_owner
    then (s, none)
    else if contains name s.hints
    then evaluate (record s { hints = remove name s.hints }) now
    else (s, none)
