-- ===== src/Tests/Agent.antt =====
-- AttributionHintManager and IdleManager with two clients.
use qiftop.Common.{
  ℕ, ◌+◌, ◌≤◌, ◌<◌, ◌≡◌, ◌≢◌, ◌⊎◌, ◌↔◌, refl, List, [], ◌∷◌, none, some, arith, ◌-◌, if◌then◌else◌,
  ◌==◌, list_eq, nat_eq,
}
use qiftop.Common.Int.{negsuc}
use qiftop.Containers.Map.{find}
use qiftop.Flow.Wire.{utf16}
use qiftop.Agent.Table.{Hint, IsTable}
use qiftop.Attribution.Tuning.{Eagerness, off, balanced, eager, eagerness_eq}
use qiftop.Agent.Hints.{HintManager, effective_mode, evaluate, new_manager}
use qiftop.Agent.Hints.Laws.{CapsLive, AskedLive, NoneLive, effective_mode_cases}
use qiftop.Agent.Hints.History.{
  Op, sets, clears, evaluates, run, evaluate-effective_mode, run-new_manager-IsTable,
}
use qiftop.Agent.Idle.{IdleManager, default_config, effective_interval, target}
use qiftop.Agent.Idle.Cadence.{target_cases}

-- One client asks for `eager` until 500, another for `balanced` until 900.
abbrev asked : HintManager
asked = record {
  config_mode = balanced;
  hint_ttl_ms = 400;
  last_emitted = eager;
  hints =
      (utf16 ":1.1", record { value = eager; expires_at_ms = 500 })
      ∷ (utf16 ":1.2", record { value = balanced; expires_at_ms = 900 })
      ∷ [];
}

effective_mode_cases_example :
    let mode = effective_mode asked 300 in
    ((balanced ≡ off) × (mode ≡ off))
    ⊎ ((balanced ≢ off) × CapsLive 300 mode asked.hints × AskedLive 300 mode asked.hints)
    ⊎ ((balanced ≢ off) × NoneLive 300 asked.hints × (mode ≡ balanced))
effective_mode_cases_example = effective_mode_cases asked 300

asked_early : effective_mode asked 300 ≡ eager
unfolding effective_mode
asked_early = refl

asked_late : effective_mode asked 500 ≡ balanced
unfolding effective_mode
asked_late = refl

evaluate-effective_mode_example :
    (effective_mode (evaluate asked 600).0 600 ≡ effective_mode asked 600)
    × ((evaluate asked 600).0.last_emitted ≡ effective_mode asked 600)
    × ((evaluate asked 600).1
        ≡ (if effective_mode asked 600 == eager then none else some (effective_mode asked 600)))
evaluate-effective_mode_example = evaluate-effective_mode asked 600

abbrev history : List (ℕ × Op)
history =
    (0, sets (utf16 ":1.1") eager)
    ∷ (10, sets (utf16 ":1.2") off)
    ∷ (20, clears (utf16 ":1.1"))
    ∷ (900, evaluates)
    ∷ []

run-new_manager-IsTable_example : IsTable (run (new_manager balanced (negsuc 4)) history).hints
run-new_manager-IsTable_example = run-new_manager-IsTable balanced (negsuc 4) history

abbrev third : Hint Eagerness
third = record { value = eager; expires_at_ms = 600 + 400 }

asked-IsTable : IsTable asked.hints
unfolding find
asked-IsTable = record { within = omega arith; unique = (refl, (refl, tt)) }

-- One client asks for 300 ms until 500; the last activity was at 100.
abbrev polled : IdleManager
polled = record {
  config = default_config;
  since = 100;
  current_ms = some 300;
  hints = (utf16 ":1.1", record { value = 300; expires_at_ms = 500 }) ∷ [];
}

target_cases_example :
    let elapsed = 50000 - 100 in
    ((target polled 50000 ≡ 0)
      ↔ (((0 < 60000) × (60000 ≤ elapsed)) ⊎ ((0 < 60000) × (60000 ≤ elapsed))))
    × ((target polled 50000 ≡ 0) ⊎ (effective_interval polled 50000 ≤ target polled 50000))
target_cases_example = target_cases polled 50000 (omega arith)
