-- ===== src/Tests/Idle.antt =====
-- IdleManager: activity after a long pause.
use qiftop.Common.{ℕ, ◌<◌, ◌≡◌, refl, inr, List, [], ◌∷◌, ◌++◌, some, arith, All, nat_eq, list_eq}
use qiftop.Common.Int.{pos}
use qiftop.Containers.Map.{contains, put, remove}
use qiftop.Flow.Wire.{utf16}
use qiftop.Agent.Idle.{
  IdleManager, default_config, effective_interval, target_of, note_activity, evaluate,
  set_client_hint, on_name_owner_changed,
}
use qiftop.Agent.Idle.Awake.{Op, hints, evaluates, owner_changes, run, Polls, run-note_activity}

-- Long idle; then a hint of 300 ms comes and goes.
abbrev asleep : IdleManager
asleep = record { config = default_config; since = 100; current_ms = some 0; hints = [] }

abbrev later_ops : List (ℕ × Op)
later_ops =
    (70100, hints (utf16 ":1.1") (pos 300))
    ∷ (71000, evaluates)
    ∷ (120000, owner_changes (utf16 ":1.1") (utf16 ":1.1") [])
    ∷ []

run-note_activity_example :
    let a = note_activity asleep 70000 in
    let (s, applied) = run a.manager later_ops in
    (a.manager.current_ms ≡ some (effective_interval asleep 70000))
    × All (λ ms. 0 < ms) (a.applied ++ applied)
    × Polls s.current_ms
    × ((evaluate s 90000).manager.current_ms ≡ some (effective_interval s 90000))
run-note_activity_example =
    run-note_activity asleep 70000 later_ops 90000 (omega arith)
      (
        (omega arith, inr (omega arith), inr (omega arith)),
        (
          (omega arith, inr (omega arith), inr (omega arith)),
          ((omega arith, inr (omega arith), inr (omega arith)), tt),
        ),
      )
      ((omega arith, inr (omega arith), inr (omega arith)), inr (omega arith), inr (omega arith))

-- The pause ends with the activity, and the hint speeds polling up and goes again.
intervals_polled :
    let a = note_activity asleep 70000 in
    a.applied ++ (run a.manager later_ops).1 ≡ 1000 ∷ 300 ∷ 5000 ∷ []
unfolding note_activity run evaluate set_client_hint on_name_owner_changed effective_interval
    target_of contains put remove
intervals_polled = refl
