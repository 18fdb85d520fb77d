-- ===== src/Agent/Hints/History.antt =====
-- Histories of src/agent/AttributionHintManager.cpp: the table of hints and the announcements.
use qiftop.Common.{
  ℕ, ◌+◌, ◌≡◌, refl, inl, inr, List, [], ◌∷◌, Option, none, some, arith, leb, if◌then◌else◌, ◌==◌,
  nat_eq, list_eq, Bool-cases,
}
use qiftop.Common.Int.{ℤ}
use qiftop.Containers.Map.{find, put, remove, find-put, find-keep, passing, Unique-put}
use qiftop.Flow.Types.{Text}
use qiftop.Agent.Table.{
  Hint, Hints, is_live, prune, IsTable, prune-IsTable, put-IsTable, remove-IsTable,
}
use qiftop.Attribution.Tuning.{Eagerness, eagerness_eq, eagerness_beq_iff}
use qiftop.Agent.Hints.{
  HintManager, new_manager, best_with, best_live, effective_mode, evaluate, set_hint, clear_hint,
  on_name_owner_changed,
}

best_live-prune :
    (now : ℕ) (best : Option Eagerness) (m : Hints Eagerness)
    → best_live now best (prune now m) ≡ best_live now best m
unfolding best_live
best_live-prune now best [] = refl
best_live-prune now best ((s, h) ∷ m) = elim (Bool-cases (leb h.expires_at_ms now)) [
  | inl old ↦ rw old (best_live-prune now best m)
  | inr live ↦ rw (live, best_live) (rw live (best_live-prune now (best_with best h.value) m))
]

-- Evaluating leaves the effective mode as it was; the mode last announced is then the effective
-- mode, and an announcement was made exactly if it was another.
pub evaluate-effective_mode :
    (s : HintManager) (now : ℕ)
    → (effective_mode (evaluate s now).0 now ≡ effective_mode s now)
      × ((evaluate s now).0.last_emitted ≡ effective_mode s now)
      × ((evaluate s now).1
          ≡ (if effective_mode s now == s.last_emitted then none else some (effective_mode s now)))
unfolding evaluate effective_mode
evaluate-effective_mode s now = ground (
  arith,
  best_live-prune now none s.hints,
  eagerness_beq_iff (effective_mode s now) s.last_emitted,
)

-- An operation on the manager, at a time.
pub data Op : Type 0 where
  sets : Text → Eagerness → Op
  clears : Text → Op
  owner_changes : Text → Text → Text → Op
  evaluates : Op

pub apply : HintManager → ℕ × Op → HintManager
apply s (now, sets sender mode) = (set_hint s sender mode now).manager
apply s (now, clears sender) = (clear_hint s sender now).manager
apply s (now, owner_changes name old new) = (on_name_owner_changed s name old new now).0
apply s (now, evaluates) = (evaluate s now).0

pub run : HintManager → List (ℕ × Op) → HintManager
run s [] = s
run s (o ∷ os) = run (apply s o) os

evaluate-IsTable : (s : HintManager) (now : ℕ) → IsTable s.hints → IsTable (evaluate s now).0.hints
unfolding evaluate
evaluate-IsTable s now t = ground (arith, prune-IsTable now t)

apply-IsTable : (o : ℕ × Op) (s : HintManager) → IsTable s.hints → IsTable (apply s o).hints
unfolding apply set_hint clear_hint on_name_owner_changed
apply-IsTable (now, sets sender mode) s t =
    let hint : Hint Eagerness = record { value = mode; expires_at_ms = now + s.hint_ttl_ms } in
    ground (
      arith,
      evaluate-IsTable (record s { hints = put sender hint s.hints }) now,
      put-IsTable sender hint {m = s.hints},
    )
apply-IsTable (now, clears sender) s t = ground (
  arith,
  evaluate-IsTable (record s { hints = remove sender s.hints }) now,
  remove-IsTable sender t,
)
apply-IsTable (now, owner_changes name old new) s t =
    ground (
      arith,
      evaluate-IsTable (record s { hints = remove name s.hints }) now,
      remove-IsTable name t,
    )
apply-IsTable (now, evaluates) s t = evaluate-IsTable s now t

run-IsTable : (os : List (ℕ × Op)) (s : HintManager) → IsTable s.hints → IsTable (run s os).hints
unfolding run
run-IsTable [] s t = t
run-IsTable (o ∷ os) s t = run-IsTable os (apply s o) (apply-IsTable o s t)

-- After any history of a new hint manager at most 64 senders have a hint, and none has two.
pub run-new_manager-IsTable :
    (config : Eagerness) (ttl : ℤ) (os : List (ℕ × Op))
    → IsTable (run (new_manager config ttl) os).hints
unfolding new_manager
run-new_manager-IsTable config ttl os =
    run-IsTable os _ (record { within = omega arith; unique = tt })

-- In a bounded table, a sender that is refused changes no hint; one that is accepted gets its
-- hint, and every other sender keeps its own unless that has expired.
pub find-set_hint :
    (s : HintManager) (sender other : Text) (mode : Eagerness) (now : ℕ)
    → IsTable s.hints
    → let r = set_hint s sender mode now in
      let hint : Hint Eagerness = record { value = mode; expires_at_ms = now + s.hint_ttl_ms } in
      find other r.manager.hints ≡ (
        if r.accepted
        then passing (is_live now) other (if sender == other then some hint else find other s.hints)
        else find other s.hints)
unfolding set_hint evaluate
find-set_hint s sender other mode now t =
    let hint : Hint Eagerness = record { value = mode; expires_at_ms = now + s.hint_ttl_ms } in
    let kept =
      find-keep (is_live now) other (put sender hint s.hints)
        (Unique-put sender hint s.hints t.unique) in
    ground (arith, kept, find-put other sender hint s.hints)
