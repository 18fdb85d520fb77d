-- ===== src/Agent/Idle/Cadence.antt =====
-- The polling cadence of src/agent/IdleManager.cpp.
use qiftop.Common.{
  ℕ, ◌-◌, ◌≤◌, ◌<◌, ◌≡◌, ◌⊎◌, ◌↔◌, refl, sym, subst, inl, inr, [], ◌∷◌, arith, tests, leb, nat_eq,
  list_eq, max, min, All, Bool-cases,
}
use native.Mathlib.Decide.{dec_le}
use qiftop.Flow.Types.{Text}
use qiftop.Agent.Table.{Hint, Hints}
use qiftop.Agent.Idle.{IdleManager, fastest_live, effective_interval, target_of, target}

-- No live hint of the table is faster than `ms`.
abbrev pub SlowestLive : ℕ → ℕ → Hints ℕ → Type 0
SlowestLive now ms = All (λ x. (x.1.expires_at_ms ≤ now) ⊎ (ms ≤ x.1.value))

-- Some live hint of the table asks for `ms`.
abbrev pub AskedLive : ℕ → ℕ → Hints ℕ → Type 0
AskedLive now ms [] = ⊥
AskedLive now ms ((sender, h) ∷ m) = ((now < h.expires_at_ms) × (h.value ≡ ms)) ⊎ AskedLive now ms m

-- `ms` is the fastest of `best` and the live hints.
abbrev pub Fastest : ℕ → ℕ → Hints ℕ → ℕ → Type 0
Fastest now best m ms = (ms ≤ best) × SlowestLive now ms m × ((ms ≡ best) ⊎ AskedLive now ms m)

module _ (now best : ℕ) (s : Text) (h : Hint ℕ) (m : Hints ℕ) (ms : ℕ) where
  skip_first : h.expires_at_ms ≤ now → Fastest now best m ms → Fastest now best ((s, h) ∷ m) ms
  skip_first old (le, caps, from) =
      (le, (inl old, caps), elim from [ inl e ↦ inl e | inr a ↦ inr (inr a) ])

  take_first :
      now < h.expires_at_ms → Fastest now (min best h.value) m ms → Fastest now best ((s, h) ∷ m) ms
  take_first live (le, caps, from) =
      (omega arith, (inr (omega arith), caps), elim from [ inl e ↦ first e | inr a ↦ inr (inr a) ])
    where
      first : ms ≡ min best h.value → (ms ≡ best) ⊎ AskedLive now ms ((s, h) ∷ m)
      first e = elim (dec_le best h.value) [
        | yes q ↦ inl (omega arith)
        | no q ↦ inr (inl (live, omega arith))
      ]

fastest_live-Fastest : (now best : ℕ) (m : Hints ℕ) → Fastest now best m (fastest_live now best m)
unfolding fastest_live
fastest_live-Fastest now best [] = (omega arith, tt, inl refl)
fastest_live-Fastest now best ((s, h) ∷ m) = elim (Bool-cases (leb h.expires_at_ms now)) [
  | inl old ↦
      let same : fastest_live now best ((s, h) ∷ m) ≡ fastest_live now best m = rw old in
      subst (Fastest now best ((s, h) ∷ m)) (sym same)
        (skip_first now best s h m _ (omega tests) (fastest_live-Fastest now best m))
  | inr live ↦
      let same : fastest_live now best ((s, h) ∷ m) ≡ fastest_live now (min best h.value) m =
        rw live in
      subst (Fastest now best ((s, h) ∷ m)) (sym same)
        (take_first now best s h m _ (ground arith) (fastest_live-Fastest now (min best h.value) m))
]

-- The interval for an active agent is the fastest of the configured one and the live hints, but
-- never below the floor.
pub effective_interval-Fastest :
    (s : IdleManager) (now : ℕ)
    → (ms : ℕ) × Fastest now s.config.active_interval_ms s.hints ms
      × (effective_interval s now ≡ max ms s.config.min_interval_ms)
unfolding effective_interval
effective_interval-Fastest s now = (
  fastest_live now s.config.active_interval_ms s.hints,
  fastest_live-Fastest now s.config.active_interval_ms s.hints,
  refl,
)

-- With a floor above 0, polling is paused exactly when the idle timeout or the second slow window
-- is enabled and over; otherwise the interval is at least that for an active agent.
pub target_cases :
    (s : IdleManager) (now : ℕ)
    → 0 < s.config.min_interval_ms
    → let elapsed = now - s.since in
      let c = s.config in
      ((target s now ≡ 0) ↔ (
        ((0 < c.idle_timeout_ms) × (c.idle_timeout_ms ≤ elapsed))
        ⊎ ((0 < c.slow2_window_ms) × (c.slow2_window_ms ≤ elapsed))))
      × ((target s now ≡ 0) ⊎ (effective_interval s now ≤ target s now))
unfolding target_of effective_interval
target_cases s now h = (((λ e. ground arith), (λ e. ground arith)), ground arith)
