-- ===== src/Agent/Hints/Laws.antt =====
-- The effective mode of src/agent/AttributionHintManager.cpp.
use qiftop.Common.{
  ℕ, ◌≤◌, ◌<◌, ◌≡◌, ◌≢◌, ◌⊎◌, refl, inl, inr, false, [], ◌∷◌, Option, none, some, arith, tests, leb,
  ◌==◌, nat_eq, list_eq, All, Bool-cases,
}
use qiftop.Flow.Types.{Text}
use qiftop.Agent.Table.{Hint, Hints}
use qiftop.Attribution.Tuning.{Eagerness, off, eagerness_number, eagerness_eq}
use qiftop.Agent.Hints.{HintManager, best_with, best_live, effective_mode}

infix 50 ◌≼◌
abbrev ◌≼◌ : Eagerness → Eagerness → Type 0
a ≼ b = eagerness_number a ≤ eagerness_number b

-- No live hint of the table is more eager than `e`.
abbrev pub CapsLive : ℕ → Eagerness → Hints Eagerness → Type 0
CapsLive now e = All (λ x. (x.1.expires_at_ms ≤ now) ⊎ (x.1.value ≼ e))

-- Some live hint of the table asks for `e`.
abbrev pub AskedLive : ℕ → Eagerness → Hints Eagerness → Type 0
AskedLive now e [] = ⊥
AskedLive now e ((sender, h) ∷ m) = ((now < h.expires_at_ms) × (h.value ≡ e)) ⊎ AskedLive now e m

abbrev pub NoneLive : ℕ → Hints Eagerness → Type 0
NoneLive now = All (λ x. x.1.expires_at_ms ≤ now)

abbrev Best : ℕ → Option Eagerness → Hints Eagerness → Option Eagerness → Type 0
Best now none m none = NoneLive now m
Best now none m (some e) = CapsLive now e m × AskedLive now e m
Best now (some b) m none = ⊥
Best now (some b) m (some e) = CapsLive now e m × (b ≼ e) × ((b ≡ e) ⊎ AskedLive now e m)

module _ (now : ℕ) (s : Text) (h : Hint Eagerness) (m : Hints Eagerness) where
  skip_first :
      (best res : Option Eagerness)
      → h.expires_at_ms ≤ now
      → Best now best m res
      → Best now best ((s, h) ∷ m) res
  skip_first none none old b = (old, b)
  skip_first none (some e) old b = ((inl old, b.0), inr b.1)
  skip_first (some x) none old b = b
  skip_first (some x) (some e) old (c, ge, from) =
      ((inl old, c), ge, elim from [ inl same ↦ inl same | inr asked ↦ inr (inr asked) ])

  take_first :
      (best res : Option Eagerness)
      → now < h.expires_at_ms
      → Best now (best_with best h.value) m res
      → Best now best ((s, h) ∷ m) res
  take_first none none live b = absurd b
  take_first none (some e) live (c, ge, from) =
      ((inr ge, c), elim from [ inl same ↦ inl (live, same) | inr asked ↦ inr asked ])
  take_first (some x) none live b = absurd b
  take_first (some x) (some e) live (c, ge, from) = (
    (inr (ground arith), c),
    ground arith,
    elim from [ inl same ↦ ground arith | inr asked ↦ inr (inr asked) ],
  )

best_live-Best :
    (now : ℕ) (best : Option Eagerness) (m : Hints Eagerness)
    → Best now best m (best_live now best m)
unfolding best_live
best_live-Best now none [] = tt
best_live-Best now (some b) [] = (tt, omega arith, inl refl)
best_live-Best now best ((s, h) ∷ m) = elim (Bool-cases (leb h.expires_at_ms now)) [
  | inl old ↦ rw old (skip_first now s h m best _ (omega tests) (best_live-Best now best m))
  | inr live ↦
      rw live
        (take_first now s h m best _ (ground arith) (best_live-Best now (best_with best h.value) m))
]

-- The effective mode is off if the configuration says so; otherwise it is the mode of a live hint
-- and no live hint asks for a more eager one; with no live hint it is the configured mode.
pub effective_mode_cases :
    (s : HintManager) (now : ℕ)
    → let mode = effective_mode s now in
      ((s.config_mode ≡ off) × (mode ≡ off))
      ⊎ ((s.config_mode ≢ off) × CapsLive now mode s.hints × AskedLive now mode s.hints)
      ⊎ ((s.config_mode ≢ off) × NoneLive now s.hints × (mode ≡ s.config_mode))
unfolding effective_mode
effective_mode_cases s now = elim (Bool-cases (s.config_mode == off)) [
  | inl killed ↦ inl (ground arith, rw (killed, effective_mode))
  | inr alive ↦ by_best (best_live now none s.hints) refl alive
]
  where
    by_best :
        (o : Option Eagerness)
        → best_live now none s.hints ≡ o
        → (s.config_mode == off) ≡ false
        → let mode = effective_mode s now in
          ((s.config_mode ≡ off) × (mode ≡ off))
          ⊎ ((s.config_mode ≢ off) × CapsLive now mode s.hints × AskedLive now mode s.hints)
          ⊎ ((s.config_mode ≢ off) × NoneLive now s.hints × (mode ≡ s.config_mode))
    by_best none e alive =
        let b : NoneLive now s.hints = rw e at (best_live-Best now none s.hints) in
        inr (inr ((λ k. ground arith), b, rw (alive, e, effective_mode)))
    by_best (some x) e alive =
        let b : CapsLive now x s.hints × AskedLive now x s.hints =
          rw e at (best_live-Best now none s.hints) in
        inr (inl (rw (alive, e, effective_mode) (((λ k. ground arith), b.0, b.1))))
