-- ===== src/Agent/Connections/Activity.antt =====
-- A caller whose hint is refused does not count as active.
use qiftop.Common.{
  ℕ, zero, suc, ◌<◌, ◌^◌, ◌≡◌, refl, sym, ◌∙◌, ap, true, false, ◌||◌, [], ◌∷◌, Option, none, some,
  arith, ltb, ◌==◌, nat_eq, list_eq,
}
use qiftop.Common.Int.{pos, positive_or}
use qiftop.Flow.Types.{Text, is_empty}
use qiftop.Flow.Wire.{utf16}
use qiftop.Attribution.Tuning.{Eagerness, eagerness_from_lower, eagerness_to_string}
use qiftop.Agent.Table.{is_refused}
use qiftop.Agent.Hints.{HintManager, set_hint, effective_mode}
use qiftop.Agent.Idle.{IdleManager, record_hint, set_client_hint}
use qiftop.Agent.Connections.{
  Service, TextCase, intervals_applied, map_option, to_int, note_if, hint_interval,
  set_desired_interval_ms, hint_of, answered, announced, hint_eagerness,
  set_desired_attribution_eagerness,
}

-- A caller with no hint of its own, at a full table.
pub record IsLate (sender : Text) (s : Service) (m : IdleManager) (h : HintManager) : Type 0 where
  pub idle : s.idle ≡ some m
  pub hints : s.attr_hints ≡ some h
  pub named : is_empty sender ≡ false
  pub no_interval : is_refused sender m.hints ≡ true
  pub no_mode : is_refused sender h.hints ≡ true

positive_or-pos : (n : ℕ) → positive_or (pos n) 0 ≡ n
positive_or-pos zero = refl
positive_or-pos (suc n) = refl

set_client_hint_refused :
    (m : IdleManager) (now : ℕ) (sender : Text) (ms : ℕ)
    → is_empty sender ≡ false
    → is_refused sender m.hints ≡ true
    → 0 < ms
    → ms < 2 ^ 31
    → set_client_hint m sender (to_int ms) now
      ≡ record { manager = m; accepted = false; applied = [] }
unfolding set_client_hint record_hint to_int
set_client_hint_refused m now sender ms named full more fits =
    let low : ltb ms (2 ^ 31) ≡ true = ground arith in
    let value = positive_or-pos ms in
    let positive : (ms == 0) ≡ false = ground arith in rw (low, value, named, positive, full) refl

set_hint_refused :
    (m : HintManager) (now : ℕ) (sender : Text) (mode : Eagerness)
    → is_empty sender ≡ false
    → is_refused sender m.hints ≡ true
    → set_hint m sender mode now ≡ record { manager = m; accepted = false; emitted = none }
unfolding set_hint
set_hint_refused m now sender mode named full = rw (named, full) refl

refused_interval :
    (m : IdleManager) (s : Service) (now : ℕ) (sender : Text) (ms : ℕ)
    → s.idle ≡ some m
    → set_client_hint m sender (to_int ms) now
      ≡ record { manager = m; accepted = false; applied = [] }
    → hint_interval (some m) s now sender ms ≡ (s, intervals_applied [] ∷ [])
unfolding hint_interval note_if
refused_interval m s now sender ms e refused =
    rw refused (ap (λ x. (record s { idle = x }, intervals_applied [] ∷ [])) (sym e))

refused_mode :
    (m : HintManager) (s : Service) (now : ℕ) (sender : Text) (x : Option Eagerness)
    → s.attr_hints ≡ some m
    → is_empty sender ≡ false
    → is_refused sender m.hints ≡ true
    → answered (map_option (λ mode. set_hint m sender mode now) x) m s now
      ≡ (s, [], eagerness_to_string (effective_mode m now))
unfolding answered announced note_if
refused_mode m s now sender none e named full = refl
refused_mode m s now sender (some mode) e named full =
    rw (set_hint_refused m now sender mode named full) (
      ap (λ x. (record s { attr_hints = x }, [], eagerness_to_string (effective_mode m now)))
        (sym e))

-- A caller that has no hint while the tables of hints are full changes nothing by asking for an
-- interval above 0 and below 2 ^ 31, or for a mode: it cannot keep the agent active.
pub late_caller :
    (q : TextCase) (s : Service) (now : ℕ) (sender mode : Text) (ms : ℕ) (m : IdleManager)
    (h : HintManager)
    → IsLate sender s m h
    → 0 < ms
    → ms < 2 ^ 31
    → (is_empty (q.trimmed mode) || q.same_ignoring_case (q.trimmed mode) (utf16 "default")) ≡ false
    → (set_desired_interval_ms s now sender ms ≡ (s, intervals_applied [] ∷ []))
      × (set_desired_attribution_eagerness q s now sender mode
          ≡ (s, [], eagerness_to_string (effective_mode h now)))
unfolding set_desired_interval_ms set_desired_attribution_eagerness hint_eagerness hint_of
late_caller q s now sender mode ms m h late more fits given = (
  ap (λ x. hint_interval x s now sender ms) late.idle
      ∙ (refused_interval m s now sender ms late.idle
          (set_client_hint_refused m now sender ms late.named late.no_interval more fits)),
  ap (λ x. hint_eagerness q x s now sender mode) late.hints ∙ mode_refused,
)
  where
    mode_refused :
        hint_eagerness q (some h) s now sender mode
        ≡ (s, [], eagerness_to_string (effective_mode h now))
    mode_refused = rw given (
        refused_mode h s now sender (eagerness_from_lower (q.to_lower (q.trimmed (q.trimmed mode))))
          late.hints late.named late.no_mode)
