-- ===== src/Agent/Idle/Awake.antt =====
-- What activity does to the polling of src/agent/IdleManager.cpp, and for how long.
use qiftop.Common.{
  ℕ, ◌+◌, ◌≤◌, ◌<◌, ◌≡◌, ◌⊎◌, refl, sym, ◌∙◌, ap, subst, inl, inr, Bool, true, false, not, ◌||◌,
  List, [], ◌∷◌, ◌++◌, Option, none, some, arith, if◌then◌else◌, ◌==◌, nat_eq, list_eq, max, All,
  All-append, Bool-cases,
}
use qiftop.Common.Int.{ℤ, positive_or}
use qiftop.Containers.Map.{contains, put, remove}
use qiftop.Flow.Types.{Text, is_empty}
use qiftop.Agent.Table.{Hint, is_refused}
use qiftop.Agent.Idle.{
  Config, IdleManager, Answer, effective_interval, pruned, is_current, apply_interval, target_of,
  target, evaluated, evaluate, note_activity, record_hint, drop_hint, set_client_hint,
  on_name_owner_changed, unchanged,
}

-- An operation on the manager, at a time.
pub data Op : Type 0 where
  notes : Op
  evaluates : Op
  hints : Text → ℤ → Op
  owner_changes : Text → Text → Text → Op

pub apply : IdleManager → ℕ × Op → Answer
apply s (now, notes) = note_activity s now
apply s (now, evaluates) = evaluate s now
apply s (now, hints sender ms) = set_client_hint s sender ms now
apply s (now, owner_changes name old new) = on_name_owner_changed s name old new now

-- The manager after some operations, and the intervals that they applied.
unfoldable pub run : IdleManager → List (ℕ × Op) → IdleManager × List ℕ
unfolding apply
run s [] = (s, [])
run s (o ∷ os) =
    let a = apply s o in let (s', applied) = run a.manager os in (s', a.applied ++ applied)

-- A window that is disabled, or not over at `now` for what began at `from`.
abbrev IsOpen : ℕ → ℕ → ℕ → Type 0
IsOpen window from now = (window ≡ 0) ⊎ (now < from + window)

-- Too early for a pause, if there was activity at `from`.
abbrev pub IsSoon : Config → ℕ → ℕ → Type 0
IsSoon c from now =
    (from ≤ now) × IsOpen c.idle_timeout_ms from now × IsOpen c.slow2_window_ms from now

-- Too early to slow down.
abbrev pub IsRecent : Config → ℕ → ℕ → Type 0
IsRecent c from now =
    IsSoon c from now × IsOpen c.slow1_window_ms from now × IsOpen c.active_window_ms from now

abbrev pub Polls : Option ℕ → Type 0
Polls none = ⊥
Polls (some ms) = 0 < ms

record IsAwake (c : Config) (from : ℕ) (s : IdleManager) : Type 0 where
  pub same : s.config ≡ c
  pub later : from ≤ s.since
  pub polls : Polls s.current_ms

abbrev StaysAwake : Config → ℕ → Answer → Type 0
StaysAwake c from a = IsAwake c from a.manager × All (λ ms. 0 < ms) a.applied

effective_interval-pos :
    (s : IdleManager) (now : ℕ) → 0 < s.config.min_interval_ms → 0 < effective_interval s now
unfolding effective_interval
effective_interval-pos s now h = omega arith

target-pos :
    (s : IdleManager) (from now : ℕ)
    → 0 < s.config.min_interval_ms
    → from ≤ s.since
    → IsSoon s.config from now
    → 0 < target s now
unfolding target_of
target-pos s from now h later soon =
    ground (arith, effective_interval-pos s now h, soon.0, soon.1, soon.2)

target-effective_interval :
    (s : IdleManager) (from now : ℕ)
    → from ≤ s.since
    → IsRecent s.config from now
    → target s now ≡ effective_interval s now
unfolding target_of
target-effective_interval s from now later recent = ground arith

current-Polls : (o : Option ℕ) (ms : ℕ) → 0 < ms → is_current o ms ≡ true → Polls o
current-Polls none ms h e = cc
current-Polls (some n) ms h e = ground arith

apply_interval-StaysAwake :
    (c : Config) (from : ℕ) (s : IdleManager) (accepted : Bool) (ms : ℕ)
    → s.config ≡ c
    → from ≤ s.since
    → 0 < ms
    → StaysAwake c from (apply_interval s accepted ms)
unfolding apply_interval
apply_interval-StaysAwake c from s accepted ms same later h =
    elim (Bool-cases (is_current s.current_ms ms)) [
      | inl current ↦ rw current (
        record { same = same; later = later; polls = current-Polls s.current_ms ms h current },
        tt,
      )
      | inr other ↦ rw other (record { same = same; later = later; polls = h }, (h, tt))
    ]

evaluated-StaysAwake :
    (c : Config) (from : ℕ) (s : IdleManager) (now : ℕ) (accepted : Bool)
    → 0 < c.min_interval_ms
    → IsSoon c from now
    → s.config ≡ c
    → from ≤ s.since
    → StaysAwake c from (evaluated s now accepted)
unfolding evaluated pruned
evaluated-StaysAwake c from s now accepted h soon same later =
    let floor = subst (λ k. 0 < k.min_interval_ms) (sym same) h in
    let soon' = subst (λ k. IsSoon k from now) (sym same) soon in
    apply_interval-StaysAwake c from (pruned s now) accepted (target s now) same later
      (target-pos s from now floor later soon')

note_activity-StaysAwake :
    (c : Config) (from : ℕ) (s : IdleManager) (now : ℕ)
    → 0 < c.min_interval_ms
    → from ≤ now
    → s.config ≡ c
    → StaysAwake c from (note_activity s now)
unfolding note_activity pruned
note_activity-StaysAwake c from s now h le same =
    let floor = subst (λ k. 0 < k.min_interval_ms) (sym same) h in
    apply_interval-StaysAwake c from (pruned (record s { since = now }) now) true
      (effective_interval s now) same le (effective_interval-pos s now floor)

module _ (c : Config) (from now : ℕ) (h : 0 < c.min_interval_ms) (soon : IsSoon c from now) where
  either :
      (b : Bool) (x y : Answer)
      → StaysAwake c from x
      → StaysAwake c from y
      → StaysAwake c from (if b then x else y)
  either true x y p r = p
  either false x y p r = r

  record_hint-StaysAwake :
      (s : IdleManager) (sender : Text) (ms : ℕ)
      → IsAwake c from s
      → StaysAwake c from (record_hint s sender ms now)
  unfolding record_hint
  record_hint-StaysAwake s sender ms t =
      let hint : Hint ℕ = record {
        value = max ms s.config.min_interval_ms;
        expires_at_ms = now + s.config.hint_ttl_ms;
      } in
      let s' = record s { hints = put sender hint s.hints } in
      either (is_refused sender s.hints) (unchanged s false) (evaluated s' now true) (t, tt)
        (evaluated-StaysAwake c from s' now true h soon t.same t.later)

  without-StaysAwake :
      (s : IdleManager) (sender : Text)
      → IsAwake c from s
      → StaysAwake c from (
          if contains sender s.hints
          then evaluated (record s { hints = remove sender s.hints }) now true
          else unchanged s true)
  without-StaysAwake s sender t =
      let s' = record s { hints = remove sender s.hints } in
      either (contains sender s.hints) (evaluated s' now true) (unchanged s true)
        (evaluated-StaysAwake c from s' now true h soon t.same t.later) (t, tt)

  set_client_hint-StaysAwake :
      (s : IdleManager) (sender : Text) (ms : ℤ)
      → IsAwake c from s
      → StaysAwake c from (set_client_hint s sender ms now)
  unfolding set_client_hint drop_hint
  set_client_hint-StaysAwake s sender ms t =
      let positive = positive_or ms 0 in
      let rest =
        if positive == 0 then drop_hint s sender now else record_hint s sender positive now in
      either (is_empty sender) (unchanged s false) rest (t, tt)
        (either (positive == 0) (drop_hint s sender now) (record_hint s sender positive now)
          (without-StaysAwake s sender t) (record_hint-StaysAwake s sender positive t))

  apply-StaysAwake :
      (o : Op) (s : IdleManager) → IsAwake c from s → StaysAwake c from (apply s (now, o))
  unfolding apply evaluate on_name_owner_changed
  apply-StaysAwake notes s t = note_activity-StaysAwake c from s now h soon.0 t.same
  apply-StaysAwake evaluates s t = evaluated-StaysAwake c from s now true h soon t.same t.later
  apply-StaysAwake (hints sender ms) s t = set_client_hint-StaysAwake s sender ms t
  apply-StaysAwake (owner_changes name old new) s t =
      let dropped =
        if contains name s.hints
        then evaluated (record s { hints = remove name s.hints }) now true
        else unchanged s true in
      either (not (is_empty new) || is_empty old) (unchanged s true) dropped (t, tt)
        (without-StaysAwake s name t)

run-StaysAwake :
    (c : Config) (from : ℕ) (os : List (ℕ × Op)) (s : IdleManager)
    → 0 < c.min_interval_ms
    → All (λ o. IsSoon c from o.0) os
    → IsAwake c from s
    → let (s', applied) = run s os in IsAwake c from s' × All (λ ms. 0 < ms) applied
unfolding run
run-StaysAwake c from [] s h soon t = (t, tt)
run-StaysAwake c from ((now, o) ∷ os) s h soon t =
    let a = apply s (now, o) in
    let (awake, polled) = apply-StaysAwake c from now h soon.0 o s t in
    let (later, rest) = run-StaysAwake c from os a.manager h soon.1 awake in
    (later, All-append (λ ms. 0 < ms) a.applied (run a.manager os).1 polled rest)

current-apply_interval :
    (s : IdleManager) (accepted : Bool) (ms : ℕ)
    → (apply_interval s accepted ms).manager.current_ms ≡ some ms
unfolding apply_interval
current-apply_interval s accepted ms = elim (Bool-cases (is_current s.current_ms ms)) [
  | inl current ↦ rw current (current_is s.current_ms current)
  | inr other ↦ rw other refl
]
  where
    current_is : (o : Option ℕ) → is_current o ms ≡ true → o ≡ some ms
    current_is none e = cc
    current_is (some n) e = ground arith

current-note_activity :
    (s : IdleManager) (now : ℕ)
    → (note_activity s now).manager.current_ms ≡ some (effective_interval s now)
unfolding note_activity pruned
current-note_activity s now =
    current-apply_interval (pruned (record s { since = now }) now) true (effective_interval s now)

current-evaluate :
    (s : IdleManager) (now : ℕ) → (evaluate s now).manager.current_ms ≡ some (target s now)
unfolding evaluate pruned
current-evaluate s now = current-apply_interval (pruned s now) true (target s now)

-- With a floor above 0, activity gives the manager the interval for an active agent at once, and
-- so ends a pause. If all that is done with it afterwards, at times not before the activity, comes
-- before any enabled window for a pause is over, counted from the activity, then no pause is
-- applied and the manager still polls; an evaluation at a time when no enabled window at all is
-- over gives it the interval for an active agent again.
pub run-note_activity :
    (s : IdleManager) (now : ℕ) (os : List (ℕ × Op)) (t : ℕ)
    → 0 < s.config.min_interval_ms
    → All (λ o. IsSoon s.config now o.0) os
    → IsRecent s.config now t
    → let a = note_activity s now in
      let (s', applied) = run a.manager os in
      (a.manager.current_ms ≡ some (effective_interval s now))
      × All (λ ms. 0 < ms) (a.applied ++ applied)
      × Polls s'.current_ms
      × ((evaluate s' t).manager.current_ms ≡ some (effective_interval s' t))
run-note_activity s now os t h soon recent =
    let a = note_activity s now in
    let (awake, polled) = note_activity-StaysAwake s.config now s now h (omega arith) refl in
    let (s', applied) = run a.manager os in
    let (later, rest) = run-StaysAwake s.config now os a.manager h soon awake in
    let recent' = subst (λ k. IsRecent k now t) (sym later.same) recent in
    (
      current-note_activity s now,
      All-append (λ ms. 0 < ms) a.applied applied polled rest,
      later.polls,
      current-evaluate s' t ∙ ap some (target-effective_interval s' now t later.later recent'),
    )
