-- ===== src/Attribution/BirthResolver/Guard.antt =====
-- The guard against recycled process ids in BpfBirthResolver::resolvePid.
use qiftop.Common.{
  ℕ, ◌<◌, ◌≡◌, refl, Bool, true, false, Option, none, some, arith, if◌then◌else◌, ◌==◌, ==_refl,
  nat_eq, Option-cases, inl, inr, ◌↔◌,
}
use qiftop.Flow.Types.{Connection}
use qiftop.Attribution.BirthCache.{
  BirthKey, birth_key_eq, birth_key_of, BirthRecord, find_flow, find_birth, remove_birth,
}
use qiftop.Attribution.BirthCache.Laws.{find_birth-remove_birth, find_flow-find_birth}
use qiftop.Attribution.BirthResolver.{BirthResolver, recycled, resolve_pid}

-- The live process `pid` is the one that the record was made of, as far as the probe can tell.
abbrev pub Confirms : Option (ℕ → ℕ) → BirthRecord → Type 0
Confirms none r = Unit
Confirms (some probe) r = (probe r.pid ≡ r.start_time) × (0 < r.start_time)

¬false : (b : Bool) → ¬ (b ≡ false) → b ≡ true
¬false true h = refl
¬false false h = absurd (h refl)

recycled_iff : (o : Option (ℕ → ℕ)) (r : BirthRecord) → (recycled o r ≡ false) ↔ Confirms o r
unfolding recycled
recycled_iff none r = ((λ h. tt), (λ h. refl))
recycled_iff (some probe) r = ((λ h. ground arith), (λ h. ground arith))

-- The resolver answers a positive pid exactly if it is loaded and an unexpired record for this
-- very flow names that pid, and the live process has the start time of that record, as far as
-- there is a probe to ask.
pub resolve_pid_iff :
    (s : BirthResolver) (flow : Connection) (now pid : ℕ)
    → 0 < pid
    → ((resolve_pid s flow now).1 ≡ pid) ↔ (
        (s.loaded ≡ true)
        × ((r : BirthRecord) × (find_flow s.cache flow now ≡ some r)
            × (r.pid ≡ pid)
            × Confirms s.start_time_probe r))
unfolding resolve_pid
resolve_pid_iff s flow now pid h = (there, back)
  where
    there :
        (resolve_pid s flow now).1 ≡ pid
        → (s.loaded ≡ true)
          × ((r : BirthRecord) × (find_flow s.cache flow now ≡ some r)
              × (r.pid ≡ pid)
              × Confirms s.start_time_probe r)
    there e = elim (Option-cases (find_flow s.cache flow now)) [
      | inl missing ↦ absurd (ground arith)
      | inr (r, found) ↦ (
        ground arith,
        (r, found, ground arith, (recycled_iff s.start_time_probe r).0 (ground arith)),
      )
    ]

    back :
        (s.loaded ≡ true)
          × ((r : BirthRecord) × (find_flow s.cache flow now ≡ some r)
              × (r.pid ≡ pid)
              × Confirms s.start_time_probe r)
        → (resolve_pid s flow now).1 ≡ pid
    back (l, (r, found, same, live)) =
        let fresh = (recycled_iff s.start_time_probe r).1 live in ground arith

-- If the probe contradicts a record that the loaded resolver finds, the flow is not attributed,
-- the record is gone at every later time, and what other keys find is unchanged.
pub resolve_pid_recycled :
    (s : BirthResolver) (flow : Connection) (now later : ℕ) (k : BirthKey) (r : BirthRecord)
    → s.loaded ≡ true
    → find_flow s.cache flow now ≡ some r
    → 0 < r.pid
    → ¬ Confirms s.start_time_probe r
    → let t = resolve_pid s flow now in
      (t.1 ≡ 0)
      × (find_flow t.0.cache flow later ≡ none)
      × (find_birth t.0.cache k later
          ≡ (if birth_key_of flow == k then none else find_birth s.cache k later))
unfolding resolve_pid
resolve_pid_recycled s flow now later k r l f p h =
    let key = birth_key_of flow in
    let stale =
      ¬false (recycled s.start_time_probe r) λ e. h ((recycled_iff s.start_time_probe r).0 e) in
    (
      ground arith,
      ground (
        arith,
        find_flow-find_birth (remove_birth s.cache key) flow later,
        find_birth-remove_birth s.cache key key later,
        ==_refl key,
      ),
      ground (arith, find_birth-remove_birth s.cache key k later),
    )
