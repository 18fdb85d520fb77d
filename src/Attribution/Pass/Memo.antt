-- ===== src/Attribution/Pass/Memo.antt =====
-- The pass of src/backend/Attribution.cpp, and a pass without memos.
use qiftop.Common.{
  ℕ, ◌≡◌, refl, ap, inl, inr, Bool, List, [], ◌∷◌, Option, some, arith, ltb, if◌then◌else◌, All,
  map, Option-cases, Bool-cases,
}
use qiftop.Containers.Map.{Map, find, put}
use qiftop.Flow.Types.{Connection, ProcessInfo, ContainerInfo, process_valid}
use qiftop.Attribution.Pass.{
  Resolver, PidKey, pid_key_eq, pid_key_beq_iff, Memos, no_memos, valid_process, or_no_container,
  memoised, attribute_chain, attribute_container, attribute_process, attribute_flow, attribute_from,
  attribute_flows,
}

-- The pass for one flow with no memo.
pub attribute_plain : Bool → Resolver × Connection → Connection
attribute_plain want (r, c) =
    let pid = r.resolve_pid c in
    let c' = record c { process = valid_process (r.enrich_pid pid) } in
    let c'' = record c' { container = or_no_container (r.resolve_container_for_pid pid) } in
    let c''' = record c'' { container_chain = r.resolve_container_chain_for_pid pid } in
    if ltb 0 pid then (if process_valid c'.process then (if want then c''' else c'') else c') else c

-- What is known of each process, identified by its pid and start time.
pub record Facts : Type 0 where
  pub process : PidKey → Option ProcessInfo
  pub container : PidKey → Option ContainerInfo
  pub chain : PidKey → List ContainerInfo

-- The resolver's answers are those facts, for the process that has the pid at the time.
pub record Reports (k : Facts) (e : Resolver × Connection) : Type 0 where
  pub process :
      (pid : ℕ)
      → e.0.enrich_pid pid ≡ k.process (record { pid = pid; start_time = e.0.start_time_of pid })
  pub container :
      (pid : ℕ)
      → e.0.resolve_container_for_pid pid
        ≡ k.container (record { pid = pid; start_time = e.0.start_time_of pid })
  pub chain :
      (pid : ℕ)
      → e.0.resolve_container_chain_for_pid pid
        ≡ k.chain (record { pid = pid; start_time = e.0.start_time_of pid })

module _ {ℓ} {V : Type ℓ} (f : PidKey → V) where
  -- The memo holds values of `f` only.
  abbrev Agrees : Map PidKey V → Type ℓ
  Agrees = All (λ e. e.1 ≡ f e.0)

  find-Agrees : (k : PidKey) (m : Map PidKey V) (v : V) → Agrees m → find k m ≡ some v → v ≡ f k
  unfolding find
  find-Agrees k [] v a h = cc
  find-Agrees k ((j, w) ∷ m) v a h = ground (arith, find-Agrees k m v a.1, pid_key_beq_iff j k)

  put-Agrees : (k : PidKey) (m : Map PidKey V) → Agrees m → Agrees (put k (f k) m)
  unfolding put
  put-Agrees k [] a = (refl, tt)
  put-Agrees k ((j, w) ∷ m) a = ground (arith, put-Agrees k m a.1)

  memoised-Agrees :
      (k : PidKey) (m : Map PidKey V)
      → Agrees m
      → ((memoised k (f k) m).1 ≡ f k) × Agrees (memoised k (f k) m).0
  unfolding memoised
  memoised-Agrees k m a = elim (Option-cases (find k m)) [
    | inl new ↦ rw (new, memoised) ((refl, put-Agrees k m a))
    | inr (v, old) ↦ rw (old, memoised) ((find-Agrees k m v a old, a))
  ]

record Consistent (k : Facts) (m : Memos) : Type 0 where
  processes : Agrees (λ p. valid_process (k.process p)) m.process_by_pid
  containers : Agrees (λ p. or_no_container (k.container p)) m.container_by_pid
  chains : Agrees k.chain m.chain_by_pid

module _ (k : Facts) (want : Bool) (r : Resolver) (c : Connection) (h : Reports k (r, c)) where
  abbrev Done : Memos × Connection → Connection → Type 0
  Done res plain = (res.1 ≡ plain) × Consistent k res.0

  attribute_chain-Done :
      (m : Memos) (pid : ℕ) (c' : Connection)
      → Consistent k m
      → Done
          (attribute_chain r want (record { pid = pid; start_time = r.start_time_of pid }) m c')
          (if want
            then record c' { container_chain = r.resolve_container_chain_for_pid pid }
            else c')
  unfolding attribute_chain
  attribute_chain-Done m pid c' v =
      let key : PidKey = record { pid = pid; start_time = r.start_time_of pid } in
      let got = memoised-Agrees k.chain key m.chain_by_pid v.chains in
      rw (h.chain pid) (elim (Bool-cases want) [
        | inl yes_want ↦
            rw (yes_want, got.0)
              ((
                refl,
                record { processes = v.processes; containers = v.containers; chains = got.1 },
              ))
        | inr no_want ↦ rw no_want ((refl, v))
      ])

  -- The flow with its container, and its chain where that is wanted.
  abbrev scoped : ℕ → Connection → Connection
  scoped pid c' =
      let c'' = record c' { container = or_no_container (r.resolve_container_for_pid pid) } in
      if want then record c'' { container_chain = r.resolve_container_chain_for_pid pid } else c''

  attribute_container-Done :
      (m : Memos) (pid : ℕ) (c' : Connection)
      → Consistent k m
      → Done
          (attribute_container r want (record { pid = pid; start_time = r.start_time_of pid }) m c')
          (scoped pid c')
  unfolding attribute_container
  attribute_container-Done m pid c' v =
      let key : PidKey = record { pid = pid; start_time = r.start_time_of pid } in
      let got =
        memoised-Agrees (λ p. or_no_container (k.container p)) key m.container_by_pid
          v.containers in
      rw (h.container pid, got.0)
        (attribute_chain-Done
          (record m {
            container_by_pid =
                (memoised key (or_no_container (k.container key)) m.container_by_pid).0;
          })
          pid (record c' { container = or_no_container (k.container key) })
          (record { processes = v.processes; containers = got.1; chains = v.chains }))

  attribute_process-Done :
      (m : Memos) (pid : ℕ)
      → Consistent k m
      → Done
          (attribute_process r want (record { pid = pid; start_time = r.start_time_of pid }) m c)
          (let c' = record c { process = valid_process (r.enrich_pid pid) } in
            if process_valid c'.process then scoped pid c' else c')
  unfolding attribute_process
  attribute_process-Done m pid v =
      let key : PidKey = record { pid = pid; start_time = r.start_time_of pid } in
      let info = valid_process (k.process key) in
      let got =
        memoised-Agrees (λ p. valid_process (k.process p)) key m.process_by_pid v.processes in
      let m' = record m { process_by_pid = (memoised key info m.process_by_pid).0 } in
      let v' : Consistent k m' = record {
        processes = got.1;
        containers = v.containers;
        chains = v.chains;
      } in
      rw (h.process pid, got.0)
        (elim (Bool-cases (process_valid info)) [
          | inl valid ↦ rw valid (attribute_container-Done m' pid (record c { process = info }) v')
          | inr invalid ↦ rw invalid ((refl, v'))
        ])

  attribute_flow-Done :
      (m : Memos) → Consistent k m → Done (attribute_flow r want m c) (attribute_plain want (r, c))
  unfolding attribute_flow attribute_plain
  attribute_flow-Done m v = elim (Bool-cases (ltb 0 (r.resolve_pid c))) [
    | inl owned ↦ rw owned (attribute_process-Done m (r.resolve_pid c) v)
    | inr unowned ↦ rw unowned ((refl, v))
  ]

attribute_from-map :
    (k : Facts) (want : Bool) (flows : List (Resolver × Connection)) (m : Memos)
    → All (Reports k) flows
    → Consistent k m
    → attribute_from want m flows ≡ map (attribute_plain want) flows
unfolding attribute_from
attribute_from-map k want [] m h v = refl
attribute_from-map k want ((r, c) ∷ flows) m h v =
    let done = attribute_flow-Done k want r c h.0 m v in
    rw (done.0) (
      ap (◌∷◌ (attribute_plain want (r, c)))
        (attribute_from-map k want flows (attribute_flow r want m c).0 h.1 done.1))

-- If the resolver's answers depend only on the process, which pid and start time identify, a pass
-- over a snapshot gives every flow what a pass without memos would have given it alone, even when
-- process ids are recycled during the pass.
pub attribute_flows-map :
    (k : Facts) (want : Bool) (flows : List (Resolver × Connection))
    → All (Reports k) flows
    → attribute_flows want flows ≡ map (attribute_plain want) flows
unfolding attribute_flows
attribute_flows-map k want flows h =
    attribute_from-map k want flows no_memos h
      (record { processes = tt; containers = tt; chains = tt })
