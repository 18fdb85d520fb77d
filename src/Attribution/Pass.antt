-- ===== src/Attribution/Pass.antt =====
-- src/backend/Attribution.cpp: the attribution pass over a snapshot of flows, with its memos. The
-- resolver is an interface; what it answers, and the start times of processes, may change while
-- the pass runs, so each flow comes with the answers that are given while it is handled.
pub mod Memo
use qiftop.Common.{
  ℕ, ◌≡◌, ◌↔◌, Bool, true, false, not, ◌&&◌, List, [], ◌∷◌, Option, none, some, arith, ltb,
  if◌then◌else◌, Eq, ◌==◌, nat_eq, map,
}
use qiftop.Containers.Map.{Map, find, put}
use qiftop.Flow.Types.{
  Connection, ProcessInfo, ContainerInfo, process_valid, no_process, no_container,
}

-- The virtual functions of ProcessResolver, and AttributionOptions::startTimeForPid.
pub record Resolver : Type 0 where
  pub resolve_pid : Connection → ℕ
  pub enrich_pid : ℕ → Option ProcessInfo
  pub resolve_container_for_pid : ℕ → Option ContainerInfo
  pub resolve_container_chain_for_pid : ℕ → List ContainerInfo
  pub start_time_of : ℕ → ℕ

pub record PidKey : Type 0 where
  pub pid : ℕ
  pub start_time : ℕ

pub pid_key_beq_iff :
    (a b : PidKey) → ((a.pid == b.pid && a.start_time == b.start_time) ≡ true) ↔ (a ≡ b)
pid_key_beq_iff a b = ground arith

instance abbrev pub pid_key_eq : Eq PidKey
pid_key_eq = record {
  same = λ a b. a.pid == b.pid && a.start_time == b.start_time;
  same_iff = pid_key_beq_iff;
}

pub record Memos : Type 0 where
  pub process_by_pid : Map PidKey ProcessInfo
  pub container_by_pid : Map PidKey ContainerInfo
  pub chain_by_pid : Map PidKey (List ContainerInfo)

abbrev pub no_memos : Memos
no_memos = record { process_by_pid = []; container_by_pid = []; chain_by_pid = [] }

-- `if (auto pi = resolver->enrichPid(pid); pi && pi->valid()) info = *pi;`
abbrev pub valid_process : Option ProcessInfo → ProcessInfo
valid_process none = no_process
valid_process (some p) = if process_valid p then p else no_process

abbrev pub or_no_container : Option ContainerInfo → ContainerInfo
or_no_container none = no_container
or_no_container (some c) = c

-- A lookup in a memo, which is filled by `fresh` where it has nothing.
pub memoised {ℓ} : {V : Type ℓ} → PidKey → V → Map PidKey V → Map PidKey V × V
memoised key fresh m = elim (find key m) [ none ↦ (put key fresh m, fresh) | some v ↦ (m, v) ]

-- 3. The nesting chain, where it is wanted.
pub attribute_chain : Resolver → Bool → PidKey → Memos → Connection → Memos × Connection
attribute_chain r want key memos c =
    let (m, chain) = memoised key (r.resolve_container_chain_for_pid key.pid) memos.chain_by_pid in
    if want
    then (record memos { chain_by_pid = m }, record c { container_chain = chain })
    else (memos, c)

-- 2. The container, and then the chain.
pub attribute_container : Resolver → Bool → PidKey → Memos → Connection → Memos × Connection
unfolding attribute_chain
attribute_container r want key memos c =
    let (m, found) =
      memoised key (or_no_container (r.resolve_container_for_pid key.pid)) memos.container_by_pid in
    attribute_chain r want key (record memos { container_by_pid = m })
      (record c { container = found })

-- The body of the loop for a flow with a pid.
pub attribute_process : Resolver → Bool → PidKey → Memos → Connection → Memos × Connection
unfolding attribute_container
attribute_process r want key memos c =
    let (m, info) = memoised key (valid_process (r.enrich_pid key.pid)) memos.process_by_pid in
    let memos' = record memos { process_by_pid = m } in
    let c' = record c { process = info } in
    if process_valid info then attribute_container r want key memos' c' else (memos', c')

-- The body of the loop.
pub attribute_flow : Resolver → Bool → Memos → Connection → Memos × Connection
unfolding attribute_process
attribute_flow r want memos c =
    let pid = r.resolve_pid c in
    let key : PidKey = record { pid = pid; start_time = r.start_time_of pid } in
    if ltb 0 pid then attribute_process r want key memos c else (memos, c)

pub attribute_from : Bool → Memos → List (Resolver × Connection) → List Connection
attribute_from want memos [] = []
attribute_from want memos ((r, c) ∷ flows) =
    let (memos', c') = attribute_flow r want memos c in c' ∷ attribute_from want memos' flows

pub attribute_flows : Bool → List (Resolver × Connection) → List Connection
unfolding attribute_from attribute_flow memoised
attribute_flows want flows = attribute_from want no_memos flows
