-- ===== src/Agent/Connections.antt =====
-- src/agent/ConnectionsService.h and ConnectionsService.cpp. The clock's reading is an argument. The
-- managers and the worker that the service is wired to are a part of its state, and what it
-- emits or calls outside is a list of signals.
pub mod Mirror
pub mod Reach
pub mod Refine
pub mod Activity
use qiftop.Common.{
  ℕ, ◌+◌, ◌-◌, ◌^◌, ◌≡◌, Bool, true, false, not, ◌&&◌, ◌||◌, List, [], ◌∷◌, ◌++◌, Option, none,
  some, ltb, leb, if◌then◌else◌, Eq, ◌==◌, nat_eq, list_eq, length, map, modify, get_elem?,
}
use qiftop.Common.Int.{ℤ, pos, negsuc}
use qiftop.Containers.Map.{Map, find, put}
use qiftop.Flow.Types.{
  Text, Connection, process_valid, container_valid, is_empty, AttributionReason, forwarded,
}
use qiftop.Flow.Wire.{utf16}
use qiftop.Attribution.Request.{
  AttributionFlowKey, flow_key_eq, key_of, DeepAttributionRequest, DeepAttributionUpdate, add64,
}
use qiftop.Attribution.Tuning.{
  Eagerness, off, balanced, eagerness_eq, ResolverTuning, resolver_tuning_for, eagerness_to_string,
  eagerness_from_lower,
}
use qiftop.Attribution.Pass.{Resolver}
use qiftop.Attribution.Worker.{Worker, set_tuning, set_active, enqueue}
use qiftop.Agent.Hints.{HintManager, effective_mode, set_hint, clear_hint}
use qiftop.Agent.Hints
use qiftop.Agent.Idle.{IdleManager, note_activity, set_client_hint}
use qiftop.Agent.Snapshot.{HostContext, prepared}
use qiftop.Agent.Details.{Accounts, ProcessDetailsPolicy, ProcessDetails, Caller, details_for}
use qiftop.Dbus.Dto.{HostText, ConnectionDto, to_dto, to_dtos}

pub record Service : Type 0 where
  pub idle : Option IdleManager
  pub attr_hints : Option HintManager
  pub deep_worker : Option Worker
  pub resolver : Option Resolver
  pub want_container_chain : Bool
  pub details_policy : ProcessDetailsPolicy
  pub last : List ConnectionDto
  pub last_conns : List Connection
  pub key_index : Map AttributionFlowKey ℕ
  pub generation : ℕ
  pub accounting_enabled : Bool

pub data Signal : Type 0 where
  connections_changed : ℕ → List ConnectionDto → Signal
  attribution_changed : ℕ → List ConnectionDto → Signal
  attribution_eagerness_changed : Text → Signal
  accounting_changed : Bool → Signal
  permission_denied : Text → Signal
  -- `m_resolver->setTuning`
  resolver_tuned : ResolverTuning → Signal
  -- The intervals that the idle manager applies.
  intervals_applied : List ℕ → Signal

-- QString::trimmed, toLower, and compare with Qt::CaseInsensitive.
pub record TextCase : Type 0 where
  pub trimmed : Text → Text
  pub to_lower : Text → Text
  pub same_ignoring_case : Text → Text → Bool

-- `if (m_idle) m_idle->noteActivity();`
pub note_to : Option IdleManager → Service → ℕ → Service × List Signal
note_to none s now = (s, [])
note_to (some m) s now =
    let a = note_activity m now in
    (record s { idle = some a.manager }, intervals_applied a.applied ∷ [])

pub note : Service → ℕ → Service × List Signal
unfolding note_to
note s now = note_to s.idle s now

-- `if (accepted && m_idle) m_idle->noteActivity();`
pub note_if : Bool → Service → ℕ → Service × List Signal
unfolding note
note_if true s now = note s now
note_if false s now = (s, [])

pub get_connections : Service → ℕ → Service × List Signal × List ConnectionDto
unfolding note
get_connections s now = let (s', signals) = note s now in (s', signals, s'.last)

pub get_process_details :
    Accounts
    → (ℕ → Option ProcessDetails)
    → Service
    → ℕ
    → Caller
    → ℕ
    → Service × List Signal × ProcessDetails
unfolding note
get_process_details q read s now who pid =
    let (s', signals) = note s now in (s', signals, details_for q s.details_policy read who pid)

-- `static_cast<int>` of a quint32.
pub to_int : ℕ → ℤ
to_int n = if ltb n (2 ^ 31) then pos n else negsuc (2 ^ 32 - n - 1)

pub hint_interval : Option IdleManager → Service → ℕ → Text → ℕ → Service × List Signal
unfolding note_if to_int
hint_interval none s now sender interval_ms = (s, [])
hint_interval (some m) s now sender interval_ms =
    let a = set_client_hint m sender (to_int interval_ms) now in
    let (s', signals) = note_if a.accepted (record s { idle = some a.manager }) now in
    (s', intervals_applied a.applied ∷ signals)

pub set_desired_interval_ms : Service → ℕ → Text → ℕ → Service × List Signal
unfolding hint_interval
set_desired_interval_ms s now sender interval_ms = hint_interval s.idle s now sender interval_ms

-- The presets, without overrides.
abbrev pub tuning_for : Eagerness → ResolverTuning
tuning_for mode = resolver_tuning_for mode (pos 0) (pos 0)

pub retuned : Eagerness → Worker → Worker
retuned mode w = set_active (set_tuning w (tuning_for mode)) (not (mode == off))

abbrev pub map_option {ℓ κ} : {A : Type ℓ} {B : Type κ} → (A → B) → Option A → Option B
map_option f none = none
map_option f (some x) = some (f x)

pub on_effective_eagerness_changed : Service → Eagerness → Service × List Signal
unfolding retuned
on_effective_eagerness_changed s mode =
    let announced = attribution_eagerness_changed (eagerness_to_string mode) ∷ [] in
    (
      record s { deep_worker = map_option (retuned mode) s.deep_worker },
      elim s.resolver [ none ↦ announced | some r ↦ resolver_tuned (tuning_for mode) ∷ announced ],
    )

-- The slot runs when the manager announces a mode.
pub announced : Service → Option Eagerness → Service × List Signal
unfolding on_effective_eagerness_changed
announced s none = (s, [])
announced s (some mode) = on_effective_eagerness_changed s mode

-- What the call does to the manager; `none` for a token that is not recognised.
pub hint_of : TextCase → HintManager → ℕ → Text → Text → Option Hints.Answer
hint_of q m now sender text =
    if is_empty text || q.same_ignoring_case text (utf16 "default")
    then some (clear_hint m sender now)
    else map_option (λ mode. set_hint m sender mode now)
        (eagerness_from_lower (q.to_lower (q.trimmed text)))

-- The manager's mode, as text.
abbrev mode_text : HintManager → ℕ → Text
mode_text m now = eagerness_to_string (effective_mode m now)

-- What the service does with the manager's answer.
pub answered : Option Hints.Answer → HintManager → Service → ℕ → Service × List Signal × Text
unfolding announced note_if
answered none m s now = (s, [], mode_text m now)
answered (some a) m s now =
    let (hinted, signals) = announced (record s { attr_hints = some a.manager }) a.emitted in
    let (noted, more) = note_if a.accepted hinted now in
    (noted, signals ++ more, mode_text a.manager now)

pub hint_eagerness :
    TextCase → Option HintManager → Service → ℕ → Text → Text → Service × List Signal × Text
unfolding answered hint_of
hint_eagerness q none s now sender mode = (s, [], eagerness_to_string balanced)
hint_eagerness q (some m) s now sender mode =
    answered (hint_of q m now sender (q.trimmed mode)) m s now

-- The service, what it emits, and the answer to the caller.
pub set_desired_attribution_eagerness :
    TextCase → Service → ℕ → Text → Text → Service × List Signal × Text
unfolding hint_eagerness
set_desired_attribution_eagerness q s now sender mode =
    hint_eagerness q s.attr_hints s now sender mode

pub on_permission_denied : Service → Text → Service × List Signal
on_permission_denied s detail = (s, permission_denied detail ∷ [])

pub on_accounting_unavailable : Service → Service × List Signal
on_accounting_unavailable s =
    if s.accounting_enabled
    then (record s { accounting_enabled = false }, accounting_changed false ∷ [])
    else (s, [])

-- `m_keyIndex` over the flows, from row `i` on.
pub index_conns : ℕ → List Connection → Map AttributionFlowKey ℕ → Map AttributionFlowKey ℕ
index_conns i [] m = m
index_conns i (c ∷ cs) m = index_conns (i + 1) cs (put (key_of c) i m)

abbrev reason_is_forwarded : AttributionReason → Bool
reason_is_forwarded forwarded = true
reason_is_forwarded _ = false

-- No process, and not by design.
pub is_weak : Connection → Bool
is_weak c = not (process_valid c.process) && not (reason_is_forwarded c.reason)

pub requests : ℕ → ℕ → Bool → List Connection → List DeepAttributionRequest
unfolding is_weak
requests generation now want [] = []
requests generation now want (c ∷ cs) =
    let r : DeepAttributionRequest = record {
      key = key_of c;
      flow = c;
      generation = generation;
      monotonic_ms_queued = now;
      want_container_chain = want;
      attempts = 0;
    } in
    if is_weak c then r ∷ requests generation now want cs else requests generation now want cs

-- `if (!reqs.isEmpty()) m_deepWorker->enqueue(reqs);`
abbrev enqueued : List DeepAttributionRequest → Worker → Worker
enqueued reqs w = if is_empty reqs then w else enqueue w reqs

pub on_connections_updated :
    HostText → HostContext → Service → ℕ → List Connection → Service × List Signal
unfolding index_conns requests
on_connections_updated q ctx s now conns =
    let kept = prepared ctx s.resolver s.want_container_chain conns in
    let generation = add64 s.generation 1 in
    let reqs = requests generation now s.want_container_chain kept in
    (
      record s {
        last = to_dtos q kept;
        last_conns = kept;
        generation = generation;
        key_index = index_conns 0 kept [];
        deep_worker = map_option (enqueued reqs) s.deep_worker;
      },
      connections_changed now (to_dtos q kept) ∷ [],
    )

-- The flow with what an update adds to it, and whether it adds anything.
pub refined : DeepAttributionUpdate → Connection → Connection × Bool
refined u c =
    let process = process_valid u.process && not (process_valid c.process) in
    let container = container_valid u.container && not (container_valid c.container) in
    let chain = not (is_empty u.container_chain) && is_empty c.container_chain in
    (
      record c {
        process = if process then u.process else c.process;
        reason = if process then u.reason else c.reason;
        container = if container then u.container else c.container;
        container_chain = if chain then u.container_chain else c.container_chain;
      },
      process || (container || chain),
    )

-- The flows, the records, and the records that changed.
pub record Refinement : Type 0 where
  pub conns : List Connection
  pub dtos : List ConnectionDto
  pub patched : List ConnectionDto

-- Row `i`, where it changed.
pub patch_row : HostText → ℕ → Connection → Bool → Refinement → Refinement
patch_row q i c false r = r
patch_row q i c true r = record {
  conns = modify (λ x. c) i r.conns;
  dtos = modify (λ x. to_dto q c) i r.dtos;
  patched = r.patched ++ to_dto q c ∷ [];
}

-- Row `i` under an update; there may be none.
pub refine_row : HostText → DeepAttributionUpdate → ℕ → Option Connection → Refinement → Refinement
unfolding refined patch_row
refine_row q u i none r = r
refine_row q u i (some c) r = let (c', changed) = refined u c in patch_row q i c' changed r

-- The row of an update's key, if it has one.
pub refine_at : HostText → DeepAttributionUpdate → Option ℕ → Refinement → Refinement
unfolding refine_row
refine_at q u none r = r
refine_at q u (some i) r = refine_row q u i (get_elem? r.conns i) r

pub refine_all :
    HostText → Map AttributionFlowKey ℕ → List DeepAttributionUpdate → Refinement → Refinement
unfolding refine_at
refine_all q key_index [] r = r
refine_all q key_index (u ∷ us) r =
    refine_all q key_index us (refine_at q u (find u.key key_index) r)

pub on_deep_refined : HostText → Service → ℕ → List DeepAttributionUpdate → Service × List Signal
unfolding refine_all
on_deep_refined q s now updates =
    let r =
      refine_all q s.key_index updates
        (record { conns = s.last_conns; dtos = s.last; patched = [] }) in
    (
      record s { last_conns = r.conns; last = r.dtos },
      if is_empty r.patched then [] else attribution_changed now r.patched ∷ [],
    )
