-- ===== src/Tests/Connections.antt =====
-- ConnectionsService, and what it sends.
use qiftop.Common.{
  ℕ, zero, suc, ◌≡◌, ◌↔◌, refl, inl, true, false, List, [], ◌∷◌, none, some, arith, All, ◌==◌,
  nat_eq, list_eq,
}
use qiftop.Containers.Map.{find, contains}
use qiftop.Flow.Types.{Text, Address, Connection, no_container, resolved}
use qiftop.Flow.Wire.{utf16}
use qiftop.Attribution.Request.{key_of, DeepAttributionUpdate}
use qiftop.Attribution.Tuning.{eagerness_to_string, balanced}
use qiftop.Dbus.Dto.{HostText, to_dto, to_dtos, from_dto, as_received}
use qiftop.Dbus.Dto.Trip.{from_dto-to_dto}
use qiftop.Agent.Table.{Hints}
use qiftop.Agent.Hints.{HintManager, effective_mode}
use qiftop.Agent.Idle.{IdleManager, default_config}
use qiftop.Agent.Snapshot.{HostContext, capped}
use qiftop.Agent.Snapshot.Top.{IsWide, IsTop, capped-IsTop}
use qiftop.Agent.Connections.{
  Service, TextCase, intervals_applied, on_deep_refined, set_desired_interval_ms,
  set_desired_attribution_eagerness,
}
use qiftop.Agent.Connections.Mirror.{IsMirror}
use qiftop.Agent.Connections.Reach.{Call, snapshot, refinement, poll, serve_all, serve_all-IsMirror}
use qiftop.Agent.Connections.Refine.{AreFiner, on_deep_refined-AreFiner}
use qiftop.Agent.Connections.Activity.{IsLate, late_caller}
use qiftop.Agent.Details.{
  Accounts, ProcessDetailsPolicy, restricted, ProcessDetails, user, caller_may_see_process_fields,
  details_for,
}
use qiftop.Agent.Details.Access.{MaySee, caller_may_see_process_fields_iff, details_for-MaySee}
use qiftop.Tests.Data.{flow_of}

abbrev first_of : Text → Address
first_of [] = 0
first_of (x ∷ xs) = x

abbrev hosts : HostText
hosts = record { to_text = λ a. a ∷ []; of_text = first_of; is_ipv6 = λ a. false }

from_dto-to_dto_example :
    from_dto hosts (to_dto hosts (flow_of 1000 50)) ≡ as_received (flow_of 1000 50)
from_dto-to_dto_example = from_dto-to_dto hosts (flow_of 1000 50) refl refl (omega arith)

-- Flows with 0, 1, ... bytes.
many : ℕ → List Connection
many zero = []
many (suc n) = record (flow_of n 0) { rx_bytes = 5 } ∷ many n

many-IsWide : (n : ℕ) → All IsWide (many n)
unfolding many
many-IsWide zero = tt
many-IsWide (suc n) = (record { rx = omega arith; tx = omega arith }, many-IsWide n)

capped-IsTop_example : (dropped : List Connection) × IsTop (many 4100) (capped (many 4100)) dropped
capped-IsTop_example = capped-IsTop (many 4100) (many-IsWide 4100)

abbrev idle_now : IdleManager
idle_now = record { config = default_config; since = 0; current_ms = none; hints = [] }

-- User 1001 may see all.
abbrev policy : ProcessDetailsPolicy
policy = record { mode = restricted; allow_users = (1001 ∷ []) ∷ []; allow_groups = [] }

abbrev service : Service
service = record {
  idle = some idle_now;
  attr_hints = none;
  deep_worker = none;
  resolver = none;
  want_container_chain = false;
  details_policy = policy;
  last = [];
  last_conns = [];
  key_index = [];
  generation = 0;
  accounting_enabled = true;
}

service-IsMirror : IsMirror hosts service
unfolding find to_dtos
service-IsMirror = record { same = refl; indexed = λ k i e. cc }

abbrev host : HostContext
host = record {
  local_addrs = 7 ∷ [];
  loopback_addrs = 1 ∷ [];
  ephemeral_low = 32768;
  ephemeral_high = 60999;
}

abbrev update : DeepAttributionUpdate
update = record {
  key = key_of (flow_of 1000 50);
  generation = 1;
  process = record { pid = 12; comm = utf16 "curl"; cmdline = []; exe = []; uid = 1000 };
  container = no_container;
  container_chain = [];
  reason = resolved;
}

abbrev calls : List Call
calls =
    snapshot host 10 (flow_of 1000 50 ∷ flow_of 2000 70 ∷ [])
    ∷ refinement 20 (update ∷ [])
    ∷ poll 30
    ∷ []

serve_all-IsMirror_example : IsMirror hosts (serve_all hosts service calls)
serve_all-IsMirror_example = serve_all-IsMirror hosts service calls service-IsMirror

abbrev served : Service
served = record service {
  last = to_dtos hosts (flow_of 1000 50 ∷ []);
  last_conns = flow_of 1000 50 ∷ [];
  key_index = (key_of (flow_of 1000 50), 0) ∷ [];
}

on_deep_refined-AreFiner_example :
    AreFiner served.last_conns (on_deep_refined hosts served 20 (update ∷ [])).0.last_conns
on_deep_refined-AreFiner_example = on_deep_refined-AreFiner hosts served 20 (update ∷ [])

-- A table of `n` callers.
abbrev table {ℓ} : {A : Type ℓ} → A → ℕ → Hints A
table v zero = []
table v (suc n) = (n ∷ [], record { value = v; expires_at_ms = 90000 }) ∷ table v n

abbrev busy : IdleManager
busy = record idle_now { hints = table 500 64 }

abbrev asked : HintManager
asked = record {
  config_mode = balanced;
  hint_ttl_ms = 400;
  last_emitted = balanced;
  hints = table balanced 64;
}

abbrev crowded : Service
crowded = record service { idle = some busy; attr_hints = some asked }

abbrev plain : TextCase
plain = record { trimmed = λ s. s; to_lower = λ s. s; same_ignoring_case = λ s t. s == t }

crowded-IsLate : IsLate (utf16 ":1.9") crowded busy asked
unfolding contains
crowded-IsLate = record {
  idle = refl;
  hints = refl;
  named = refl;
  no_interval = refl;
  no_mode = refl;
}

late_caller_example :
    (set_desired_interval_ms crowded 100 (utf16 ":1.9") 250 ≡ (crowded, intervals_applied [] ∷ []))
    × (set_desired_attribution_eagerness plain crowded 100 (utf16 ":1.9") (utf16 "eager")
        ≡ (crowded, [], eagerness_to_string (effective_mode asked 100)))
late_caller_example =
    late_caller plain crowded 100 (utf16 ":1.9") (utf16 "eager") 250 busy asked crowded-IsLate
      (omega arith) (omega arith) refl

abbrev accounts : Accounts
accounts = record {
  user_name_for_uid = λ uid. uid ∷ [];
  user_in_group = λ uid group. false;
  same_ignoring_case = λ s t. s == t;
}

caller_may_see_process_fields_iff_example :
    (caller_may_see_process_fields accounts policy 1000 (user 1001) ≡ true)
    ↔ MaySee accounts policy 1000 (user 1001)
caller_may_see_process_fields_iff_example =
    caller_may_see_process_fields_iff accounts policy 1000 (user 1001)

abbrev shell : ProcessDetails
shell = record {
  pid = 12;
  uid = 1000;
  comm = utf16 "sh";
  exe = utf16 "/bin/sh";
  cmdline = utf16 "sh";
  cwd = utf16 "/";
  start_time_jiffies = 5;
}

details_for-MaySee_example :
    let d = details_for accounts policy (λ pid. some shell) (user 1001) 12 in
    (some shell ≡ some d) × MaySee accounts policy d.uid (user 1001)
unfolding details_for
details_for-MaySee_example =
    details_for-MaySee accounts policy (λ pid. some shell) (user 1001) 12 (inl (λ e. cc))
