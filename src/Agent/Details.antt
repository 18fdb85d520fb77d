-- ===== src/Agent/Details.antt =====
-- src/agent/ConnectionsService.cpp: the details of a process on demand, and who may see which, with the policy of
-- src/agent/Config.h. What the bus and the operating system answer are parameters.
pub mod Access
use qiftop.Common.{
  ℕ, ◌-◌, ◌^◌, ◌≡◌, ◌≢◌, subst, ◌↔◌, ◌⊎◌, refl, inl, inr, Bool, true, false, not, ◌&&◌, ◌||◌, List,
  [], ◌∷◌, Option, none, some, arith, ltb, if◌then◌else◌, ◌==◌, nat_eq, Bool-cases, ==_refl,
}
use qiftop.Flow.Types.{Text, is_empty}

pub data Mode : Type 0 where
  owner permissive restricted : Mode

pub record ProcessDetailsPolicy : Type 0 where
  pub mode : Mode
  pub allow_users : List Text
  pub allow_groups : List Text

-- Who calls: a part of the agent, a caller whose uid the bus does not tell, or a uid.
pub data Caller : Type 0 where
  in_process unverified : Caller
  user : ℕ → Caller

-- The platform's names and groups, and comparison that ignores case.
pub record Accounts : Type 0 where
  pub user_name_for_uid : ℕ → Text
  pub user_in_group : ℕ → Text → Bool
  pub same_ignoring_case : Text → Text → Bool

-- readProcessDetails, where it is valid.
pub record ProcessDetails : Type 0 where
  pub pid : ℕ
  pub uid : ℕ
  pub comm : Text
  pub exe : Text
  pub cmdline : Text
  pub cwd : Text
  pub start_time_jiffies : ℕ

abbrev pub no_details : ProcessDetails
no_details = record {
  pid = 0;
  uid = 0;
  comm = [];
  exe = [];
  cmdline = [];
  cwd = [];
  start_time_jiffies = 0;
}

-- QStringList::contains with Qt::CaseInsensitive.
pub lists_user : Accounts → Text → List Text → Bool
lists_user q name [] = false
lists_user q name (u ∷ us) = q.same_ignoring_case u name || lists_user q name us

-- The loop over the groups.
pub in_groups : Accounts → ℕ → List Text → Bool
in_groups q caller [] = false
in_groups q caller (g ∷ gs) = q.user_in_group caller g || in_groups q caller gs

-- The lists of the policy.
pub is_allowed : Accounts → ProcessDetailsPolicy → ℕ → Bool
unfolding lists_user in_groups
is_allowed q policy caller =
    let name = q.user_name_for_uid caller in
    (not (is_empty name) && lists_user q name policy.allow_users)
    || in_groups q caller policy.allow_groups

abbrev pub is_permissive : Mode → Bool
is_permissive permissive = true
is_permissive _ = false

abbrev pub is_restricted : Mode → Bool
is_restricted restricted = true
is_restricted _ = false

pub verified_may_see : Accounts → ProcessDetailsPolicy → ℕ → Caller → Bool
unfolding is_allowed
verified_may_see q policy target_uid in_process = true
verified_may_see q policy target_uid unverified = false
verified_may_see q policy target_uid (user caller) =
    if caller == 0 || caller == target_uid
    then true
    else if is_restricted policy.mode
    then is_allowed q policy caller
    else false

pub caller_may_see_process_fields : Accounts → ProcessDetailsPolicy → ℕ → Caller → Bool
unfolding verified_may_see
caller_may_see_process_fields q policy target_uid who =
    if is_permissive policy.mode then true else verified_may_see q policy target_uid who

pub shown : ProcessDetails → Bool → ProcessDetails
shown d true = d
shown d false = record d { exe = []; cmdline = []; cwd = [] }

pub details_of : Accounts → ProcessDetailsPolicy → Caller → Option ProcessDetails → ProcessDetails
unfolding caller_may_see_process_fields shown
details_of q policy who none = no_details
details_of q policy who (some d) = shown d (caller_may_see_process_fields q policy d.uid who)

unfoldable pub details_for :
    Accounts → ProcessDetailsPolicy → (ℕ → Option ProcessDetails) → Caller → ℕ → ProcessDetails
unfolding details_of
details_for q policy read who pid =
    if pid == 0 || ltb (2 ^ 31 - 1) pid then no_details else details_of q policy who (read pid)
