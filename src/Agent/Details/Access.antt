-- ===== src/Agent/Details/Access.antt =====
-- Who sees what of a process.
use qiftop.Common.{
  ℕ, ◌-◌, ◌^◌, ◌≡◌, ◌≢◌, subst, ◌↔◌, ◌⊎◌, refl, inl, inr, Bool, true, false, ◌||◌, [], Option, none,
  some, arith, ltb, if◌then◌else◌, ◌==◌, nat_eq, Bool-cases, ==_refl,
}
use qiftop.Agent.Details.{
  Mode, ProcessDetailsPolicy, Caller, user, Accounts, ProcessDetails, no_details, is_allowed,
  is_permissive, is_restricted, verified_may_see, caller_may_see_process_fields, shown, details_of,
  details_for, owner, permissive, restricted, in_process, unverified,
}

-- Why a caller may see all of a process.
pub data MaySee (q : Accounts) (policy : ProcessDetailsPolicy) (target_uid : ℕ)
    : Caller → Type 0 where
  by_policy : {who : Caller} → policy.mode ≡ permissive → MaySee q policy target_uid who
  by_agent : MaySee q policy target_uid in_process
  by_root : MaySee q policy target_uid (user 0)
  by_owner : MaySee q policy target_uid (user target_uid)
  by_list :
      {caller : ℕ}
      → policy.mode ≡ restricted
      → is_allowed q policy caller ≡ true
      → MaySee q policy target_uid (user caller)

permissive_lem : (m : Mode) → is_permissive m ≡ true → m ≡ permissive
permissive_lem owner h = ground arith
permissive_lem permissive h = refl
permissive_lem restricted h = ground arith

restricted_lem : (m : Mode) → is_restricted m ≡ true → m ≡ restricted
restricted_lem owner h = ground arith
restricted_lem permissive h = ground arith
restricted_lem restricted h = refl

module _ (q : Accounts) (policy : ProcessDetailsPolicy) (target_uid : ℕ) where
  user_MaySee :
      (caller : ℕ)
      → verified_may_see q policy target_uid (user caller) ≡ true
      → MaySee q policy target_uid (user caller)
  unfolding verified_may_see
  user_MaySee caller h = elim (Bool-cases (caller == 0)) [
    | inl root ↦
        let e : 0 ≡ caller = ground arith in
        subst (λ c. MaySee q policy target_uid (user c)) e by_root
    | inr other ↦ elim (Bool-cases (caller == target_uid)) [
      | inl own ↦
          let e : target_uid ≡ caller = ground arith in
          subst (λ c. MaySee q policy target_uid (user c)) e by_owner
      | inr foreign ↦ elim (Bool-cases (is_restricted policy.mode)) [
        | inl lists ↦ by_list (restricted_lem policy.mode lists) (rw (other, foreign, lists) at h)
        | inr none_listed ↦ cc (rw (other, foreign, none_listed) at h)
      ]
    ]
  ]

  verified_MaySee :
      (who : Caller)
      → verified_may_see q policy target_uid who ≡ true
      → MaySee q policy target_uid who
  unfolding verified_may_see
  verified_MaySee in_process h = by_agent
  verified_MaySee unverified h = cc
  verified_MaySee (user caller) h = user_MaySee caller h

  MaySee-true :
      (who : Caller)
      → MaySee q policy target_uid who
      → caller_may_see_process_fields q policy target_uid who ≡ true
  unfolding caller_may_see_process_fields verified_may_see
  MaySee-true who (by_policy e) = rw e refl
  MaySee-true in_process by_agent = ground arith
  MaySee-true (user _) by_root = ground arith
  MaySee-true (user _) by_owner = ground (arith, ==_refl target_uid)
  MaySee-true (user caller) (by_list e h) = rw (e, h) (ground arith)

  -- A caller may see all of a process exactly for one of five reasons: the policy is permissive,
  -- the caller is a part of the agent, it is root, it owns the process, or the policy is
  -- restricted and lists it.
  pub caller_may_see_process_fields_iff :
      (who : Caller)
      → (caller_may_see_process_fields q policy target_uid who ≡ true)
        ↔ MaySee q policy target_uid who
  unfolding caller_may_see_process_fields
  caller_may_see_process_fields_iff who = (there, MaySee-true who)
    where
      there :
          caller_may_see_process_fields q policy target_uid who ≡ true
          → MaySee q policy target_uid who
      there h = elim (Bool-cases (is_permissive policy.mode)) [
        | inl all ↦ by_policy (permissive_lem policy.mode all)
        | inr some_only ↦ verified_MaySee who (rw some_only at h)
      ]

-- The path, the command line or the directory of a process is told.
abbrev pub IsTelling : ProcessDetails → Type 0
IsTelling d = (d.exe ≢ []) ⊎ ((d.cmdline ≢ []) ⊎ (d.cwd ≢ []))

not-IsTelling : (d : ProcessDetails) → d.exe ≡ [] → d.cmdline ≡ [] → d.cwd ≡ [] → ¬ IsTelling d
not-IsTelling d a b c (inl h) = h a
not-IsTelling d a b c (inr (inl h)) = h b
not-IsTelling d a b c (inr (inr h)) = h c

module _ (q : Accounts) (policy : ProcessDetailsPolicy) (who : Caller) where
  abbrev IsJustified : Option ProcessDetails → ProcessDetails → Type 0
  IsJustified x d = IsTelling d → (x ≡ some d) × MaySee q policy d.uid who

  IsJustified-shown :
      (d : ProcessDetails) (b : Bool)
      → (b ≡ true → MaySee q policy d.uid who)
      → IsJustified (some d) (shown d b)
  unfolding shown
  IsJustified-shown d true h t = (refl, h refl)
  IsJustified-shown d false h t =
      absurd (not-IsTelling (record d { exe = []; cmdline = []; cwd = [] }) refl refl refl t)

  IsJustified-details_of : (x : Option ProcessDetails) → IsJustified x (details_of q policy who x)
  unfolding details_of
  IsJustified-details_of none t = absurd (not-IsTelling no_details refl refl refl t)
  IsJustified-details_of (some d) t =
      IsJustified-shown d (caller_may_see_process_fields q policy d.uid who)
        (caller_may_see_process_fields_iff q policy d.uid who).0 t

  IsJustified-if :
      (b : Bool) (x : Option ProcessDetails)
      → IsJustified x (if b then no_details else details_of q policy who x)
  IsJustified-if true x t = absurd (not-IsTelling no_details refl refl refl t)
  IsJustified-if false x t = IsJustified-details_of x t

-- Where an answer tells the path, the command line or the directory of a process, it is the answer
-- for the process of that pid, and the caller is one that may see it.
pub details_for-MaySee :
    (q : Accounts) (policy : ProcessDetailsPolicy) (read : ℕ → Option ProcessDetails) (who : Caller)
    (pid : ℕ)
    → let d = details_for q policy read who pid in
      IsTelling d → (read pid ≡ some d) × MaySee q policy d.uid who
unfolding details_for
details_for-MaySee q policy read who pid t =
    IsJustified-if q policy who (pid == 0 || ltb (2 ^ 31 - 1) pid) (read pid) t
