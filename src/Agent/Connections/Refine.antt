-- ===== src/Agent/Connections/Refine.antt =====
-- What a refinement leaves of a flow.
use qiftop.Common.{
  ℕ, zero, suc, ◌≡◌, refl, ◌∙◌, ap, Bool, true, false, not, List, [], ◌∷◌, Option, none, some,
  arith, modify, get_elem?,
}
use qiftop.Containers.Map.{Map, find}
use qiftop.Flow.Types.{Connection, process_valid, container_valid, is_empty}
use qiftop.Attribution.Request.{AttributionFlowKey, flow_key_eq, DeepAttributionUpdate}
use qiftop.Dbus.Dto.{HostText}
use qiftop.Agent.Connections.{
  Service, Refinement, refined, patch_row, refine_row, refine_at, refine_all, on_deep_refined,
}

abbrev has_chain : Connection → Bool
has_chain c = not (is_empty c.container_chain)

-- `d` is `c` with nothing taken from it: only what says who owns the flow may differ, and what of it
-- is known in `c` is the same in `d`.
pub record IsFiner (c d : Connection) : Type 0 where
  pub counters : d ≡ record c {
    process = d.process;
    reason = d.reason;
    container = d.container;
    container_chain = d.container_chain;
  }
  pub process : process_valid c.process ≡ true → (d.process ≡ c.process) × (d.reason ≡ c.reason)
  pub container : container_valid c.container ≡ true → d.container ≡ c.container
  pub chain : has_chain c ≡ true → d.container_chain ≡ c.container_chain

IsFiner-refl : (c : Connection) → IsFiner c c
IsFiner-refl c = record {
  counters = refl;
  process = λ h. (refl, refl);
  container = λ h. refl;
  chain = λ h. refl;
}

refined-IsFiner : (u : DeepAttributionUpdate) (c : Connection) → IsFiner c (refined u c).0
unfolding refined
refined-IsFiner u c = record {
  counters = refl;
  process = λ h. ground arith;
  container = λ h. ground arith;
  chain = λ h. ground arith;
}

IsFiner-trans : (b c d : Connection) → IsFiner b c → IsFiner c d → IsFiner b d
IsFiner-trans b c d x y = record {
  counters =
      let shown : Connection → Connection = λ t. record t {
        process = d.process;
        reason = d.reason;
        container = d.container;
        container_chain = d.container_chain;
      } in
      y.counters ∙ ap shown x.counters;
  process = λ h.
      let same = x.process h in
      let again = y.process (rw same.0 h) in (again.0 ∙ same.0, again.1 ∙ same.1);
  container = λ h. let same = x.container h in y.container (rw same h) ∙ same;
  chain = λ h. let same = x.chain h in y.chain (rw same h) ∙ same;
}

-- Row by row.
abbrev pub AreFiner : List Connection → List Connection → Type 0
AreFiner [] [] = Unit
AreFiner (c ∷ cs) (d ∷ ds) = IsFiner c d × AreFiner cs ds
AreFiner _ _ = ⊥

AreFiner-refl : (cs : List Connection) → AreFiner cs cs
AreFiner-refl [] = tt
AreFiner-refl (c ∷ cs) = (IsFiner-refl c, AreFiner-refl cs)

AreFiner-trans : (bs cs ds : List Connection) → AreFiner bs cs → AreFiner cs ds → AreFiner bs ds
AreFiner-trans [] [] [] x y = tt
AreFiner-trans [] [] (d ∷ ds) x y = absurd y
AreFiner-trans [] (c ∷ cs) ds x y = absurd x
AreFiner-trans (b ∷ bs) [] ds x y = absurd x
AreFiner-trans (b ∷ bs) (c ∷ cs) [] x y = absurd y
AreFiner-trans (b ∷ bs) (c ∷ cs) (d ∷ ds) x y =
    (IsFiner-trans b c d x.0 y.0, AreFiner-trans bs cs ds x.1 y.1)

modify-AreFiner :
    (c d : Connection) (i : ℕ) (cs : List Connection)
    → get_elem? cs i ≡ some c
    → IsFiner c d
    → AreFiner cs (modify (λ x. d) i cs)
modify-AreFiner c d i [] e f = tt
modify-AreFiner c d zero (x ∷ cs) e f = let same : x ≡ c = cc in (rw same f, AreFiner-refl cs)
modify-AreFiner c d (suc i) (x ∷ cs) e f = (IsFiner-refl x, modify-AreFiner c d i cs e f)

patch_row-AreFiner :
    (q : HostText) (i : ℕ) (c d : Connection) (b : Bool) (r : Refinement)
    → get_elem? r.conns i ≡ some c
    → IsFiner c d
    → AreFiner r.conns (patch_row q i d b r).conns
unfolding patch_row
patch_row-AreFiner q i c d false r e f = AreFiner-refl r.conns
patch_row-AreFiner q i c d true r e f = modify-AreFiner c d i r.conns e f

refine_row-AreFiner :
    (q : HostText) (u : DeepAttributionUpdate) (i : ℕ) (x : Option Connection) (r : Refinement)
    → get_elem? r.conns i ≡ x
    → AreFiner r.conns (refine_row q u i x r).conns
unfolding refine_row
refine_row-AreFiner q u i none r e = AreFiner-refl r.conns
refine_row-AreFiner q u i (some c) r e =
    patch_row-AreFiner q i c (refined u c).0 (refined u c).1 r e (refined-IsFiner u c)

refine_at-AreFiner :
    (q : HostText) (u : DeepAttributionUpdate) (x : Option ℕ) (r : Refinement)
    → AreFiner r.conns (refine_at q u x r).conns
unfolding refine_at
refine_at-AreFiner q u none r = AreFiner-refl r.conns
refine_at-AreFiner q u (some i) r = refine_row-AreFiner q u i (get_elem? r.conns i) r refl

refine_all-AreFiner :
    (q : HostText) (m : Map AttributionFlowKey ℕ) (us : List DeepAttributionUpdate) (r : Refinement)
    → AreFiner r.conns (refine_all q m us r).conns
unfolding refine_all
refine_all-AreFiner q m [] r = AreFiner-refl r.conns
refine_all-AreFiner q m (u ∷ us) r =
    let r' = refine_at q u (find u.key m) r in
    AreFiner-trans r.conns r'.conns _ (refine_at-AreFiner q u (find u.key m) r)
      (refine_all-AreFiner q m us r')

-- Refinements take nothing from a flow: each row keeps its ends, counters and state, and each
-- attribution that it had.
pub on_deep_refined-AreFiner :
    (q : HostText) (s : Service) (now : ℕ) (updates : List DeepAttributionUpdate)
    → AreFiner s.last_conns (on_deep_refined q s now updates).0.last_conns
unfolding on_deep_refined
on_deep_refined-AreFiner q s now updates = refine_all-AreFiner q s.key_index updates _
