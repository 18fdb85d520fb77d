-- ===== src/Attribution/DeepQueue/Weight.antt =====
-- The tries that the requests of the queue have left, under each of its operations.
use qiftop.Common.{
  ℕ, suc, ◌+◌, ◌-◌, ◌≤◌, ◌≡◌, inl, inr, [], ◌∷◌, Option, none, some, arith, ◌==◌, take, drop,
  Bool-cases, subst, nat_eq,
}
use qiftop.Containers.Map.{find, put, remove, Unique, Unique-remove, remove-none}
use qiftop.Attribution.Request.{
  AttributionFlowKey, flow_key_eq, flow_key_beq, flow_key_beq_iff, DeepAttributionRequest,
}
use qiftop.Attribution.DeepQueue.{
  DeepQueue, ranked, dequeue, enqueue, merged, merge_all, remove_all, enforce_cap,
}
use qiftop.Attribution.DeepQueue.Ranking.{Requests, Distinct}
use qiftop.Attribution.DeepQueue.Removal.{Filed, Held, Held-remove, In-All}
use qiftop.Attribution.DeepQueue.Priority.{IsFiled, take-IsCut}
use qiftop.Attribution.DeepQueue.Capacity.{enforce_cap_cases}

-- The ticks that a request may still take part in.
abbrev pub tries : ℕ → DeepAttributionRequest → ℕ
tries limit r = suc (limit - r.attempts)

abbrev pub tries_in : ℕ → Requests → ℕ
tries_in limit [] = 0
tries_in limit (r ∷ rs) = tries limit r + tries_in limit rs

abbrev pub tries_left : ℕ → Filed → ℕ
tries_left limit [] = 0
tries_left limit ((k, r) ∷ m) = tries limit r + tries_left limit m

module _ (limit : ℕ) where
  tries_left-remove_le :
      (k : AttributionFlowKey) (m : Filed) → tries_left limit (remove k m) ≤ tries_left limit m
  unfolding remove
  tries_left-remove_le k [] = omega arith
  tries_left-remove_le k ((j, r) ∷ m) = ground (arith, tries_left-remove_le k m)

  tries_left-remove :
      (k : AttributionFlowKey) (m : Filed) (r : DeepAttributionRequest)
      → Unique m
      → find k m ≡ some r
      → tries_left limit (remove k m) + tries limit r ≡ tries_left limit m
  unfolding find remove
  tries_left-remove k [] r u h = cc
  tries_left-remove k ((j, s) ∷ m) r u h = elim (Bool-cases (flow_key_beq j k)) [
    | inl hit ↦
        let j_is_k = (flow_key_beq_iff j k).0 hit in
        let rest = remove-none k m (subst (λ i. find i m ≡ none) j_is_k u.0) in
        rw (hit, rest) (ground arith)
    | inr miss ↦ rw miss (omega (arith, tries_left-remove k m r u.1 (rw miss at h)))
  ]

  tries_left-remove_all_le :
      (rs : Requests) (m : Filed) → tries_left limit (remove_all rs m) ≤ tries_left limit m
  unfolding remove_all
  tries_left-remove_all_le [] m = omega arith
  tries_left-remove_all_le (r ∷ rs) m =
      omega (arith, tries_left-remove_all_le rs (remove r.key m), tries_left-remove_le r.key m)

  tries_left-remove_all :
      (rs : Requests) (m : Filed)
      → Unique m
      → Distinct rs
      → Held m rs
      → tries_left limit (remove_all rs m) + tries_in limit rs ≡ tries_left limit m
  unfolding remove_all
  tries_left-remove_all [] m u d h = omega arith
  tries_left-remove_all (r ∷ rs) m u d h = omega (
    arith,
    tries_left-remove_all rs (remove r.key m) (Unique-remove r.key m u) d.1
        (Held-remove m r rs d.0 h.1),
    tries_left-remove r.key m r u h.0,
  )

  tries_left-put :
      (k : AttributionFlowKey) (r : DeepAttributionRequest) (m : Filed)
      → tries_left limit (put k r m) ≤ tries_left limit m + tries limit r
  unfolding put
  tries_left-put k r [] = omega arith
  tries_left-put k r ((j, s) ∷ m) = ground (arith, tries_left-put k r m)

  tries-merged :
      (o : Option DeepAttributionRequest) (r : DeepAttributionRequest)
      → tries limit (merged o r) ≤ tries limit r
  unfolding merged
  tries-merged none r = omega arith
  tries-merged (some old) r = omega arith

  tries_left-merge_all :
      (rs : Requests) (m : Filed)
      → tries_left limit (merge_all m rs) ≤ tries_left limit m + tries_in limit rs
  unfolding merge_all
  tries_left-merge_all [] m = omega arith
  tries_left-merge_all (r ∷ rs) m = omega (
    arith,
    tries_left-merge_all rs (put r.key (merged (find r.key m) r) m),
    tries_left-put r.key (merged (find r.key m) r) m,
    tries-merged (find r.key m) r,
  )

  tries_left-enforce_cap :
      (q : DeepQueue) → tries_left limit (enforce_cap q).0.by_key ≤ tries_left limit q.by_key
  tries_left-enforce_cap q = elim (enforce_cap_cases q) [
    | inl (e, n) ↦ rw e (omega arith)
    | inr (inl (e, n, fits)) ↦ rw e (omega arith)
    | inr (inr (e, n, over)) ↦
        rw e (tries_left-remove_all_le (drop q.cap (ranked q.by_key)) q.by_key)
  ]

  pub tries_left-enqueue :
      (q : DeepQueue) (rs : Requests)
      → tries_left limit (enqueue q rs).0.by_key ≤ tries_left limit q.by_key + tries_in limit rs
  unfolding enqueue
  tries_left-enqueue q rs = omega (
    arith,
    tries_left-enforce_cap (record q { by_key = merge_all q.by_key rs }),
    tries_left-merge_all rs q.by_key,
  )

  pub tries_left-dequeue :
      (q : DeepQueue) (batch : ℕ)
      → IsFiled q.by_key
      → tries_left limit (dequeue q batch).0.by_key + tries_in limit (dequeue q batch).1
        ≡ tries_left limit q.by_key
  unfolding dequeue
  tries_left-dequeue q batch f = elim (Bool-cases (batch == 0)) [
    | inl nothing ↦ rw (nothing, dequeue) (omega arith)
    | inr some_out ↦
        let c = take-IsCut f batch in
        let out = take batch (ranked q.by_key) in
        rw (some_out, dequeue)
          (tries_left-remove_all out q.by_key f.unique c.apart
            (In-All (λ r. find r.key q.by_key ≡ some r) out c.leaves))
  ]
