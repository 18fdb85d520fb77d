-- ===== src/Attribution/DeepQueue/Capacity.antt =====
-- Which requests `enforceCap` drops, and what it leaves in the queue.
use qiftop.Common.{
  ◌+◌, ◌-◌, ◌≤◌, ◌<◌, ◌≡◌, ◌⊎◌, inl, inr, sym, ◌∙◌, [], ◌∷◌, none, some, arith, nat_eq, length,
  drop, length-drop, subst,
}
use qiftop.Containers.Map.{find}
use qiftop.Attribution.Request.{AttributionFlowKey, flow_key_eq, DeepAttributionRequest}
use qiftop.Attribution.DeepQueue.{DeepQueue, total_bytes, ranked, remove_all, enforce_cap}
use qiftop.Attribution.DeepQueue.Ranking.{
  Requests, In, none_not_some, ranked-IsDescending, length-ranked,
}
use qiftop.Attribution.DeepQueue.Removal.{Filed, find-remove_all, take-louder-drop}
use qiftop.Attribution.DeepQueue.Priority.{
  IsFiled, IsCut, drop-IsCut, remove_all-IsFiled, length-cut, staying,
}

-- The three ways of `enforceCap`, the warning aside.
pub enforce_cap_cases :
    (q : DeepQueue)
    → let kept = (enforce_cap q).0.by_key in
      let dropped = (enforce_cap q).1 in
      ((kept ≡ []) × (dropped ≡ length q.by_key))
      ⊎ ((kept ≡ q.by_key) × (dropped ≡ 0) × (length q.by_key ≤ q.cap))
      ⊎ ((kept ≡ remove_all (drop q.cap (ranked q.by_key)) q.by_key)
          × (dropped ≡ length q.by_key - q.cap)
          × (q.cap < length q.by_key))
unfolding enforce_cap
enforce_cap_cases q = ground (arith, length-ranked q.by_key)

-- EnforceCap reports as many requests as it drops, and leaves a well-formed queue within its
-- capacity.
pub length-enforce_cap :
    (q : DeepQueue)
    → IsFiled q.by_key
    → (length (enforce_cap q).0.by_key ≤ q.cap)
      × (length (enforce_cap q).0.by_key + (enforce_cap q).1 ≡ length q.by_key)
      × IsFiled (enforce_cap q).0.by_key
length-enforce_cap q f = elim (enforce_cap_cases q) [
  | inl (e, n) ↦ rw (e, n) ((omega arith, omega arith, record { coherent = tt; unique = tt }))
  | inr (inl (e, n, fits)) ↦ rw (e, n) ((fits, omega arith, f))
  | inr (inr (e, n, over)) ↦
      let cut = length-cut f (drop-IsCut f q.cap) in
      let out = length-drop q.cap (ranked q.by_key) in
      let all = length-ranked q.by_key in
      rw (e, n)
        ((
          omega (arith, cut, out, all),
          omega (arith, cut, out, all),
          remove_all-IsFiled (drop q.cap (ranked q.by_key)) f,
        ))
]

find_nil : (k : AttributionFlowKey) (s : DeepAttributionRequest) → find k [] ≡ some s → ⊥
unfolding find
find_nil k s h = cc

-- A request that was there and whose key finds nothing after the removal is one of the removed.
dropped-In :
    {m : Filed} {out rest : Requests}
    → IsCut m out rest
    → (r : DeepAttributionRequest) → find r.key m ≡ some r
    → find r.key (remove_all out m) ≡ none
    → In r out
dropped-In {m} {out} c r h gone = elim (find-remove_all out m r.key) [
  | inl ((x, inside, same), _) ↦ subst (λ y. In y out) (is_r x inside same) inside
  | inr (others, same) ↦ absurd (none_not_some (sym same ∙ gone) h)
]
  where
    is_r : (x : DeepAttributionRequest) → In x out → x.key ≡ r.key → x ≡ r
    is_r x inside same =
        let found : find r.key m ≡ some x =
          subst (λ j. find j m ≡ some x) same (c.leaves x inside) in
        cc

-- In a well-formed queue, a request that enforceCap drops has at most as many bytes as any that it
-- leaves, and what it leaves was there before.
pub enforce_cap-louder :
    (q : DeepQueue) (r s : DeepAttributionRequest) (k : AttributionFlowKey)
    → IsFiled q.by_key
    → find r.key q.by_key ≡ some r
    → find r.key (enforce_cap q).0.by_key ≡ none
    → find k (enforce_cap q).0.by_key ≡ some s
    → (find k q.by_key ≡ some s) × (total_bytes r ≤ total_bytes s)
enforce_cap-louder q r s k f h gone kept = elim (enforce_cap_cases q) [
  | inl (e, n) ↦ absurd (find_nil k s (rw e at kept))
  | inr (inl (e, n, fits)) ↦ absurd (none_not_some (rw e at gone) h)
  | inr (inr (e, n, over)) ↦
      let c = drop-IsCut f q.cap in
      let (before, loud) = staying f c k s (rw e at kept) in
      (
        before,
        take-louder-drop q.cap (ranked q.by_key) s r (ranked-IsDescending q.by_key) loud
            (dropped-In c r h (rw e at gone)),
      )
]

-- What `enforceCap` leaves was there before.
pub enforce_cap-before :
    (q : DeepQueue) (s : DeepAttributionRequest) (k : AttributionFlowKey)
    → IsFiled q.by_key
    → find k (enforce_cap q).0.by_key ≡ some s
    → find k q.by_key ≡ some s
enforce_cap-before q s k f kept = elim (enforce_cap_cases q) [
  | inl (e, n) ↦ absurd (find_nil k s (rw e at kept))
  | inr (inl (e, n, fits)) ↦ rw e at kept
  | inr (inr (e, n, over)) ↦ (staying f (drop-IsCut f q.cap) k s (rw e at kept)).0
]

-- Where `enforceCap` drops nothing, it leaves everything.
pub enforce_cap-none :
    (q : DeepQueue)
    → IsFiled q.by_key
    → (enforce_cap q).1 ≡ 0
    → (s : DeepAttributionRequest) (k : AttributionFlowKey) → find k q.by_key ≡ some s
    → find k (enforce_cap q).0.by_key ≡ some s
enforce_cap-none q f d s k h = elim (enforce_cap_cases q) [
  | inl (e, n) ↦ absurd (find_empty q.by_key (omega arith) h)
  | inr (inl (e, n, fits)) ↦ rw e h
  | inr (inr (e, n, over)) ↦ absurd (omega arith)
]
  where
    find_empty : (m : Filed) → length m ≡ 0 → find k m ≡ some s → ⊥
    find_empty [] l h = find_nil k s h
    find_empty (x ∷ m) l h = omega arith
