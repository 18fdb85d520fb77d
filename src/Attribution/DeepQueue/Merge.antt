-- ===== src/Attribution/DeepQueue/Merge.antt =====
-- What `enqueue` keeps of the requests that were queued and of those that are submitted.
use qiftop.Common.{
  ◌≤◌, ◌≡◌, inl, inr, refl, sym, subst, ◌∙◌, ==_refl, Bool-cases, [], ◌∷◌, Option, none, some,
  arith, length,
}
use qiftop.Containers.Map.{find, put, find-put, Unique-put}
use qiftop.Attribution.Request.{
  AttributionFlowKey, flow_key_eq, flow_key_beq, flow_key_beq_iff, DeepAttributionRequest,
}
use qiftop.Attribution.DeepQueue.{DeepQueue, merged, merge_all, enqueue}
use qiftop.Attribution.DeepQueue.Ranking.{Requests, In, IsCoherent}
use qiftop.Attribution.DeepQueue.Removal.{Filed}
use qiftop.Attribution.DeepQueue.Priority.{IsFiled}
use qiftop.Attribution.DeepQueue.Capacity.{length-enforce_cap, enforce_cap-before, enforce_cap-none}

put-IsCoherent :
    (k : AttributionFlowKey) (r : DeepAttributionRequest) (m : Filed)
    → r.key ≡ k
    → IsCoherent m
    → IsCoherent (put k r m)
unfolding put
put-IsCoherent k r [] e c = (e, tt)
put-IsCoherent k r ((j, s) ∷ m) e c = ground (arith, put-IsCoherent k r m e c.1)

merged-key :
    (o : Option DeepAttributionRequest) (r : DeepAttributionRequest) → (merged o r).key ≡ r.key
unfolding merged
merged-key none r = refl
merged-key (some old) r = refl

merge_all-IsFiled : (rs : Requests) (m : Filed) → IsFiled m → IsFiled (merge_all m rs)
unfolding merge_all
merge_all-IsFiled [] m f = f
merge_all-IsFiled (r ∷ rs) m f = merge_all-IsFiled rs _ (record {
  coherent = put-IsCoherent r.key _ m (merged-key (find r.key m) r) f.coherent;
  unique = Unique-put r.key _ m f.unique;
})

-- A well-formed queue stays so, and within its capacity, whatever is enqueued.
pub enqueue-IsFiled :
    (q : DeepQueue) (rs : Requests)
    → IsFiled q.by_key
    → IsFiled (enqueue q rs).0.by_key × (length (enqueue q rs).0.by_key ≤ q.cap)
unfolding enqueue
enqueue-IsFiled q rs f =
    let done =
      length-enforce_cap (record q { by_key = merge_all q.by_key rs })
        (merge_all-IsFiled rs q.by_key f) in
    (done.2, done.0)

-- `new` is at least as old in attempts, and at least as recent, as `old`.
pub record Supersedes (new old : DeepAttributionRequest) : Type 0 where
  pub attempts : old.attempts ≤ new.attempts
  pub generation : old.generation ≤ new.generation

Supersedes-trans :
    {a b c : DeepAttributionRequest} → Supersedes a b → Supersedes b c → Supersedes a c
Supersedes-trans h k = record { attempts = omega arith; generation = omega arith }

merged-Supersedes :
    (o : Option DeepAttributionRequest) (r : DeepAttributionRequest) → Supersedes (merged o r) r
unfolding merged
merged-Supersedes none r = record { attempts = omega arith; generation = omega arith }
merged-Supersedes (some old) r = record { attempts = omega arith; generation = omega arith }

merged-Supersedes_old : (old r : DeepAttributionRequest) → Supersedes (merged (some old) r) old
unfolding merged
merged-Supersedes_old old r = record { attempts = omega arith; generation = omega arith }

-- One request of the loop.
merge_step :
    (r : DeepAttributionRequest) (m : Filed) (k : AttributionFlowKey) (old : DeepAttributionRequest)
    → find k m ≡ some old
    → (new : DeepAttributionRequest) × (find k (put r.key (merged (find r.key m) r) m) ≡ some new)
      × Supersedes new old
merge_step r m k old h =
    let found = find-put k r.key (merged (find r.key m) r) m in
    elim (Bool-cases (flow_key_beq r.key k)) [
      | inl hit ↦
          let here : find r.key m ≡ some old =
            subst (λ j. find j m ≡ some old) (sym ((flow_key_beq_iff r.key k).0 hit)) h in
          (merged (some old) r, (rw hit at found) ∙ rw here, merged-Supersedes_old old r)
      | inr miss ↦
          (old, (rw miss at found) ∙ h, record { attempts = omega arith; generation = omega arith })
    ]

-- The entry of a key supersedes the one it had.
merge_all-keeps :
    (rs : Requests) (m : Filed) (k : AttributionFlowKey) (old : DeepAttributionRequest)
    → find k m ≡ some old
    → (new : DeepAttributionRequest) × (find k (merge_all m rs) ≡ some new) × Supersedes new old
unfolding merge_all
merge_all-keeps [] m k old h = (old, h, record { attempts = omega arith; generation = omega arith })
merge_all-keeps (r ∷ rs) m k old h =
    let (mid, e, s) = merge_step r m k old h in
    let (new, e', s') = merge_all-keeps rs _ k mid e in (new, e', Supersedes-trans s' s)

merge_all-takes :
    (rs : Requests) (m : Filed) (r : DeepAttributionRequest)
    → In r rs
    → (new : DeepAttributionRequest) × (find r.key (merge_all m rs) ≡ some new) × Supersedes new r
unfolding merge_all
merge_all-takes [] m r i = absurd i
merge_all-takes (s ∷ rs) m r (inl e) =
    let entry = merged (find s.key m) s in
    let there = (find-put s.key s.key entry m) ∙ rw (==_refl s.key) in
    let (new, e', s') = merge_all-keeps rs (put s.key entry m) s.key entry there in
    subst
      (λ x.
        (new : DeepAttributionRequest) × (find x.key (merge_all (put s.key entry m) rs) ≡ some new)
        × Supersedes new x)
      (sym e) ((new, e', Supersedes-trans s' (merged-Supersedes (find s.key m) s)))
merge_all-takes (s ∷ rs) m r (inr i) = merge_all-takes rs _ r i

-- If the key of a queued request finds an entry after enqueue, that entry has at least as many
-- attempts and is of at least as late a generation as the one before.
pub enqueue-Supersedes :
    (q : DeepQueue) (rs : Requests) (k : AttributionFlowKey) (old new : DeepAttributionRequest)
    → IsFiled q.by_key
    → find k q.by_key ≡ some old
    → find k (enqueue q rs).0.by_key ≡ some new
    → Supersedes new old
unfolding enqueue
enqueue-Supersedes q rs k old new f h e =
    let (x, here, s) = merge_all-keeps rs q.by_key k old h in
    let before =
      enforce_cap-before (record q { by_key = merge_all q.by_key rs }) new k
        (merge_all-IsFiled rs q.by_key f) e in
    subst (λ y. Supersedes y old) (same here before) s
  where
    same :
        {x y : DeepAttributionRequest} {o : Option DeepAttributionRequest}
        → o ≡ some x
        → o ≡ some y
        → x ≡ y
    same a b = cc

-- As long as nothing is dropped from a well-formed queue, the key of each submitted request finds
-- an entry with at least as many attempts and of at least as late a generation.
pub enqueue-takes :
    (q : DeepQueue) (rs : Requests) (r : DeepAttributionRequest)
    → IsFiled q.by_key
    → In r rs
    → (enqueue q rs).1 ≡ 0
    → (new : DeepAttributionRequest) × (find r.key (enqueue q rs).0.by_key ≡ some new)
      × Supersedes new r
unfolding enqueue
enqueue-takes q rs r f i d =
    let all = record q { by_key = merge_all q.by_key rs } in
    let (new, here, s) = merge_all-takes rs q.by_key r i in
    (new, enforce_cap-none all (merge_all-IsFiled rs q.by_key f) d new r.key here, s)
