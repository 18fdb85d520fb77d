-- ===== src/Attribution/DeepQueue/Priority.antt =====
-- Which requests `dequeue` hands out, and what is left in the queue.
use qiftop.Common.{
  ℕ, ◌+◌, ◌≤◌, ◌≡◌, ◌⊎◌, inl, inr, refl, sym, ◌∙◌, [], ◌∷◌, none, some, arith, ◌==◌, nat_eq, length,
  take, drop, take-append-drop, length-take, Bool-cases, min, subst,
}
use qiftop.Containers.Map.{find, Unique}
use qiftop.Attribution.Request.{
  AttributionFlowKey, flow_key_eq, flow_key_beq_iff, DeepAttributionRequest,
}
use qiftop.Attribution.DeepQueue.{DeepQueue, total_bytes, ranked, remove_all, dequeue}
use qiftop.Attribution.DeepQueue.Ranking.{
  Requests, In, Distinct, IsCoherent, ranked-Distinct, In-ranked, ranked-IsDescending,
  length-ranked,
}
use qiftop.Attribution.DeepQueue.Removal.{
  Filed, In-append, remove_all-IsCoherent, remove_all-Unique, Unnamed, find-remove_all,
  length-remove_all, Distinct-take, Distinct-drop, In-All, take-louder-drop,
}

-- Every request is filed under its own key, and no key has two.
pub record IsFiled (m : Filed) : Type 0 where
  pub coherent : IsCoherent m
  pub unique : Unique m

-- The cut of a ranking into the part `out` that leaves the map, and the part `rest` that stays.
pub record IsCut (m : Filed) (out rest : Requests) : Type 0 where
  pub leaves : (x : DeepAttributionRequest) → In x out → find x.key m ≡ some x
  pub split : (x : DeepAttributionRequest) → find x.key m ≡ some x → In x out ⊎ In x rest
  pub apart : Distinct out

module _ {m : Filed} (f : IsFiled m) (n : ℕ) where
  both :
      (x : DeepAttributionRequest)
      → find x.key m ≡ some x
      → In x (take n (ranked m)) ⊎ In x (drop n (ranked m))
  both x h =
      (In-append x (take n (ranked m)) (drop n (ranked m))).0
        (rw take-append-drop ((In-ranked m f.coherent f.unique x).1 h))

  find-ranked :
      (x : DeepAttributionRequest)
      → In x (take n (ranked m)) ⊎ In x (drop n (ranked m))
      → find x.key m ≡ some x
  find-ranked x h =
      (In-ranked m f.coherent f.unique x).0
        (rw take-append-drop at ((In-append x (take n (ranked m)) (drop n (ranked m))).1 h))

  pub take-IsCut : IsCut m (take n (ranked m)) (drop n (ranked m))
  take-IsCut = record {
    leaves = λ x i. find-ranked x (inl i);
    split = both;
    apart = Distinct-take n _ (ranked-Distinct m f.coherent f.unique);
  }

  pub drop-IsCut : IsCut m (drop n (ranked m)) (take n (ranked m))
  drop-IsCut = record {
    leaves = λ x i. find-ranked x (inr i);
    split = λ x h. swap (both x h);
    apart = Distinct-drop n _ (ranked-Distinct m f.coherent f.unique);
  }
    where
      swap : {A B : Type 0} → A ⊎ B → B ⊎ A
      swap (inl a) = inr a
      swap (inr b) = inl b

pub remove_all-IsFiled : (rs : Requests) {m : Filed} → IsFiled m → IsFiled (remove_all rs m)
remove_all-IsFiled rs {m} f = record {
  coherent = remove_all-IsCoherent rs m f.coherent;
  unique = remove_all-Unique rs m f.unique;
}

pub length-cut :
    {m : Filed} {out rest : Requests}
    → IsFiled m
    → IsCut m out rest
    → length (remove_all out m) + length out ≡ length m
length-cut {m} {out} f c =
    length-remove_all out m f.unique c.apart (In-All (λ r. find r.key m ≡ some r) out c.leaves)

find-key :
    (k : AttributionFlowKey) (m : Filed) (s : DeepAttributionRequest)
    → IsCoherent m
    → find k m ≡ some s
    → s.key ≡ k
unfolding find
find-key k [] s c h = cc
find-key k ((j, r) ∷ m) s c h = ground (arith, find-key k m s c.1, flow_key_beq_iff j k)

-- What a key finds after a removal, it found before, and it belongs to the other part of the cut.
pub staying :
    {m : Filed} {out rest : Requests}
    → IsFiled m
    → IsCut m out rest
    → (k : AttributionFlowKey) (s : DeepAttributionRequest) → find k (remove_all out m) ≡ some s
    → (find k m ≡ some s) × In s rest
staying {m} {out} {rest} f c k s h = elim (find-remove_all out m k) [
  | inl (named, gone) ↦ cc
  | inr (others, same) ↦ kept (sym same ∙ h) others
]
  where
    kept : find k m ≡ some s → Unnamed k out → (find k m ≡ some s) × In s rest
    kept before others =
        let key = find-key k m s f.coherent before in
        let side : In s out ⊎ In s rest =
          c.split s (subst (λ j. find j m ≡ some s) (sym key) before) in
        (before, elim side [ inl leaves ↦ absurd (others s leaves key) | inr stays ↦ stays ])

leaving :
    {m : Filed} {out rest : Requests}
    → IsCut m out rest
    → (r : DeepAttributionRequest) → In r out
    → find r.key (remove_all out m) ≡ none
leaving {m} {out} c r i = elim (find-remove_all out m r.key) [
  | inl (named, gone) ↦ gone
  | inr (others, same) ↦ absurd (others r i refl)
]

-- Dequeue hands out as many requests as asked for, or all there are, and takes just these out of a
-- well-formed queue, which stays well-formed.
pub length-dequeue :
    (q : DeepQueue) (batch : ℕ)
    → IsFiled q.by_key
    → (length (dequeue q batch).1 ≡ min batch (length q.by_key))
      × (length (dequeue q batch).0.by_key + length (dequeue q batch).1 ≡ length q.by_key)
      × IsFiled (dequeue q batch).0.by_key
unfolding dequeue
length-dequeue q batch f = elim (Bool-cases (batch == 0)) [
  | inl nothing ↦ rw (nothing, dequeue) ((ground arith, omega arith, f))
  | inr some_out ↦
      rw (some_out, dequeue)
        ((
          omega (arith, length-take batch (ranked q.by_key), length-ranked q.by_key),
          length-cut f (take-IsCut f batch),
          remove_all-IsFiled (take batch (ranked q.by_key)) f,
        ))
]

-- In a well-formed queue, a request that dequeue hands out stood under its key and is gone from
-- it, and whatever is left was there before and has at most as many bytes.
pub dequeue-louder :
    (q : DeepQueue) (batch : ℕ) (r s : DeepAttributionRequest) (k : AttributionFlowKey)
    → IsFiled q.by_key
    → In r (dequeue q batch).1
    → find k (dequeue q batch).0.by_key ≡ some s
    → (find r.key q.by_key ≡ some r)
      × (find r.key (dequeue q batch).0.by_key ≡ none)
      × (find k q.by_key ≡ some s)
      × (total_bytes s ≤ total_bytes r)
unfolding dequeue
dequeue-louder q batch r s k f i h = elim (Bool-cases (batch == 0)) [
  | inl nothing ↦ absurd (rw (nothing, dequeue) at i)
  | inr some_out ↦
      let c = take-IsCut f batch in
      let i' : In r (take batch (ranked q.by_key)) = rw (some_out, dequeue) at i in
      let kept = staying f c k s (rw (some_out, dequeue) at h) in
      rw (some_out, dequeue)
        ((
          c.leaves r i',
          leaving c r i',
          kept.0,
          take-louder-drop batch (ranked q.by_key) r s (ranked-IsDescending q.by_key) i' kept.1,
        ))
]
