-- ===== src/Attribution/DeepQueue/Ranking.antt =====
-- The ranking of the queue's requests: the same requests, by falling number of bytes.
use qiftop.Common.{
  ℕ, suc, ◌≤◌, ◌≡◌, ◌≢◌, ◌↔◌, ◌⊎◌, inl, inr, refl, sym, List, [], ◌∷◌, map, Option, none, some,
  arith, ltb, tests, length, All, Bool-cases,
}
use qiftop.Containers.Map.{Map, find, Unique}
use qiftop.Attribution.Request.{
  AttributionFlowKey, flow_key_eq, flow_key_beq, flow_key_beq_iff, DeepAttributionRequest,
}
use qiftop.Attribution.DeepQueue.{total_bytes, more_bytes, insert_sorted, sorted, ranked}

abbrev pub Requests : Type 0
Requests = List DeepAttributionRequest

abbrev pub In : DeepAttributionRequest → Requests → Type 0
In r [] = ⊥
In r (s ∷ ss) = (r ≡ s) ⊎ In r ss

-- By falling number of bytes.
abbrev pub IsDescending : Requests → Type 0
IsDescending [] = Unit
IsDescending (r ∷ rs) = All (λ s. total_bytes s ≤ total_bytes r) rs × IsDescending rs

abbrev pub Other : DeepAttributionRequest → DeepAttributionRequest → Type 0
Other r s = s.key ≢ r.key

-- No two requests have the same key.
abbrev pub Distinct : Requests → Type 0
Distinct [] = Unit
Distinct (r ∷ rs) = All (Other r) rs × Distinct rs

-- Every request is filed under its own key.
abbrev pub IsCoherent : Map AttributionFlowKey DeepAttributionRequest → Type 0
IsCoherent [] = Unit
IsCoherent ((k, r) ∷ m) = (r.key ≡ k) × IsCoherent m

All-insert_sorted :
    (P : DeepAttributionRequest → Type 0) (r : DeepAttributionRequest) (rs : Requests)
    → P r
    → All P rs
    → All P (insert_sorted r rs)
unfolding insert_sorted
All-insert_sorted P r [] h k = (h, tt)
All-insert_sorted P r (s ∷ ss) h k = ground (arith, All-insert_sorted P r ss h k.1)

All-le_mono :
    {m n : ℕ} (rs : Requests)
    → m ≤ n
    → All (λ s. total_bytes s ≤ m) rs
    → All (λ s. total_bytes s ≤ n) rs
All-le_mono [] h a = tt
All-le_mono (r ∷ rs) h a = (omega arith, All-le_mono rs h a.1)

insert_sorted-IsDescending :
    (r : DeepAttributionRequest) (rs : Requests)
    → IsDescending rs
    → IsDescending (insert_sorted r rs)
unfolding insert_sorted more_bytes
insert_sorted-IsDescending r [] d = (tt, tt)
insert_sorted-IsDescending r (s ∷ ss) d = elim (Bool-cases (ltb (total_bytes r) (total_bytes s))) [
  | inl louder ↦ rw louder (
      (
        All-insert_sorted (λ x. total_bytes x ≤ total_bytes s) r ss (omega tests) d.0,
        insert_sorted-IsDescending r ss d.1,
      ))
  | inr quieter ↦
      let bound : total_bytes s ≤ total_bytes r = ground arith in
      rw quieter (((bound, All-le_mono ss bound d.0), d))
]

insert_sorted-Distinct :
    (r : DeepAttributionRequest) (rs : Requests)
    → All (Other r) rs
    → Distinct rs
    → Distinct (insert_sorted r rs)
unfolding insert_sorted
insert_sorted-Distinct r [] h d = (tt, tt)
insert_sorted-Distinct r (s ∷ ss) h d = elim (Bool-cases (more_bytes s r)) [
  | inl louder ↦ rw louder (
      (
        All-insert_sorted (Other s) r ss (λ e. h.0 (sym e)) d.0,
        insert_sorted-Distinct r ss h.1 d.1,
      ))
  | inr quieter ↦ rw quieter ((h, d))
]

length-insert_sorted :
    (r : DeepAttributionRequest) (rs : Requests) → length (insert_sorted r rs) ≡ suc (length rs)
unfolding insert_sorted
length-insert_sorted r [] = refl
length-insert_sorted r (s ∷ ss) = ground (arith, length-insert_sorted r ss)

pub sorted-IsDescending : (rs : Requests) → IsDescending (sorted rs)
unfolding sorted
sorted-IsDescending [] = tt
sorted-IsDescending (r ∷ rs) = insert_sorted-IsDescending r (sorted rs) (sorted-IsDescending rs)

All-sorted : (P : DeepAttributionRequest → Type 0) (rs : Requests) → All P rs → All P (sorted rs)
unfolding sorted
All-sorted P [] h = tt
All-sorted P (r ∷ rs) h = All-insert_sorted P r (sorted rs) h.0 (All-sorted P rs h.1)

sorted-Distinct : (rs : Requests) → Distinct rs → Distinct (sorted rs)
unfolding sorted
sorted-Distinct [] d = tt
sorted-Distinct (r ∷ rs) d =
    insert_sorted-Distinct r (sorted rs) (All-sorted (Other r) rs d.0) (sorted-Distinct rs d.1)

length-sorted : (rs : Requests) → length (sorted rs) ≡ length rs
unfolding sorted
length-sorted [] = refl
length-sorted (r ∷ rs) = omega (arith, length-insert_sorted r (sorted rs), length-sorted rs)

In-insert_sorted :
    (x r : DeepAttributionRequest) (rs : Requests) → In x (insert_sorted r rs) ↔ In x (r ∷ rs)
unfolding insert_sorted
In-insert_sorted x r [] = ((λ h. h), (λ h. h))
In-insert_sorted x r (s ∷ ss) =
    let ih = In-insert_sorted x r ss in
    elim (Bool-cases (more_bytes s r)) [
      | inl louder ↦ rw louder ((λ h. ground arith), (λ h. ground arith))
      | inr quieter ↦ rw quieter ((λ h. h), (λ h. h))
    ]

In-sorted : (x : DeepAttributionRequest) (rs : Requests) → In x (sorted rs) ↔ In x rs
unfolding sorted
In-sorted x [] = ((λ h. h), (λ h. h))
In-sorted x (r ∷ rs) =
    let head = In-insert_sorted x r (sorted rs) in
    let rest = In-sorted x rs in ((λ h. ground arith), (λ h. ground arith))

abbrev pub values : Map AttributionFlowKey DeepAttributionRequest → Requests
values m = map (λ e. e.1) m

pub none_not_some {ℓ} : {A : Type ℓ} {a : A} {o : Option A} → o ≡ none → o ≡ some a → ⊥
none_not_some h k = cc

-- A coherent map holds a request exactly under its key.
In-values :
    (x : DeepAttributionRequest) (m : Map AttributionFlowKey DeepAttributionRequest)
    → IsCoherent m
    → Unique m
    → In x (values m) ↔ (find x.key m ≡ some x)
unfolding find
In-values x [] c u = ((λ h. absurd h), (λ h. cc))
In-values x ((k, r) ∷ m) c u =
    let ih = In-values x m c.1 u.1 in
    let same = flow_key_beq_iff k x.key in
    elim (Bool-cases (flow_key_beq k x.key)) [
      | inl hit ↦ rw hit (
          (
            λ h. elim h [
              | inl e ↦ cc
              | inr later ↦ absurd (none_not_some (rw (same.0 hit) at u.0) (ih.0 later))
            ],
            λ h. inl cc,
          ))
      | inr miss ↦ rw miss (
          (
            λ h. elim h [ inl e ↦ absurd (ground arith) | inr later ↦ ih.0 later ],
            λ h. inr (ih.1 h),
          ))
    ]

Other-values :
    (r : DeepAttributionRequest) (m : Map AttributionFlowKey DeepAttributionRequest)
    → IsCoherent m
    → find r.key m ≡ none
    → All (Other r) (values m)
unfolding find
Other-values r [] c h = tt
Other-values r ((k, s) ∷ m) c h =
    let same = flow_key_beq_iff k r.key in
    elim (Bool-cases (flow_key_beq k r.key)) [
      | inl hit ↦ cc (rw hit at h)
      | inr miss ↦ ((λ e. ground arith), Other-values r m c.1 (rw miss at h))
    ]

values-Distinct :
    (m : Map AttributionFlowKey DeepAttributionRequest)
    → IsCoherent m
    → Unique m
    → Distinct (values m)
values-Distinct [] c u = tt
values-Distinct ((k, r) ∷ m) c u = (Other-values r m c.1 (rw c.0 u.0), values-Distinct m c.1 u.1)

module _ (m : Map AttributionFlowKey DeepAttributionRequest) (c : IsCoherent m) (u : Unique m) where
  pub ranked-Distinct : Distinct (ranked m)
  unfolding ranked
  ranked-Distinct = sorted-Distinct (values m) (values-Distinct m c u)

  -- The ranking lists a request exactly when the map holds it under its key.
  pub In-ranked : (x : DeepAttributionRequest) → In x (ranked m) ↔ (find x.key m ≡ some x)
  unfolding ranked
  In-ranked x =
      let a = In-sorted x (values m) in
      let b = In-values x m c u in ((λ h. b.0 (a.0 h)), (λ h. a.1 (b.1 h)))

pub ranked-IsDescending :
    (m : Map AttributionFlowKey DeepAttributionRequest) → IsDescending (ranked m)
unfolding ranked
ranked-IsDescending m = sorted-IsDescending (values m)

length-values : (m : Map AttributionFlowKey DeepAttributionRequest) → length (values m) ≡ length m
length-values [] = refl
length-values (e ∷ m) = omega (arith, length-values m)

pub length-ranked :
    (m : Map AttributionFlowKey DeepAttributionRequest) → length (ranked m) ≡ length m
unfolding ranked
length-ranked m = omega (arith, length-sorted (values m), length-values m)
