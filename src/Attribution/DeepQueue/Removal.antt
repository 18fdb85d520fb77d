-- ===== src/Attribution/DeepQueue/Removal.antt =====
-- Removing requests of the ranking from the queue's map.
use qiftop.Common.{
  ℕ, zero, suc, ◌+◌, ◌≤◌, ◌≡◌, ◌≢◌, ◌↔◌, ◌⊎◌, inl, inr, refl, sym, subst, ◌∙◌, [], ◌∷◌, ◌++◌, none,
  some, arith, length, take, drop, All, Bool-cases,
}
use qiftop.Containers.Map.{Map, find, remove, Unique, find-remove, Unique-remove, length-remove}
use qiftop.Attribution.Request.{
  AttributionFlowKey, flow_key_eq, flow_key_beq, flow_key_beq_iff, DeepAttributionRequest,
}
use qiftop.Attribution.DeepQueue.{total_bytes, remove_all}
use qiftop.Attribution.DeepQueue.Ranking.{Requests, In, IsDescending, Distinct, Other, IsCoherent}

abbrev pub Filed : Type 0
Filed = Map AttributionFlowKey DeepAttributionRequest

pub In-append :
    (x : DeepAttributionRequest) (rs ss : Requests) → In x (rs ++ ss) ↔ (In x rs ⊎ In x ss)
In-append x [] ss = ((λ h. inr h), (λ h. elim h [ inl a ↦ absurd a | inr b ↦ b ]))
In-append x (r ∷ rs) ss = let ih = In-append x rs ss in ((λ h. ground arith), (λ h. ground arith))

remove-IsCoherent : (k : AttributionFlowKey) (m : Filed) → IsCoherent m → IsCoherent (remove k m)
unfolding remove
remove-IsCoherent k [] c = tt
remove-IsCoherent k ((j, r) ∷ m) c = ground (arith, remove-IsCoherent k m c.1)

pub remove_all-IsCoherent :
    (rs : Requests) (m : Filed) → IsCoherent m → IsCoherent (remove_all rs m)
unfolding remove_all
remove_all-IsCoherent [] m c = c
remove_all-IsCoherent (r ∷ rs) m c = remove_all-IsCoherent rs _ (remove-IsCoherent r.key m c)

pub remove_all-Unique : (rs : Requests) (m : Filed) → Unique m → Unique (remove_all rs m)
unfolding remove_all
remove_all-Unique [] m u = u
remove_all-Unique (r ∷ rs) m u = remove_all-Unique rs _ (Unique-remove r.key m u)

-- One of the requests has the key.
abbrev pub Named : AttributionFlowKey → Requests → Type 0
Named k rs = (r : DeepAttributionRequest) × In r rs × (r.key ≡ k)

abbrev pub Unnamed : AttributionFlowKey → Requests → Type 0
Unnamed k rs = (r : DeepAttributionRequest) → In r rs → r.key ≢ k

find-remove_all_none :
    (rs : Requests) (m : Filed) (k : AttributionFlowKey)
    → find k m ≡ none
    → find k (remove_all rs m) ≡ none
unfolding remove_all
find-remove_all_none [] m k h = h
find-remove_all_none (r ∷ rs) m k h =
    find-remove_all_none rs (remove r.key m) k (ground (arith, find-remove k r.key m))

-- A key is gone when a removed request has it, and otherwise finds what it found.
pub find-remove_all :
    (rs : Requests) (m : Filed) (k : AttributionFlowKey)
    → (Named k rs × (find k (remove_all rs m) ≡ none))
      ⊎ (Unnamed k rs × (find k (remove_all rs m) ≡ find k m))
unfolding remove_all
find-remove_all [] m k = inr ((λ r h. absurd h), refl)
find-remove_all (r ∷ rs) m k =
    let gone = find-remove k r.key m in
    elim (Bool-cases (flow_key_beq r.key k)) [
      | inl hit ↦ inl (
        (r, inl refl, (flow_key_beq_iff r.key k).0 hit),
        find-remove_all_none rs (remove r.key m) k (rw hit at gone),
      )
      | inr miss ↦ elim (find-remove_all rs (remove r.key m) k) [
        | inl ((s, inside, same), e) ↦ inl ((s, inr inside, same), e)
        | inr (others, e) ↦ inr (
          λ s h. elim h [
            | inl is_r ↦ λ same. ground (arith, flow_key_beq_iff r.key k)
            | inr inside ↦ others s inside
          ],
          e ∙ (rw miss at gone),
        )
      ]
    ]

-- Each of the requests is held, under its key.
abbrev pub Held : Filed → Requests → Type 0
Held m = All (λ r. find r.key m ≡ some r)

pub Held-remove :
    (m : Filed) (r : DeepAttributionRequest) (rs : Requests)
    → All (Other r) rs
    → Held m rs
    → Held (remove r.key m) rs
Held-remove m r [] o h = tt
Held-remove m r (s ∷ ss) o h = (
  ground (arith, find-remove s.key r.key m, flow_key_beq_iff r.key s.key, o.0 (sym _)),
  Held-remove m r ss o.1 h.1,
)

pub length-remove_all :
    (rs : Requests) (m : Filed)
    → Unique m
    → Distinct rs
    → Held m rs
    → length (remove_all rs m) + length rs ≡ length m
unfolding remove_all
length-remove_all [] m u d h = omega arith
length-remove_all (r ∷ rs) m u d h = omega (
  arith,
  length-remove_all rs (remove r.key m) (Unique-remove r.key m u) d.1 (Held-remove m r rs d.0 h.1),
  length-remove r.key m u h.0,
)

pub All-take :
    (P : DeepAttributionRequest → Type 0) (n : ℕ) (rs : Requests) → All P rs → All P (take n rs)
All-take P zero rs h = tt
All-take P (suc n) [] h = tt
All-take P (suc n) (r ∷ rs) h = (h.0, All-take P n rs h.1)

pub All-drop :
    (P : DeepAttributionRequest → Type 0) (n : ℕ) (rs : Requests) → All P rs → All P (drop n rs)
All-drop P zero rs h = h
All-drop P (suc n) [] h = tt
All-drop P (suc n) (r ∷ rs) h = All-drop P n rs h.1

pub Distinct-take : (n : ℕ) (rs : Requests) → Distinct rs → Distinct (take n rs)
Distinct-take zero rs d = tt
Distinct-take (suc n) [] d = tt
Distinct-take (suc n) (r ∷ rs) d = (All-take (Other r) n rs d.0, Distinct-take n rs d.1)

pub Distinct-drop : (n : ℕ) (rs : Requests) → Distinct rs → Distinct (drop n rs)
Distinct-drop zero rs d = d
Distinct-drop (suc n) [] d = tt
Distinct-drop (suc n) (r ∷ rs) d = Distinct-drop n rs d.1

pub All-In :
    (P : DeepAttributionRequest → Type 0) (x : DeepAttributionRequest) (rs : Requests)
    → All P rs
    → In x rs
    → P x
All-In P x (r ∷ rs) h (inl e) = subst P (sym e) h.0
All-In P x (r ∷ rs) h (inr i) = All-In P x rs h.1 i
All-In P x [] h i = absurd i

pub In-All :
    (P : DeepAttributionRequest → Type 0) (rs : Requests)
    → ((x : DeepAttributionRequest) → In x rs → P x)
    → All P rs
In-All P [] h = tt
In-All P (r ∷ rs) h = (h r (inl refl), In-All P rs (λ x i. h x (inr i)))

-- What stands in front of a cut of a ranking is at least as loud as what stands behind it.
pub take-louder-drop :
    (n : ℕ) (rs : Requests) (x y : DeepAttributionRequest)
    → IsDescending rs
    → In x (take n rs)
    → In y (drop n rs)
    → total_bytes y ≤ total_bytes x
take-louder-drop zero rs x y d a b = absurd a
take-louder-drop (suc n) [] x y d a b = absurd a
take-louder-drop (suc n) (r ∷ rs) x y d (inl e) b = rw e (
    All-In (λ s. total_bytes s ≤ total_bytes r) y (drop n rs)
      (All-drop (λ s. total_bytes s ≤ total_bytes r) n rs d.0) b)
take-louder-drop (suc n) (r ∷ rs) x y d (inr i) b = take-louder-drop n rs x y d.1 i b
