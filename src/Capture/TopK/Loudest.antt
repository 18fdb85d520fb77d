-- ===== src/Capture/TopK/Loudest.antt =====
-- How many flows above a threshold the collector keeps.
use qiftop.Common.{
  ◌⊎◌, ℕ, suc, ◌+◌, ◌≤◌, ◌<◌, ◌≡◌, refl, inl, inr, List, [], ◌∷◌, ◌++◌, arith, tests, ltb, min,
  if◌then◌else◌, ◌==◌, nat_eq, length, All, Bool-cases,
}
use qiftop.Flow.Types.{Connection}
use qiftop.Capture.TopK.{flow_bytes_total, louder, push_heap, evict, admit_flow_top_k, admit_all}

-- The number of flows with more than `b` bytes.
pub count_louder : ℕ → List Connection → ℕ
count_louder b [] = 0
count_louder b (c ∷ cs) = (if ltb b (flow_bytes_total c) then 1 else 0) + count_louder b cs

abbrev weight : ℕ → Connection → ℕ
weight b c = if ltb b (flow_bytes_total c) then 1 else 0

-- By rising number of bytes.
abbrev IsRising : List Connection → Type 0
IsRising [] = Unit
IsRising (x ∷ xs) = All (λ y. flow_bytes_total x ≤ flow_bytes_total y) xs × IsRising xs

count_louder-append :
    (b : ℕ) (c : Connection) (xs : List Connection)
    → count_louder b (xs ++ c ∷ []) ≡ count_louder b xs + weight b c
unfolding count_louder
count_louder-append b c [] = omega arith
count_louder-append b c (x ∷ xs) = omega (arith, count_louder-append b c xs)

count_louder-push_heap :
    (b : ℕ) (c : Connection) (xs : List Connection)
    → count_louder b (push_heap c xs) ≡ count_louder b xs + weight b c
unfolding count_louder push_heap
count_louder-push_heap b c [] = omega arith
count_louder-push_heap b c (x ∷ xs) = elim (Bool-cases (louder c x)) [
  | inl over ↦ rw (over, count_louder) (omega (arith, count_louder-push_heap b c xs))
  | inr under ↦ rw (under, count_louder) (omega arith)
]

count_louder-le : (b : ℕ) (xs : List Connection) → count_louder b xs ≤ length xs
unfolding count_louder
count_louder-le b [] = omega arith
count_louder-le b (x ∷ xs) = ground (arith, count_louder-le b xs)

-- Where the smallest has more than `b` bytes, all have.
count_louder-All :
    (b n : ℕ) (xs : List Connection)
    → b < n
    → All (λ y. n ≤ flow_bytes_total y) xs
    → count_louder b xs ≡ length xs
unfolding count_louder
count_louder-All b n [] h a = refl
count_louder-All b n (x ∷ xs) h a = ground (arith, count_louder-All b n xs h a.1)

All-push_heap :
    (P : Connection → Type 0) (c : Connection) (xs : List Connection)
    → P c
    → All P xs
    → All P (push_heap c xs)
unfolding push_heap
All-push_heap P c [] h a = (h, tt)
All-push_heap P c (x ∷ xs) h a = ground (arith, All-push_heap P c xs h a.1)

All-rise :
    {m n : ℕ} (xs : List Connection)
    → m ≤ n
    → All (λ y. n ≤ flow_bytes_total y) xs
    → All (λ y. m ≤ flow_bytes_total y) xs
All-rise [] h a = tt
All-rise (x ∷ xs) h a = (omega arith, All-rise xs h a.1)

push_heap-IsRising :
    (c : Connection) (xs : List Connection) → IsRising xs → IsRising (push_heap c xs)
unfolding push_heap
push_heap-IsRising c [] r = (tt, tt)
push_heap-IsRising c (x ∷ xs) r = elim (Bool-cases (louder c x)) [
  | inl over ↦ rw over (
      (
        All-push_heap (λ y. flow_bytes_total x ≤ flow_bytes_total y) c xs (omega tests) r.0,
        push_heap-IsRising c xs r.1,
      ))
  | inr under ↦
      let le : flow_bytes_total c ≤ flow_bytes_total x = ground arith in
      rw under (((le, All-rise xs le r.0), r))
]

length-push_heap :
    (c : Connection) (xs : List Connection) → length (push_heap c xs) ≡ suc (length xs)
unfolding push_heap
length-push_heap c [] = refl
length-push_heap c (x ∷ xs) = ground (arith, length-push_heap c xs)

-- A heap within its capacity.
record IsHeap (cap : ℕ) (heap : List Connection) : Type 0 where
  within : length heap ≤ cap
  rising : IsRising heap

evict-IsHeap :
    (cap : ℕ) (c : Connection) (xs : List Connection) → IsHeap cap xs → IsHeap cap (evict c xs)
unfolding evict
evict-IsHeap cap c [] h = h
evict-IsHeap cap c (x ∷ xs) h = elim (Bool-cases (louder c x)) [
  | inl over ↦ rw over (record {
    within = omega (arith, length-push_heap c xs, h.within);
    rising = push_heap-IsRising c xs h.rising.1;
  })
  | inr under ↦ rw under h
]

count_louder-evict :
    (b cap : ℕ) (c : Connection) (xs : List Connection)
    → length xs ≡ cap
    → 0 < cap
    → IsRising xs
    → count_louder b (evict c xs) ≡ min cap (count_louder b xs + weight b c)
unfolding evict count_louder
count_louder-evict b cap c [] full room r = absurd (omega arith)
count_louder-evict b cap c (x ∷ xs) full room r =
    let some_le = count_louder-le b xs in
    let pushed = count_louder-push_heap b c xs in
    elim (Bool-cases (ltb b (flow_bytes_total x))) [
      | inl above ↦
          let all = count_louder-All b (flow_bytes_total x) xs (omega tests) r.0 in ground arith
      | inr below ↦ ground arith
    ]

admit_cases :
    (cap : ℕ) (heap : List Connection) (c : Connection)
    → 0 < cap
    → length heap ≤ cap
    → ((length heap < cap) × (admit_flow_top_k cap heap c ≡ push_heap c heap))
      ⊎ ((length heap ≡ cap) × (admit_flow_top_k cap heap c ≡ evict c heap))
unfolding admit_flow_top_k
admit_cases cap heap c room h = ground arith

admit-IsHeap :
    (cap : ℕ) (heap : List Connection) (c : Connection)
    → 0 < cap
    → IsHeap cap heap
    → IsHeap cap (admit_flow_top_k cap heap c)
admit-IsHeap cap heap c room h = elim (admit_cases cap heap c room h.within) [
  | inl (fits, e) ↦ rw e (record {
    within = omega (arith, length-push_heap c heap);
    rising = push_heap-IsRising c heap h.rising;
  })
  | inr (full, e) ↦ rw e (evict-IsHeap cap c heap h)
]

count_louder-admit :
    (b cap : ℕ) (heap : List Connection) (c : Connection)
    → 0 < cap
    → IsHeap cap heap
    → count_louder b (admit_flow_top_k cap heap c) ≡ min cap (count_louder b heap + weight b c)
count_louder-admit b cap heap c room h = elim (admit_cases cap heap c room h.within) [
  | inl (fits, e) ↦
      let pushed = count_louder-push_heap b c heap in
      let bound = count_louder-le b heap in rw e (ground arith)
  | inr (full, e) ↦ rw e (count_louder-evict b cap c heap full room h.rising)
]

count_louder-admit_all :
    (b cap : ℕ) (heap flows : List Connection)
    → 0 < cap
    → IsHeap cap heap
    → count_louder b (admit_all cap heap flows)
      ≡ min cap (count_louder b heap + count_louder b flows)
unfolding admit_all count_louder
count_louder-admit_all b cap heap [] room h = omega (arith, count_louder-le b heap, h.within)
count_louder-admit_all b cap heap (c ∷ cs) room h = omega (
  arith,
  count_louder-admit_all b cap (admit_flow_top_k cap heap c) cs room
      (admit-IsHeap cap heap c room h),
  count_louder-admit b cap heap c room h,
)

count_louder-unbounded :
    (b : ℕ) (heap flows : List Connection)
    → count_louder b (admit_all 0 heap flows) ≡ count_louder b heap + count_louder b flows
unfolding admit_all admit_flow_top_k count_louder
count_louder-unbounded b heap [] = omega arith
count_louder-unbounded b heap (c ∷ cs) =
    omega (arith, count_louder-unbounded b (heap ++ c ∷ []) cs, count_louder-append b c heap)

-- After a dump, whatever the order of its flows, the collector has as many flows above any number
-- of bytes as were offered, or as many as fit where there is a capacity.
pub admit_all-count_louder :
    (b cap : ℕ) (flows : List Connection)
    → count_louder b (admit_all cap [] flows)
      ≡ (if cap == 0 then count_louder b flows else min cap (count_louder b flows))
unfolding count_louder
admit_all-count_louder b cap flows = elim (Bool-cases (cap == 0)) [
  | inl none_set ↦ rw none_set (subst_cap (ground arith))
  | inr set ↦ rw set (
      omega (
        arith,
        count_louder-admit_all b cap [] flows (ground arith)
            (record { within = omega arith; rising = tt }),
      ))
]
  where
    subst_cap : cap ≡ 0 → count_louder b (admit_all cap [] flows) ≡ count_louder b flows
    subst_cap e = rw e (omega (arith, count_louder-unbounded b [] flows))
