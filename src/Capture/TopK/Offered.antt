-- ===== src/Capture/TopK/Offered.antt =====
-- Which flows the collector keeps.
use qiftop.Common.{ℕ, ◌≡◌, ◌⊎◌, refl, inl, inr, List, [], ◌∷◌, arith, nat_eq, All, All-append}
use qiftop.Flow.Types.{Connection}
use qiftop.Capture.TopK.{push_heap, evict, admit_flow_top_k, admit_all}

-- `c` is one of the flows.
abbrev pub Offered : List Connection → Connection → Type 0
Offered [] c = ⊥
Offered (x ∷ xs) c = (c ≡ x) ⊎ Offered xs c

module _ (P : Connection → Type 0) where
  All-push_heap : (c : Connection) (xs : List Connection) → P c → All P xs → All P (push_heap c xs)
  unfolding push_heap
  All-push_heap c [] h a = (h, tt)
  All-push_heap c (x ∷ xs) h a = ground (arith, All-push_heap c xs h a.1)

  All-evict : (c : Connection) (xs : List Connection) → P c → All P xs → All P (evict c xs)
  unfolding evict
  All-evict c [] h a = a
  All-evict c (x ∷ xs) h a = ground (arith, All-push_heap c xs h a.1)

  All-admit :
      (cap : ℕ) (heap : List Connection) (c : Connection)
      → P c
      → All P heap
      → All P (admit_flow_top_k cap heap c)
  unfolding admit_flow_top_k
  All-admit cap heap c h a =
      ground (
        arith,
        All-append P heap (c ∷ []) a (h, tt),
        All-push_heap c heap h a,
        All-evict c heap h a,
      )

  All-admit_all :
      (cap : ℕ) (heap flows : List Connection)
      → All P heap
      → All P flows
      → All P (admit_all cap heap flows)
  unfolding admit_all
  All-admit_all cap heap [] a b = a
  All-admit_all cap heap (c ∷ cs) a b =
      All-admit_all cap (admit_flow_top_k cap heap c) cs (All-admit cap heap c b.0 a) b.1

All-weaken :
    {P Q : Connection → Type 0} (xs : List Connection)
    → ((c : Connection) → P c → Q c)
    → All P xs
    → All Q xs
All-weaken [] f a = tt
All-weaken (x ∷ xs) f a = (f x a.0, All-weaken xs f a.1)

All-Offered : (flows : List Connection) → All (Offered flows) flows
All-Offered [] = tt
All-Offered (c ∷ cs) = (inl refl, All-weaken cs (λ x h. inr h) (All-Offered cs))

-- Every flow that the collector keeps of a dump is one that was offered.
pub admit_all-Offered :
    (cap : ℕ) (flows : List Connection) → All (Offered flows) (admit_all cap [] flows)
admit_all-Offered cap flows = All-admit_all (Offered flows) cap [] flows tt (All-Offered flows)
