-- ===== src/Capture/TopK.antt =====
-- src/backend/linux/FlowTopK.h: the collector of the loudest flows. A heap is a list in rising order
-- of bytes, of which the front is the one that the source's heap has there; the order of the others
-- is left open by std::push_heap. A capacity of 0 stands for every capacity that is not positive.
pub mod Loudest
pub mod Offered
use qiftop.Common.{
  ℕ, suc, ◌+◌, ◌≤◌, ◌<◌, ◌≡◌, refl, ◌∙◌, inl, inr, Bool, List, [], ◌∷◌, ◌++◌, arith, tests, ltb,
  min, if◌then◌else◌, ◌==◌, nat_eq, length, All, Bool-cases,
}
use qiftop.Flow.Types.{Connection}
use qiftop.Attribution.Request.{add64}

abbrev pub flow_bytes_total : Connection → ℕ
flow_bytes_total c = add64 c.rx_bytes c.tx_bytes

-- FlowMinHeapByBytes
abbrev pub louder : Connection → Connection → Bool
louder a b = ltb (flow_bytes_total b) (flow_bytes_total a)

-- `append` and std::push_heap
pub push_heap : Connection → List Connection → List Connection
push_heap c [] = c ∷ []
push_heap c (x ∷ xs) = if louder c x then x ∷ push_heap c xs else c ∷ x ∷ xs

-- A full heap: the smallest gives way to a louder flow.
pub evict : Connection → List Connection → List Connection
unfolding push_heap
evict c [] = []
evict c (x ∷ xs) = if louder c x then push_heap c xs else x ∷ xs

unfoldable pub admit_flow_top_k : ℕ → List Connection → Connection → List Connection
unfolding push_heap evict
admit_flow_top_k cap heap c =
    if cap == 0
    then heap ++ c ∷ []
    else if ltb (length heap) cap
    then push_heap c heap
    else evict c heap

-- A dump: every flow is offered in turn.
unfoldable pub admit_all : ℕ → List Connection → List Connection → List Connection
admit_all cap heap [] = heap
admit_all cap heap (c ∷ cs) = admit_all cap (admit_flow_top_k cap heap c) cs
