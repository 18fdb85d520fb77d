-- ===== src/Tests/Flow.antt =====
-- Keys, directions and reasons of flows.
use mathlib.Core.List.{Perm}
use qiftop.Common.{
  ◌⊎◌, true, false, not, ◌&&◌, ◌||◌, List, min, ℕ, zero, suc, ◌≡◌, ◌≢◌, ◌↔◌, refl, [], ◌∷◌, arith,
  if◌then◌else◌, ◌==◌, nat_eq,
}
use qiftop.Flow.Types.{Text, Connection, tcp, outbound, time_wait}
use qiftop.Flow.Key.{KeyText, IsPlain, Without, bar, dot, connection_key, connection_key-injective}
use qiftop.Flow.Heuristics.{mem, is_ours, is_ephemeral, is_forwarded_flow, infer_direction}
use qiftop.Capture.Orient.{Entry, orient}
use qiftop.Capture.Orient.Ends.{carried, counted, orient-is_forwarded_flow}
use qiftop.Capture.TopK.{admit_flow_top_k, admit_all}
use qiftop.Capture.TopK.Loudest.{count_louder, admit_all-count_louder}
use qiftop.Tests.Data.{flow_of}

goes_out : infer_direction (flow_of 40000 1) (7 ∷ []) [] 32768 60999 ≡ outbound
unfolding infer_direction is_ephemeral
goes_out = refl

abbrev closing : Connection
closing = record (flow_of 40000 1) { tcp_state = time_wait }

-- Numbers written with strokes.
strokes : ℕ → Text
strokes zero = []
strokes (suc n) = b'1' ∷ strokes n

strokes-Without : (c : ℕ) → b'1' ≢ c → (n : ℕ) → Without c (strokes n)
unfolding strokes
strokes-Without c h zero = tt
strokes-Without c h (suc n) = (h, strokes-Without c h n)

strokes-injective : (m n : ℕ) → strokes m ≡ strokes n → m ≡ n
unfolding strokes
strokes-injective zero zero h = refl
strokes-injective zero (suc n) h = ground arith
strokes-injective (suc m) zero h = ground arith
strokes-injective (suc m) (suc n) h = ground (arith, strokes-injective m n)

abbrev stroke_text : KeyText
stroke_text = record { decimal = strokes; address_text = strokes }

stroke_text-IsPlain : IsPlain stroke_text
stroke_text-IsPlain = record {
  decimal_bar = strokes-Without bar (λ h. omega arith);
  decimal_dot = strokes-Without dot (λ h. omega arith);
  decimal_injective = strokes-injective;
  address_bar = strokes-Without bar (λ h. omega arith);
  address_percent = strokes-Without b'%' (λ h. omega arith);
  address_injective = strokes-injective;
}

connection_key-injective_example :
    (connection_key stroke_text (flow_of 1 100) ≡ connection_key stroke_text (flow_of 2 100)) ↔ (
      (tcp ≡ tcp)
      × (outbound ≡ outbound)
      × ((flow_of 1 100).local ≡ (flow_of 2 100).local)
      × ((flow_of 1 100).remote ≡ (flow_of 2 100).remote))
connection_key-injective_example =
    connection_key-injective stroke_text-IsPlain (flow_of 1 100) (flow_of 2 100)

-- An entry that a peer opened: its source is the remote end.
abbrev opened_by_peer : Entry
opened_by_peer = record {
  src = record { address = 9; port = 50000 };
  dst = record { address = 7; port = 22 };
  proto = tcp;
  orig_bytes = 100;
  repl_bytes = 900;
  orig_packets = 1;
  repl_packets = 2;
}

orient-is_forwarded_flow_example :
    let c = orient opened_by_peer (7 ∷ []) in
    Perm (carried c) (counted opened_by_peer)
    × (mem c.local.address (7 ∷ []) ≡ (mem 9 (7 ∷ []) || mem 7 (7 ∷ [])))
    × (mem c.remote.address (7 ∷ []) ≡ (mem 9 (7 ∷ []) && mem 7 (7 ∷ [])))
    × ((c.local ≡ opened_by_peer.src) ⊎ ((mem 9 (7 ∷ []) ≡ false) × (mem 7 (7 ∷ []) ≡ true)))
    × (is_forwarded_flow c (7 ∷ []) (127 ∷ [])
        ≡ (not (is_ours (7 ∷ []) (127 ∷ []) 9) && not (is_ours (7 ∷ []) (127 ∷ []) 7)))
orient-is_forwarded_flow_example = orient-is_forwarded_flow opened_by_peer (7 ∷ []) (127 ∷ [])

-- The peer's 100 bytes are received, on port 22 of this host.
opened_by_peer_local :
    let c = orient opened_by_peer (7 ∷ []) in
    (c.local.port ≡ 22) × (c.rx_bytes ≡ 100) × (c.tx_bytes ≡ 900)
unfolding orient mem
opened_by_peer_local = (refl, refl, refl)

abbrev dump : List Connection
dump = flow_of 1 100 ∷ flow_of 2 900 ∷ flow_of 3 300 ∷ []

admit_all-count_louder_example :
    let cap : ℕ = 1 in
    count_louder 200 (admit_all 1 [] dump)
    ≡ (if cap == 0 then count_louder 200 dump else min 1 (count_louder 200 dump))
admit_all-count_louder_example = admit_all-count_louder 200 1 dump

two_loudest : admit_all 2 [] dump ≡ flow_of 3 300 ∷ flow_of 2 900 ∷ []
unfolding admit_all admit_flow_top_k
two_loudest = refl
