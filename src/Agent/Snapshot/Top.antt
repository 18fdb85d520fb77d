-- ===== src/Agent/Snapshot/Top.antt =====
-- The flows that are kept of a snapshot that is too long.
use qiftop.Common.{
  ℕ, zero, suc, ◌+◌, ◌-◌, ◌^◌, ◌≤◌, ◌<◌, ◌≡◌, refl, ◌∙◌, ◌⊎◌, ap, inl, inr, Bool, true, false, List,
  [], ◌∷◌, arith, ltb, Bool-cases, length, length-take, take, drop, keep, All, min,
}
use qiftop.Flow.Types.{Connection}
use qiftop.Agent.Snapshot.{
  total_bytes, has_greater_total_bytes, max_connections, insert_sorted, sorted, capped,
}

-- The counters fit their 64 bits.
pub record IsWide (c : Connection) : Type 0 where
  pub rx : c.rx_bytes < 2 ^ 64
  pub tx : c.tx_bytes < 2 ^ 64

abbrev pub bytes : Connection → ℕ
bytes c = c.rx_bytes + c.tx_bytes

total_bytes_cases :
    (c : Connection)
    → IsWide c
    → let t = total_bytes c in
      ((t.carry ≡ true) × (t.low + 2 ^ 64 ≡ bytes c)) ⊎ ((t.carry ≡ false) × (t.low ≡ bytes c))
unfolding total_bytes
total_bytes_cases c w = elim (Bool-cases (ltb (2 ^ 64 - 1 - c.tx_bytes) c.rx_bytes)) [
  | inl over ↦ inl (over, ground (arith, w.rx, w.tx))
  | inr fits ↦ inr (fits, ground (arith, w.rx, w.tx))
]

low-lt : (c : Connection) → (total_bytes c).low < 2 ^ 64
unfolding total_bytes
low-lt c = omega arith

-- The comparison is that of the totals with no wrap-around.
pub has_greater_total_bytes_lem :
    (a b : Connection) → IsWide a → IsWide b → has_greater_total_bytes a b ≡ ltb (bytes b) (bytes a)
unfolding has_greater_total_bytes
has_greater_total_bytes_lem a b u v =
    let la = low-lt a in
    let lb = low-lt b in
    elim (total_bytes_cases a u) [
      | inl x ↦ elim (total_bytes_cases b v) [
        | inl y ↦ rw (x.0, y.0) (ground (arith, x.1, y.1))
        | inr y ↦ rw (x.0, y.0) (ground (arith, x.1, y.1, lb))
      ]
      | inr x ↦ elim (total_bytes_cases b v) [
        | inl y ↦ rw (x.0, y.0) (ground (arith, x.1, y.1, la))
        | inr y ↦ rw (x.0, y.0) (ground (arith, x.1, y.1))
      ]
    ]

abbrev IsDescending : List Connection → Type 0
IsDescending [] = Unit
IsDescending (c ∷ cs) = All (λ d. bytes d ≤ bytes c) cs × IsDescending cs

All-insert_sorted :
    (P : Connection → Type 0) (c : Connection) (cs : List Connection)
    → P c
    → All P cs
    → All P (insert_sorted c cs)
unfolding insert_sorted
All-insert_sorted P c [] h k = (h, tt)
All-insert_sorted P c (d ∷ ds) h k = ground (arith, All-insert_sorted P c ds h k.1)

All-le_mono :
    {m n : ℕ} (cs : List Connection) → m ≤ n → All (λ d. bytes d ≤ m) cs → All (λ d. bytes d ≤ n) cs
All-le_mono [] h a = tt
All-le_mono (c ∷ cs) h a = (omega arith, All-le_mono cs h a.1)

insert_sorted-IsDescending :
    (c : Connection) (cs : List Connection)
    → IsWide c
    → All IsWide cs
    → IsDescending cs
    → IsDescending (insert_sorted c cs)
unfolding insert_sorted
insert_sorted-IsDescending c [] w ws d = (tt, tt)
insert_sorted-IsDescending c (x ∷ xs) w ws d =
    let exact = has_greater_total_bytes_lem x c ws.0 w in
    elim (Bool-cases (ltb (bytes c) (bytes x))) [
      | inl louder ↦
          let bound : bytes c ≤ bytes x = ground arith in
          rw (exact, louder)
            ((
              All-insert_sorted (λ y. bytes y ≤ bytes x) c xs bound d.0,
              insert_sorted-IsDescending c xs w ws.1 d.1,
            ))
      | inr quieter ↦
          let bound : bytes x ≤ bytes c = ground arith in
          rw (exact, quieter) (((bound, All-le_mono xs bound d.0), d))
    ]

sorted-IsDescending :
    (cs : List Connection) → All IsWide cs → IsDescending (sorted cs) × All IsWide (sorted cs)
unfolding sorted
sorted-IsDescending [] w = (tt, tt)
sorted-IsDescending (c ∷ cs) w =
    let ih = sorted-IsDescending cs w.1 in
    (
      insert_sorted-IsDescending c (sorted cs) w.0 ih.1 ih.0,
      All-insert_sorted IsWide c (sorted cs) w.0 ih.1,
    )

-- How many of the flows pass a test.
abbrev pub count : (Connection → Bool) → List Connection → ℕ
count p cs = length (keep p cs)

count-insert_sorted :
    (p : Connection → Bool) (c : Connection) (cs : List Connection)
    → count p (insert_sorted c cs) ≡ count p (c ∷ cs)
unfolding insert_sorted
count-insert_sorted p c [] = refl
count-insert_sorted p c (d ∷ ds) = ground (arith, count-insert_sorted p c ds)

count-sorted : (p : Connection → Bool) (cs : List Connection) → count p (sorted cs) ≡ count p cs
unfolding sorted
count-sorted p [] = refl
count-sorted p (c ∷ cs) = ground (arith, count-insert_sorted p c (sorted cs), count-sorted p cs)

count-take-drop :
    (p : Connection → Bool) (n : ℕ) (cs : List Connection)
    → count p (take n cs) + count p (drop n cs) ≡ count p cs
count-take-drop p zero cs = omega arith
count-take-drop p (suc n) [] = refl
count-take-drop p (suc n) (c ∷ cs) = ground (arith, count-take-drop p n cs)

All-drop : (P : Connection → Type 0) (n : ℕ) (cs : List Connection) → All P cs → All P (drop n cs)
All-drop P zero cs h = h
All-drop P (suc n) [] h = tt
All-drop P (suc n) (c ∷ cs) h = All-drop P n cs h.1

louder-take-drop :
    (n : ℕ) (cs : List Connection)
    → IsDescending cs
    → All (λ k. All (λ d. bytes d ≤ bytes k) (drop n cs)) (take n cs)
louder-take-drop zero cs d = tt
louder-take-drop (suc n) [] d = tt
louder-take-drop (suc n) (c ∷ cs) d =
    (All-drop (λ x. bytes x ≤ bytes c) n cs d.0, louder-take-drop n cs d.1)

-- `kept` is a choice of the loudest of the flows: with `dropped` it makes up the flows, no flow that
-- is dropped has more bytes than one that is kept, and as many are kept as the limit allows.
pub record IsTop (conns kept dropped : List Connection) : Type 0 where
  pub parts : (p : Connection → Bool) → count p kept + count p dropped ≡ count p conns
  pub louder : All (λ k. All (λ d. bytes d ≤ bytes k) dropped) kept
  pub full : length kept ≡ min max_connections (length conns)

All-empty : (cs : List Connection) → All (λ k. All (λ d. bytes d ≤ bytes k) []) cs
All-empty [] = tt
All-empty (c ∷ cs) = (tt, All-empty cs)

keep-all : (cs : List Connection) → keep (λ c. true) cs ≡ cs
keep-all [] = refl
keep-all (c ∷ cs) = ap (◌∷◌ c) (keep-all cs)

length-sorted : (cs : List Connection) → length (sorted cs) ≡ length cs
length-sorted cs =
    let same = count-sorted (λ c. true) cs in rw (keep-all (sorted cs), keep-all cs) at same

-- If the counters fit 64 bits, the flows that are kept of a snapshot are the loudest by their
-- exact totals, which may not fit: they and the dropped ones make up the snapshot, no dropped flow
-- has more bytes than a kept one, and as many are kept as the limit allows.
pub capped-IsTop :
    (conns : List Connection)
    → All IsWide conns
    → (dropped : List Connection) × IsTop conns (capped conns) dropped
unfolding capped
capped-IsTop conns w = elim (Bool-cases (ltb max_connections (length conns))) [
  | inl over ↦ rw over (
      (
        drop max_connections (sorted conns),
        record {
          parts = λ p. count-take-drop p max_connections (sorted conns) ∙ count-sorted p conns;
          louder = louder-take-drop max_connections (sorted conns) (sorted-IsDescending conns w).0;
          full = omega (arith, length-take max_connections (sorted conns), length-sorted conns);
        },
      ))
  | inr fits ↦ rw fits (
      (
        [],
        record { parts = λ p. omega arith; louder = All-empty conns; full = ground (arith, fits) },
      ))
]
