-- ===== src/Grouping/View/Moves.antt =====
-- src/ui/ConnectionGroupProxy.cpp: the signals for groups that go, for headers, and for a row that
-- moves to another group.
use qiftop.Common.{
  ℕ, zero, suc, ◌+◌, ◌≤◌, ◌<◌, ◌≡◌, refl, sym, ◌∙◌, ap, subst, inl, inr, true, List, [], ◌∷◌, ◌++◌,
  Option, none, some, arith, ltb, nat_eq, list_eq, modify, length, length-append, get_elem?,
  Bool-cases,
}
use qiftop.Flow.Types.{Text}
use qiftop.Grouping.Groups.{
  Group, removes, remove_at, place, holds, drop_emptied, headers_of, has_label, has_key, relabel,
  without, is_spent, take_out, regroup_from,
}
use qiftop.Grouping.View.{shape, receive, Leads, Leads-append, Leads-header}
use qiftop.Grouping.View.Groups.{length-shape, length-modify, IsThere, receive-removes, place-Leads}

append_one : (pre s : List ℕ) (n : ℕ) → (pre ++ n ∷ []) ++ s ≡ pre ++ n ∷ s
append_one [] s n = refl
append_one (x ∷ pre) s n = ap (λ t. x ∷ t) (append_one pre s n)

remove_at-append : (pre s : List ℕ) (n : ℕ) → remove_at (length pre) (pre ++ n ∷ s) ≡ pre ++ s
unfolding remove_at
remove_at-append [] s n = refl
remove_at-append (x ∷ pre) s n = ap (λ t. x ∷ t) (remove_at-append pre s n)

receive-removes_top :
    (now pre s : List ℕ) (n : ℕ)
    → receive now (removes none (length pre)) (pre ++ n ∷ s) ≡ some (pre ++ s)
unfolding receive
receive-removes_top now pre s n =
    ground (arith, length-append pre (n ∷ s), remove_at-append pre s n)

pub drop_emptied-Leads :
    (now pre : List ℕ) (emptied : List ℕ) (i : ℕ) (gs : List Group)
    → length pre ≡ i
    → let (left, signals) = drop_emptied emptied i gs in
      Leads now signals (pre ++ shape gs) (pre ++ shape left)
unfolding drop_emptied
drop_emptied-Leads now pre emptied i [] e = refl
drop_emptied-Leads now pre emptied i (g ∷ gs) e =
    let (rest, signals) = drop_emptied emptied (i + 1) gs in
    let n = length g.src_rows in
    let later =
      drop_emptied-Leads now (pre ++ n ∷ []) emptied (i + 1) gs
        (omega (arith, length-append pre (n ∷ []), e)) in
    let later' : Leads now signals (pre ++ n ∷ shape gs) (pre ++ n ∷ shape rest) =
      subst (λ s. Leads now signals s (pre ++ n ∷ shape rest)) (append_one pre (shape gs) n)
        (subst (Leads now signals ((pre ++ n ∷ []) ++ shape gs)) (append_one pre (shape rest) n)
          later) in
    elim (Bool-cases (holds i emptied)) [
      | inl goes ↦
          let step : Leads now (removes none i ∷ []) (pre ++ n ∷ shape rest) (pre ++ shape rest) =
            rw
              (ap (λ j. receive now (removes none j) (pre ++ n ∷ shape rest)) (sym e)
                ∙ receive-removes_top now pre (shape rest) n)
              refl in
          rw goes (
            Leads-append now signals (removes none i ∷ []) (pre ++ n ∷ shape gs)
              (pre ++ n ∷ shape rest) (pre ++ shape rest) later' step)
      | inr stays ↦ rw stays later'
    ]

pub headers_of-Leads :
    (now s : List ℕ) (keys : List Text) (i : ℕ) (gs : List Group)
    → i + length gs ≤ length s
    → Leads now (headers_of keys i gs) s s
unfolding headers_of
headers_of-Leads now s keys i [] h = refl
headers_of-Leads now s keys i (g ∷ gs) h =
    let rest = headers_of-Leads now s keys (i + 1) gs (omega arith) in
    elim (Bool-cases (holds g.key keys)) [
      | inl hit ↦ rw hit (Leads-header now i (headers_of keys (i + 1) gs) s s (omega arith) rest)
      | inr miss ↦ rw miss rest
    ]

shape-relabelled :
    (gi : ℕ) (label : Text) (gs : List Group)
    → shape (modify (λ g. record g { label = label }) gi gs) ≡ shape gs
shape-relabelled gi label [] = refl
shape-relabelled zero label (g ∷ gs) = refl
shape-relabelled (suc gi) label (g ∷ gs) =
    ap (λ s. length g.src_rows ∷ s) (shape-relabelled gi label gs)

relabel-Leads :
    (now : List ℕ) (gi : ℕ) (label : Text) (gs : List Group)
    → gi < length gs
    → let (relabelled, signals) = relabel gi label gs in
      Leads now signals (shape gs) (shape relabelled)
unfolding relabel
relabel-Leads now gi label gs lt = elim (Bool-cases (has_label label (get_elem? gs gi))) [
  | inl same ↦ rw same refl
  | inr new ↦
      rw (new, shape-relabelled gi label gs)
        (Leads-header now gi [] (shape gs) (shape gs) (omega (arith, length-shape gs)) refl)
]

shape-remove_at : (gi : ℕ) (gs : List Group) → shape (remove_at gi gs) ≡ remove_at gi (shape gs)
unfolding remove_at
shape-remove_at gi [] = refl
shape-remove_at zero (g ∷ gs) = refl
shape-remove_at (suc gi) (g ∷ gs) = ap (λ s. length g.src_rows ∷ s) (shape-remove_at gi gs)

receive-removes_group :
    (now : List ℕ) (gi : ℕ) (gs : List Group)
    → gi < length gs
    → receive now (removes none gi) (shape gs) ≡ some (shape (remove_at gi gs))
unfolding receive
receive-removes_group now gi gs lt = ground (arith, length-shape gs, shape-remove_at gi gs)

take_out-Leads :
    (now : List ℕ) (gi c : ℕ) (gs : List Group)
    → IsThere (some (gi, c)) gs
    → let (left, signals) = take_out gi c gs in Leads now signals (shape gs) (shape left)
unfolding take_out
take_out-Leads now gi c gs h =
    let left = modify (without c) gi gs in
    let lt : gi < length left = omega (arith, h.0, length-modify (without c) gi gs) in
    elim (Bool-cases (is_spent (get_elem? left gi))) [
      | inl spent ↦
          rw (spent, receive-removes now gi c gs h, receive-removes_group now gi left lt) refl
      | inr kept ↦
          rw (kept, receive-removes now gi c gs h)
            (Leads-header now gi [] (shape left) (shape left) (omega (arith, length-shape left))
              refl)
    ]

has_key_lt :
    (k : Text) (gi : ℕ) (gs : List Group) → has_key k (get_elem? gs gi) ≡ true → gi < length gs
has_key_lt k gi [] h = cc
has_key_lt k zero (g ∷ gs) h = omega arith
has_key_lt k (suc gi) (g ∷ gs) h = omega (arith, has_key_lt k gi gs h)

pub regroup_from-Leads :
    (now : List ℕ) (at : Option (ℕ × ℕ)) (k label : Text) (r : ℕ) (gs : List Group)
    → IsThere at gs
    → let (after, moved, signals) = regroup_from at k label r gs in
      Leads now signals (shape gs) (shape after)
unfolding regroup_from
regroup_from-Leads now none k label r gs h = place-Leads now k label r gs
regroup_from-Leads now (some (gi, c)) k label r gs h =
    elim (Bool-cases (has_key k (get_elem? gs gi))) [
      | inl stays ↦ rw stays (relabel-Leads now gi label gs (has_key_lt k gi gs stays))
      | inr moves ↦
          let (left, removals) = take_out gi c gs in
          let (placed, signals) = place k label r left in
          let there : ltb gi (length gs) ≡ true = ground (arith, h.0) in
          rw (moves, there)
            (Leads-append now removals signals (shape gs) (shape left) (shape placed)
              (take_out-Leads now gi c gs h) (place-Leads now k label r left))
    ]
