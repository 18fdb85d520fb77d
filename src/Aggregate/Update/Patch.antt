-- ===== src/Aggregate/Update/Patch.antt =====
-- The rows after a patch of attributions, flow by flow.
use qiftop.Common.{
  ℕ, zero, suc, ◌+◌, ◌-◌, ◌≤◌, ◌≡◌, refl, sym, ◌∙◌, inl, inr, Bool, true, false, not, List, [], ◌∷◌,
  Option, none, some, arith, if◌then◌else◌, ◌==◌, ==_iff, ==_refl, list_eq, nat_eq, Eq, Bool-cases,
  modify,
}
use qiftop.Containers.Map.{find, Unique}
use qiftop.Flow.Types.{
  Text, Connection, ContainerInfo, process_eq, container_eq, process_valid, container_valid,
  is_empty,
}
use qiftop.Flow.Key.{KeyText, connection_key}
use qiftop.Aggregate.Rows.{Row, row_key}
use qiftop.Aggregate.Rows.Lookup.{by_key, position, none-position, position-none}
use qiftop.Aggregate.Update.{is_better, patch}

module _ {ℓ} {A : Type ℓ} ⦃e : Eq A⦄ (valid : A → Bool) where
  -- What a field becomes.
  abbrev better : A → A → A
  better p cur = if is_better valid p cur then p else cur

  is_better-better : (p cur : A) → is_better valid p (better p cur) ≡ false
  unfolding is_better
  is_better-better p cur = ground (arith, ==_iff cur p, ==_refl p)

  valid-better : (p cur : A) → valid cur ≡ true → valid (better p cur) ≡ true
  unfolding is_better
  valid-better p cur h = ground arith

abbrev pub has_chain : List ContainerInfo → Bool
has_chain chain = not (is_empty chain)

-- A patch changes only what says who owns a flow, toward more information: what was valid stays
-- valid, and the same patch again changes nothing.
pub patch_lem :
    (p cur : Connection)
    → let c = (patch p cur).0 in
      (c ≡ record cur {
        process = c.process;
        reason = c.reason;
        container = c.container;
        container_chain = c.container_chain;
      })
      × (process_valid cur.process ≡ true → process_valid c.process ≡ true)
      × (container_valid cur.container ≡ true → container_valid c.container ≡ true)
      × (has_chain cur.container_chain ≡ true → has_chain c.container_chain ≡ true)
      × (patch p c ≡ (c, false))
unfolding patch
patch_lem p cur = (
  refl,
  valid-better process_valid p.process cur.process,
  valid-better container_valid p.container cur.container,
  valid-better has_chain p.container_chain cur.container_chain,
  rw
      (
        is_better-better process_valid p.process cur.process,
        is_better-better container_valid p.container cur.container,
        is_better-better has_chain p.container_chain cur.container_chain,
      )
      refl,
)

some-injective : {m n : ℕ} → some m ≡ some n → m ≡ n
some-injective h = cc

module _ {Num : Type 0} (q : KeyText) where
  abbrev pub patch_row : Connection → Row Num → Row Num
  patch_row p r = record r { current = (patch p r.current).0 }

  pub row_key-patch_row : (p : Connection) (r : Row Num) → row_key q (patch_row p r) ≡ row_key q r
  unfolding patch connection_key
  row_key-patch_row p r = refl

  abbrev pub map_option : (Row Num → Row Num) → Option (Row Num) → Option (Row Num)
  map_option f none = none
  map_option f (some r) = some (f r)

  position-le : (k : Text) (i j : ℕ) (rs : List (Row Num)) → position q k i rs ≡ some j → i ≤ j
  unfolding position
  position-le k i j [] h = cc
  position-le k i j (r ∷ rs) h = ground (arith, position-le k (i + 1) j rs)

  module _ (f : Row Num → Row Num) (keeps : (r : Row Num) → row_key q (f r) ≡ row_key q r) where
    pub position-modify :
        (k : Text) (i n : ℕ) (rs : List (Row Num))
        → position q k i (modify f n rs) ≡ position q k i rs
    unfolding position
    position-modify k i n [] = refl
    position-modify k i zero (r ∷ rs) = rw (keeps r) refl
    position-modify k i (suc n) (r ∷ rs) = rw (position-modify k (i + 1) n rs) refl

    pub Unique-modify :
        (n : ℕ) (rs : List (Row Num)) → Unique (by_key q rs) → Unique (by_key q (modify f n rs))
    Unique-modify n [] u = tt
    Unique-modify zero (r ∷ rs) u = rw (keeps r) u
    Unique-modify (suc n) (r ∷ rs) u = (
      none-position q (row_key q r) 0 _
          (position-modify (row_key q r) 0 n rs ∙ position-none q (row_key q r) 0 rs u.0),
      Unique-modify n rs u.1,
    )

    front :
        (b : Bool) (r : Row Num) (x : Option (Row Num))
        → (if b then some (f r) else x)
          ≡ (if b then map_option f (if b then some r else x) else if b then some r else x)
    front true r x = refl
    front false r x = refl

    behind :
        (b c : Bool) (r : Row Num) (x : Option (Row Num))
        → (b ≡ true → c ≡ true → ⊥)
        → (if b then some r else if c then map_option f x else x)
          ≡ (if c then map_option f (if b then some r else x) else if b then some r else x)
    behind true true r x h = absurd (h refl refl)
    behind true false r x h = refl
    behind false true r x h = refl
    behind false false r x h = refl

    pub find-modify :
        (j k : Text) (i n : ℕ) (rs : List (Row Num))
        → position q k i rs ≡ some n
        → find j (by_key q (modify f (n - i) rs))
          ≡ (if k == j then map_option f (find j (by_key q rs)) else find j (by_key q rs))
    unfolding find position
    find-modify j k i n [] h = cc
    find-modify j k i n (r ∷ rs) h = elim (Bool-cases (row_key q r == k)) [
      | inl hit ↦
          let here : n ≡ i = (sym (some-injective (rw hit at h))) in
          let offset : n - i ≡ 0 = omega arith in
          let same = (==_iff (row_key q r) k).0 hit in
          rw (offset, keeps r, same) (front (k == j) r (find j (by_key q rs)))
      | inr miss ↦
          let later = position-le k (i + 1) n rs (rw miss at h) in
          let offset : n - i ≡ suc (n - (i + 1)) = omega arith in
          rw (offset, find-modify j k (i + 1) n rs (rw miss at h))
            (behind (row_key q r == j) (k == j) r (find j (by_key q rs))
              (λ a b. ground (arith, ==_iff (row_key q r) j, ==_iff k j, ==_refl k)))
    ]
