-- ===== src/Grouping/Proxy/Persist/Table.antt =====
-- src/ui/ConnectionGroupProxy.cpp: the table of groups by key, and what keys are.
use qiftop.Common.{
  ℕ, zero, suc, ◌+◌, ◌<◌, ◌≡◌, ◌⊎◌, refl, subst, inl, inr, false, List, [], ◌∷◌, ◌++◌, Option, none,
  some, arith, ltb, ◌==◌, ==_iff, nat_eq, list_eq, get_elem?, All, Bool-cases,
}
use qiftop.Containers.Map.{Map, find, put, find-put}
use qiftop.Flow.Types.{Text, Connection, is_empty}
use qiftop.Grouping.Keys.{ViewMode, flat, by_interface, by_container, by_process, group_key_for}
use qiftop.Grouping.Groups.{Group}
use qiftop.Grouping.Groups.Content.{key_count}
use qiftop.Grouping.Tree.{is_flat}
use qiftop.Grouping.Proxy.Persist.{index_keys}

abbrev HasKey : Text → Option Group → Type 0
HasKey k none = ⊥
HasKey k (some g) = g.key ≡ k

-- The table has an index for each key of a group.
find-index_keys :
    (k : Text) (n : ℕ) (gs : List Group) (m : Map Text ℕ)
    → ((j : ℕ) × (find k (index_keys n gs m) ≡ some (n + j)) × HasKey k (get_elem? gs j))
      ⊎ ((key_count k gs ≡ 0) × (find k (index_keys n gs m) ≡ find k m))
unfolding index_keys key_count
find-index_keys k n [] m = inr (refl, refl)
find-index_keys k n (g ∷ gs) m = elim (find-index_keys k (n + 1) gs (put g.key n m)) [
  | inl (j, found, here) ↦ inl (suc j, ground (arith, found), here)
  | inr (absent, other) ↦ elim (Bool-cases (g.key == k)) [
    | inl hit ↦ inl (0, ground (arith, other, find-put k g.key n m), (==_iff g.key k).0 hit)
    | inr miss ↦ inr (ground (arith, absent), ground (arith, other, find-put k g.key n m))
  ]
]

pub key_count-get_elem? :
    (gs : List Group) (i : ℕ) (g : Group) → get_elem? gs i ≡ some g → 0 < key_count g.key gs
unfolding key_count
key_count-get_elem? [] i g h = cc
key_count-get_elem? (x ∷ gs) zero g h = ground (arith, ==_iff x.key g.key)
key_count-get_elem? (x ∷ gs) (suc i) g h = omega (arith, key_count-get_elem? gs i g h)

pub All-get_elem? :
    {A : Type 0} (P : A → Type 0) (xs : List A) (i : ℕ) (x : A)
    → get_elem? xs i ≡ some x
    → All P xs
    → P x
All-get_elem? P [] i x e h = cc
All-get_elem? P (y ∷ xs) zero x e h = subst P (cc) h.0
All-get_elem? P (y ∷ xs) (suc i) x e h = All-get_elem? P xs i x e h.1

is_empty-append : {A : Type 0} (xs ys : List A) (y : A) → is_empty (xs ++ y ∷ ys) ≡ false
is_empty-append [] ys y = refl
is_empty-append (x ∷ xs) ys y = refl

pub first_of :
    {A : Type 0} (xs : List A) → is_empty xs ≡ false → (x : A) × (get_elem? xs 0 ≡ some x)
first_of [] h = cc
first_of (x ∷ xs) h = (x, refl)

pub is_empty-group_key_for :
    (decimal : ℕ → Text) (mode : ViewMode) (c : Connection)
    → is_flat mode ≡ false
    → is_empty (group_key_for decimal mode c) ≡ false
unfolding group_key_for
is_empty-group_key_for decimal flat c h = cc
is_empty-group_key_for decimal by_interface c h = elim (Bool-cases (is_empty c.iface)) [
  | inl bare ↦ rw bare refl
  | inr named ↦ rw named named
]
is_empty-group_key_for decimal by_container c h = elim (Bool-cases (is_empty c.container.id)) [
  | inl bare ↦ elim (Bool-cases (is_empty c.container.name)) [
    | inl nameless ↦ rw (bare, nameless) refl
    | inr named ↦ rw (bare, named) (is_empty-append c.container.runtime c.container.name b'/')
  ]
  | inr known ↦ rw known (is_empty-append c.container.runtime c.container.id b'/')
]
is_empty-group_key_for decimal by_process c h = elim (Bool-cases (ltb 0 c.process.pid)) [
  | inl known ↦ rw known (is_empty-append (decimal c.process.pid) c.process.comm b'/')
  | inr unknown ↦ rw unknown refl
]

HasKey-some : (k : Text) (o : Option Group) → HasKey k o → (g : Group) × (o ≡ some g) × (g.key ≡ k)
HasKey-some k none h = elim h [ ]
HasKey-some k (some g) h = (g, refl, h)

-- The table of the groups that are sorted has an index for each key of the groups as they were.
pub find_known :
    (k : Text) (gs : List Group)
    → 0 < key_count k gs
    → (j : ℕ) × (g : Group) × (find k (index_keys 0 gs []) ≡ some j)
      × (get_elem? gs j ≡ some g)
      × (g.key ≡ k)
find_known k gs h = elim (find-index_keys k 0 gs []) [
  | inl (j, found, here) ↦
      let (g, at, same) = HasKey-some k (get_elem? gs j) here in
      (j, g, ground (arith, found), at, same)
  | inr (absent, other) ↦ absurd (omega arith)
]
