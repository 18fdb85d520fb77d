-- ===== src/Containers/Map.antt =====
-- QHash with distinct keys, as an association list. The order of the list stands for the order
-- of iteration, which the source never relies on.
use qiftop.Common.{
  ◌+◌, ◌≤◌, ◌≡◌, refl, ap, ◌⊎◌, inl, inr, Bool, true, false, List, [], ◌∷◌, Option, none, some,
  arith, if◌then◌else◌, Eq, ◌==◌, ==_iff, Bool-cases, length, keep,
}

abbrev pub Map {ℓ κ} : Type ℓ → Type κ → Type (ℓ ⊔ κ)
Map K V = List (K × V)

module _ {ℓ κ} {K : Type ℓ} {V : Type κ} ⦃e : Eq K⦄ where
  -- `constFind`, with `none` for `constEnd()`.
  unfoldable pub find : K → Map K V → Option V
  find k [] = none
  find k ((j, v) ∷ m) = if j == k then some v else find k m

  unfoldable pub contains : K → Map K V → Bool
  contains k [] = false
  contains k ((j, v) ∷ m) = if j == k then true else contains k m

  -- `insert`: replaces the value of a key that is there.
  unfoldable pub put : K → V → Map K V → Map K V
  put k v [] = (k, v) ∷ []
  put k v ((j, w) ∷ m) = if j == k then (k, v) ∷ m else (j, w) ∷ put k v m

  unfoldable pub remove : K → Map K V → Map K V
  remove k [] = []
  remove k ((j, v) ∷ m) = if j == k then remove k m else (j, v) ∷ remove k m

  -- `m.value(k, d)`
  unfoldable pub find_or : V → K → Map K V → V
  find_or d k [] = d
  find_or d k ((j, v) ∷ m) = if j == k then v else find_or d k m

  abbrev pub Unique : Map K V → Type (ℓ ⊔ κ)
  Unique [] = Unit
  Unique ((k, v) ∷ m) = (find k m ≡ none) × Unique m

  pub find-put :
      (j k : K) (v : V) (m : Map K V) → find j (put k v m) ≡ (if k == j then some v else find j m)
  unfolding find put
  find-put j k v [] = refl
  find-put j k v ((i, w) ∷ m) = ground (arith, ==_iff k j, ==_iff i k, ==_iff i j, find-put j k v m)

  pub find-remove :
      (j k : K) (m : Map K V) → find j (remove k m) ≡ (if k == j then none else find j m)
  unfolding find remove
  find-remove j k [] = ground arith
  find-remove j k ((i, w) ∷ m) =
      ground (arith, ==_iff k j, ==_iff i k, ==_iff i j, find-remove j k m)

  pub find-contains :
      (k : K) (m : Map K V)
      → ((contains k m ≡ true) × ((v : V) × (find k m ≡ some v)))
        ⊎ ((contains k m ≡ false) × (find k m ≡ none))
  unfolding find contains
  find-contains k [] = inr (refl, refl)
  find-contains k ((j, v) ∷ m) = elim (Bool-cases (j == k)) [
    | inl hit ↦ inl (ground arith, (v, ground arith))
    | inr miss ↦ ground (arith, find-contains k m)
  ]

  pub length-put :
      (k : K) (v : V) (m : Map K V)
      → length (put k v m) ≡ (if contains k m then length m else length m + 1)
  unfolding put contains
  length-put k v [] = refl
  length-put k v ((j, w) ∷ m) = ground (arith, length-put k v m)

  pub length-remove-le : (k : K) (m : Map K V) → length (remove k m) ≤ length m
  unfolding remove
  length-remove-le k [] = omega arith
  length-remove-le k ((j, v) ∷ m) = ground (arith, length-remove-le k m)

  pub Unique-put : (k : K) (v : V) (m : Map K V) → Unique m → Unique (put k v m)
  unfolding put
  Unique-put k v [] u = (unfold find in refl, tt)
  Unique-put k v ((j, w) ∷ m) u = elim (Bool-cases (j == k)) [
    | inl hit ↦ rw (hit, ← (==_iff j k).0 hit) u
    | inr miss ↦ ground (arith, find-put j k v m, ==_iff j k, ==_iff k j, Unique-put k v m u.1)
  ]

  pub Unique-remove : (k : K) (m : Map K V) → Unique m → Unique (remove k m)
  unfolding remove
  Unique-remove k [] u = tt
  Unique-remove k ((j, w) ∷ m) u = ground (arith, find-remove j k m, Unique-remove k m u.1)

  pub remove-none : (k : K) (m : Map K V) → find k m ≡ none → remove k m ≡ m
  unfolding find remove
  remove-none k [] h = refl
  remove-none k ((j, w) ∷ m) h = ground (arith, remove-none k m)

  -- Exactly one entry goes when a key that is there is removed.
  pub length-remove :
      (k : K) (m : Map K V) {v : V}
      → Unique m
      → find k m ≡ some v
      → length (remove k m) + 1 ≡ length m
  unfolding find remove
  length-remove k [] u h = cc
  length-remove k ((j, w) ∷ m) u h = elim (Bool-cases (j == k)) [
    | inl hit ↦ rw hit (omega (arith, ap length (remove-none k m (rw ((==_iff j k).0 hit) at u.0))))
    | inr miss ↦ rw miss (omega (arith, length-remove k m u.1 (rw miss at h)))
  ]

  -- What remains of an entry when the entries that fail `p` are erased.
  abbrev pub passing : (K × V → Bool) → K → Option V → Option V
  passing p k none = none
  passing p k (some v) = if p (k, v) then some v else none

  pub find-keep-none :
      (p : K × V → Bool) (k : K) (m : Map K V) → find k m ≡ none → find k (keep p m) ≡ none
  unfolding find
  find-keep-none p k [] h = refl
  find-keep-none p k ((j, v) ∷ m) h = ground (arith, find-keep-none p k m)

  pub find-keep :
      (p : K × V → Bool) (k : K) (m : Map K V)
      → Unique m
      → find k (keep p m) ≡ passing p k (find k m)
  unfolding find
  find-keep p k [] u = refl
  find-keep p k ((j, v) ∷ m) u = elim (Bool-cases (j == k)) [
    | inl hit ↦
        let same = (==_iff j k).0 hit in
        ground (arith, find-keep-none p j m u.0, find-keep-none p k m)
    | inr miss ↦ ground (arith, find-keep p k m u.1)
  ]

  pub Unique-keep : (p : K × V → Bool) (m : Map K V) → Unique m → Unique (keep p m)
  Unique-keep p [] u = tt
  Unique-keep p ((j, v) ∷ m) u = ground (arith, find-keep-none p j m u.0, Unique-keep p m u.1)
