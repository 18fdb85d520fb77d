-- ===== src/Aggregate/Rows/Lookup.antt =====
-- The rows under their keys, through the loops of updateConnections.
use qiftop.Common.{
  ℕ, ◌+◌, ◌≡◌, refl, ◌∙◌, ap, inl, inr, Bool, not, List, [], ◌∷◌, Option, none, some, arith,
  if◌then◌else◌, ◌==◌, ==_iff, list_eq, nat_eq, Bool-cases, keep,
}
use qiftop.Containers.Map.{Map, find, put, Unique, find-put, find-keep, Unique-keep, passing}
use qiftop.Flow.Types.{Text, Connection}
use qiftop.Flow.Key.{KeyText, connection_key}
use qiftop.Aggregate.Real.{Real}
use qiftop.Aggregate.Rows.{
  Row, Settings, row_key, refresh_row, mark_stale, update_row, update_rows, is_overdue, prune_rows,
  index_rows,
}

-- Every value stands under its own key.
abbrev pub IsKeyed : KeyText → Map Text Connection → Type 0
IsKeyed q [] = Unit
IsKeyed q ((k, c) ∷ m) = (connection_key q c ≡ k) × IsKeyed q m

abbrev pub or_else {ℓ} : {A : Type ℓ} → Option A → Option A → Option A
or_else none b = b
or_else (some x) b = some x

pub or_else-none {ℓ} : {A : Type ℓ} (x : Option A) → or_else x none ≡ x
or_else-none none = refl
or_else-none (some x) = refl

module _ {Num : Type 0} (q : KeyText) where
  abbrev pub by_key : List (Row Num) → Map Text (Row Num)
  by_key [] = []
  by_key (r ∷ rs) = (row_key q r, r) ∷ by_key rs

  -- The index of the row with a key, counted from `i`.
  unfoldable pub position : Text → ℕ → List (Row Num) → Option ℕ
  position k i [] = none
  position k i (r ∷ rs) = if row_key q r == k then some i else position k (i + 1) rs

  pub position-none :
      (k : Text) (i : ℕ) (rs : List (Row Num)) → find k (by_key rs) ≡ none → position k i rs ≡ none
  unfolding position find
  position-none k i [] h = refl
  position-none k i (r ∷ rs) h = ground (arith, position-none k (i + 1) rs)

  pub none-position :
      (k : Text) (i : ℕ) (rs : List (Row Num)) → position k i rs ≡ none → find k (by_key rs) ≡ none
  unfolding position find
  none-position k i [] h = refl
  none-position k i (r ∷ rs) h = ground (arith, none-position k (i + 1) rs)

  -- The index over rows of distinct keys.
  pub find-index_rows :
      (k : Text) (i : ℕ) (rs : List (Row Num)) (m : Map Text ℕ)
      → Unique (by_key rs)
      → find k (index_rows q i rs m) ≡ or_else (position k i rs) (find k m)
  unfolding index_rows position
  find-index_rows k i [] m u = refl
  find-index_rows k i (r ∷ rs) m u =
      let ih = find-index_rows k (i + 1) rs (put (row_key q r) i m) u.1 in
      let there = find-put k (row_key q r) i m in
      elim (Bool-cases (row_key q r == k)) [
        | inl hit ↦
            let same : row_key q r ≡ k = (==_iff (row_key q r) k).0 hit in
            let none_left = position-none k (i + 1) rs (rw same at u.0) in
            rw hit ((rw none_left at ih) ∙ (rw hit at there))
        | inr miss ↦ rw miss (ih ∙ ap (or_else (position k (i + 1) rs)) (rw miss at there))
      ]

  -- The row that a row becomes, by what its key is mapped to in the snapshot.
  module _ (d : Real Num) (cfg : Settings) (now delta_ms : ℕ)
      (prev incoming : Map Text Connection) where
    abbrev pub updated : Text → Option (Row Num) → Option (Row Num)
    updated k none = none
    updated k (some r) = some (update_row d cfg now delta_ms prev k (find k incoming) r).0

    module _ (keyed : IsKeyed q incoming) where
      find-IsKeyed :
          (k : Text) (c : Connection) (m : Map Text Connection)
          → IsKeyed q m
          → find k m ≡ some c
          → connection_key q c ≡ k
      unfolding find
      find-IsKeyed k c [] h e = cc
      find-IsKeyed k c ((j, x) ∷ m) h e = elim (Bool-cases (j == k)) [
        | inl hit ↦ let same = (==_iff j k).0 hit in ground (arith, h.0)
        | inr miss ↦ find-IsKeyed k c m h.1 (rw miss at e)
      ]

      row_key-update_row :
          (r : Row Num) (x : Option Connection)
          → find (row_key q r) incoming ≡ x
          → row_key q (update_row d cfg now delta_ms prev (row_key q r) x r).0 ≡ row_key q r
      unfolding update_row refresh_row mark_stale
      row_key-update_row r none h = ground arith
      row_key-update_row r (some c) h = find-IsKeyed (row_key q r) c incoming keyed h

      pub find-update_rows :
          (k : Text) (i : ℕ) (rs : List (Row Num))
          → find k (by_key (update_rows d q cfg now delta_ms prev incoming i rs).0)
            ≡ updated k (find k (by_key rs))
      unfolding update_rows find
      find-update_rows k i [] = refl
      find-update_rows k i (r ∷ rs) = elim (Bool-cases (row_key q r == k)) [
        | inl hit ↦
            let same = (==_iff (row_key q r) k).0 hit in
            rw (row_key-update_row r (find (row_key q r) incoming) refl, hit, same) refl
        | inr miss ↦
            rw (row_key-update_row r (find (row_key q r) incoming) refl, miss)
              (find-update_rows k (i + 1) rs)
      ]

      pub Unique-update_rows :
          (i : ℕ) (rs : List (Row Num))
          → Unique (by_key rs)
          → Unique (by_key (update_rows d q cfg now delta_ms prev incoming i rs).0)
      unfolding update_rows
      Unique-update_rows i [] u = tt
      Unique-update_rows i (r ∷ rs) u =
          let same = row_key-update_row r (find (row_key q r) incoming) refl in
          (
            rw same (find-update_rows (row_key q r) (i + 1) rs ∙ ap (updated (row_key q r)) u.0),
            Unique-update_rows (i + 1) rs u.1,
          )

  module _ (cfg : Settings) (now : ℕ) where
    abbrev pub survives : Row Num → Bool
    survives r = not (is_overdue cfg now r)

    pub prune_rows-keep :
        (i : ℕ) (rs : List (Row Num)) → (prune_rows cfg now i rs).0 ≡ keep survives rs
    unfolding prune_rows
    prune_rows-keep i [] = refl
    prune_rows-keep i (r ∷ rs) = ground (arith, prune_rows-keep (i + 1) rs)

    by_key-keep :
        (rs : List (Row Num)) → by_key (keep survives rs) ≡ keep (λ e. survives e.1) (by_key rs)
    by_key-keep [] = refl
    by_key-keep (r ∷ rs) = ground (arith, by_key-keep rs)

    pub find-prune_rows :
        (k : Text) (i : ℕ) (rs : List (Row Num))
        → Unique (by_key rs)
        → find k (by_key (prune_rows cfg now i rs).0)
          ≡ passing (λ e. survives e.1) k (find k (by_key rs))
    find-prune_rows k i rs u =
        rw (prune_rows-keep i rs, by_key-keep rs) (find-keep (λ e. survives e.1) k (by_key rs) u)

    pub Unique-prune_rows :
        (i : ℕ) (rs : List (Row Num))
        → Unique (by_key rs)
        → Unique (by_key (prune_rows cfg now i rs).0)
    Unique-prune_rows i rs u =
        rw (prune_rows-keep i rs, by_key-keep rs) (Unique-keep (λ e. survives e.1) (by_key rs) u)
