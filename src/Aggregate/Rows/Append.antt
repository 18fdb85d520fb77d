-- ===== src/Aggregate/Rows/Append.antt =====
-- The rows under their keys, and their index, when rows are appended.
use qiftop.Common.{
  ℕ, ◌+◌, ◌≡◌, ◌≢◌, refl, sym, ◌∙◌, ap, inl, inr, Bool, true, false, not, List, [], ◌∷◌, ◌++◌,
  Option, none, some, arith, if◌then◌else◌, ◌==◌, ==_iff, list_eq, nat_eq, Bool-cases, ==_refl,
  keep, length,
}
use qiftop.Containers.Map.{Map, find, contains, put, Unique, find-put}
use qiftop.Flow.Types.{Text, Connection}
use qiftop.Flow.Key.{KeyText, connection_key}
use qiftop.Aggregate.Real.{Real}
use qiftop.Aggregate.Rows.{Row, row_key, new_row, additions, append_rows}
use qiftop.Aggregate.Rows.Lookup.{IsKeyed, or_else, by_key, position, position-none, or_else-none}

-- The values of a map, in order.
abbrev pub values : Map Text Connection → List Connection
values [] = []
values ((k, c) ∷ m) = c ∷ values m

abbrev pub is_new : Map Text ℕ → Text × Connection → Bool
is_new key_to_idx e = not (contains e.0 key_to_idx)

pub additions-keep :
    (key_to_idx : Map Text ℕ) (incoming : Map Text Connection)
    → additions key_to_idx incoming ≡ values (keep (is_new key_to_idx) incoming)
unfolding additions
additions-keep key_to_idx [] = refl
additions-keep key_to_idx ((k, c) ∷ m) = ground (arith, additions-keep key_to_idx m)

pub some≢none : {A : Type 0} {x : A} → some x ≢ none
some≢none e = cc

module _ {Num : Type 0} (d : Real Num) (q : KeyText) (now : ℕ) where
  -- The index gives the position of each key.
  abbrev pub IsIndexed : List (Row Num) → Map Text ℕ → Type 0
  IsIndexed rows key_to_idx = (k : Text) → find k key_to_idx ≡ position q k 0 rows

  abbrev pub Disjoint : List (Row Num) → Map Text Connection → Type 0
  Disjoint rows m = (k : Text) (c : Connection) → find k m ≡ some c → find k (by_key q rows) ≡ none

  find-append :
      (k : Text) (rows : List (Row Num)) (r : Row Num)
      → find k (by_key q (rows ++ r ∷ []))
        ≡ or_else (find k (by_key q rows)) (if row_key q r == k then some r else none)
  unfolding find
  find-append k [] r = refl
  find-append k (x ∷ rows) r = ground (arith, find-append k rows r)

  Unique-append :
      (rows : List (Row Num)) (r : Row Num)
      → Unique (by_key q rows)
      → find (row_key q r) (by_key q rows) ≡ none
      → Unique (by_key q (rows ++ r ∷ []))
  unfolding find
  Unique-append [] r u h = (refl, tt)
  Unique-append (x ∷ rows) r u h = elim (Bool-cases (row_key q x == row_key q r)) [
    | inl hit ↦ absurd (some≢none (rw hit at h))
    | inr miss ↦
        let apart : (row_key q r == row_key q x) ≡ false =
          ground (arith, ==_iff (row_key q x) (row_key q r), ==_iff (row_key q r) (row_key q x)) in
        (
          find-append (row_key q x) rows r ∙ rw (u.0, apart) refl,
          Unique-append rows r u.1 (rw miss at h),
        )
  ]

  position-append :
      (k : Text) (i : ℕ) (rows : List (Row Num)) (r : Row Num)
      → position q k i (rows ++ r ∷ [])
        ≡ or_else (position q k i rows) (if row_key q r == k then some (i + length rows) else none)
  unfolding position
  position-append k i [] r = ground arith
  position-append k i (x ∷ rows) r = ground (arith, position-append k (i + 1) rows r)

  -- What is added for a key.
  abbrev pub added : Option Connection → Option (Row Num)
  added none = none
  added (some c) = some (new_row d now c)

  pub record Appended (rows : List (Row Num)) (m : Map Text Connection)
      (result : List (Row Num) × Map Text ℕ) : Type 0 where
    pub rows_of :
        (k : Text)
        → find k (by_key q result.0) ≡ or_else (find k (by_key q rows)) (added (find k m))
    pub unique : Unique (by_key q result.0)
    pub indexed : IsIndexed result.0 result.1

  IsIndexed-append :
      (rows : List (Row Num)) (key_to_idx : Map Text ℕ) (c : Connection)
      → find (connection_key q c) (by_key q rows) ≡ none
      → IsIndexed rows key_to_idx
      → IsIndexed (rows ++ new_row d now c ∷ []) (put (connection_key q c) (length rows) key_to_idx)
  IsIndexed-append rows key_to_idx c h ix k =
      let put_there = find-put k (connection_key q c) (length rows) key_to_idx in
      let longer = position-append k 0 rows (new_row d now c) in
      elim (Bool-cases (connection_key q c == k)) [
        | inl hit ↦
            let same = (==_iff (connection_key q c) k).0 hit in
            let absent = position-none q k 0 rows (rw same at h) in
            let offset : 0 + length rows ≡ length rows = omega arith in
            (rw hit at put_there) ∙ sym (rw (hit, absent, offset) at longer)
        | inr miss ↦
            (rw miss at put_there)
            ∙ ix k
            ∙ sym (or_else-none (position q k 0 rows))
            ∙ sym (rw miss at longer)
      ]

  -- The first of the flows is appended.
  module _ (k : Text) (c : Connection) (m : Map Text Connection) (rows : List (Row Num))
      (same : connection_key q c ≡ k) (left : find k m ≡ none)
      (dis : Disjoint rows ((k, c) ∷ m)) where
    abbrev r : Row Num
    r = new_row d now c

    absent : find (connection_key q c) (by_key q rows) ≡ none
    absent = rw same (dis k c (unfold find in (rw (==_refl k) refl)))

    Disjoint-append : Disjoint (rows ++ r ∷ []) m
    Disjoint-append j x e = elim (Bool-cases (k == j)) [
      | inl hit ↦
          let both = ap (λ t. find t m) ((==_iff k j).0 hit) in
          absurd (some≢none (sym e ∙ sym both ∙ left))
      | inr miss ↦ rw (find-append j rows r, same, miss, dis j x (unfold find in (rw miss e))) refl
    ]

    Appended-cons :
        (result : List (Row Num) × Map Text ℕ)
        → Appended (rows ++ r ∷ []) m result
        → Appended rows ((k, c) ∷ m) result
    unfolding find
    Appended-cons result ih = record {
      rows_of = λ j.
          ih.rows_of j ∙ ap (λ x. or_else x (added (find j m))) (find-append j rows r) ∙ joined j;
      unique = ih.unique;
      indexed = ih.indexed;
    }
      where
        joined_by :
            (old : Option (Row Num)) (b : Bool) (rest : Option Connection)
            → or_else (or_else old (if b then some r else none)) (added rest)
              ≡ or_else old (added (if b then some c else rest))
        joined_by none true rest = refl
        joined_by none false rest = refl
        joined_by (some o) b rest = refl

        joined :
            (j : Text)
            → or_else
                (or_else
                  (find j (by_key q rows))
                  (if connection_key q c == j then some r else none))
                (added (find j m))
              ≡ or_else (find j (by_key q rows)) (added (if k == j then some c else find j m))
        joined j = rw same (joined_by (find j (by_key q rows)) (k == j) (find j m))

  pub append_rows-Appended :
      (m : Map Text Connection) (rows : List (Row Num)) (key_to_idx : Map Text ℕ)
      → IsKeyed q m
      → Unique m
      → Disjoint rows m
      → Unique (by_key q rows)
      → IsIndexed rows key_to_idx
      → Appended rows m (append_rows d q now rows key_to_idx (values m))
  unfolding append_rows find
  append_rows-Appended [] rows key_to_idx keyed um dis u ix = record {
    rows_of = λ k. sym (or_else-none _);
    unique = u;
    indexed = ix;
  }
  append_rows-Appended ((k, c) ∷ m) rows key_to_idx keyed um dis u ix =
      Appended-cons k c m rows keyed.0 um.0 dis _ (
        append_rows-Appended m _ _ keyed.1 um.1 (Disjoint-append k c m rows keyed.0 um.0 dis)
          (Unique-append rows _ u (absent k c m rows keyed.0 um.0 dis))
          (IsIndexed-append rows key_to_idx c (absent k c m rows keyed.0 um.0 dis) ix))
