-- ===== src/Aggregate/Update/PatchRows.antt =====
-- The rows after a patch of attributions, flow by flow.
use qiftop.Common.{
  ℕ, ◌-◌, ◌≡◌, refl, sym, ◌∙◌, ap, inl, inr, Bool, true, false, List, [], ◌∷◌, Option, none, some,
  arith, if◌then◌else◌, ◌==◌, ==_iff, list_eq, nat_eq, Bool-cases,
}
use qiftop.Containers.Map.{Map, find, Unique}
use qiftop.Flow.Types.{Text, Connection, process_eq, container_eq}
use qiftop.Flow.Key.{KeyText, connection_key}
use qiftop.Aggregate.Real.{Real}
use qiftop.Aggregate.Rows.{Row}
use qiftop.Aggregate.Rows.Lookup.{by_key, position, none-position}
use qiftop.Aggregate.Update.{Aggregator, patch, patch_at, patch_rows, apply_attribution_patch}
use qiftop.Aggregate.Update.Rows.{IsSound}
use qiftop.Aggregate.Update.Patch.{
  patch_row, row_key-patch_row, map_option, position-modify, find-modify, Unique-modify,
}

-- A flow after the patches for its key, in their order.
pub patches : KeyText → Text → List Connection → Connection → Connection
patches q k [] c = c
patches q k (p ∷ ps) c = patches q k ps (if connection_key q p == k then (patch p c).0 else c)

module _ {Num : Type 0} (q : KeyText) where
  abbrev pub patched : Text → List Connection → Row Num → Row Num
  patched k ps r = record r { current = patches q k ps r.current }

  abbrev Indexes : Map Text ℕ → List (Row Num) → Type 0
  Indexes key_to_idx rows = (k : Text) → find k key_to_idx ≡ position q k 0 rows

  patch_at-position :
      (p : Connection) (x : Option ℕ) (rows : List (Row Num)) (k : Text)
      → position q k 0 (patch_at p x rows).0 ≡ position q k 0 rows
  unfolding patch_at
  patch_at-position p none rows k = refl
  patch_at-position p (some i) rows k =
      position-modify q (patch_row q p) (row_key-patch_row q p) k 0 i rows

  patch_at-rows :
      (p : Connection) (x : Option ℕ) (rows : List (Row Num)) (j : Text)
      → position q (connection_key q p) 0 rows ≡ x
      → find j (by_key q (patch_at p x rows).0) ≡ (
          if connection_key q p == j
          then map_option q (patch_row q p) (find j (by_key q rows))
          else find j (by_key q rows))
  unfolding patch_at
  patch_at-rows p none rows j h = elim (Bool-cases (connection_key q p == j)) [
    | inl hit ↦
        let same = (==_iff (connection_key q p) j).0 hit in
        rw (hit, none-position q j 0 rows (rw same at h)) refl
    | inr miss ↦ rw miss refl
  ]
  patch_at-rows p (some i) rows j h =
      let offset : i - 0 ≡ i = omega arith in
      let found =
        find-modify q (patch_row q p) (row_key-patch_row q p) j (connection_key q p) 0 i rows h in
      rw offset at found

  patch_at-Unique :
      (p : Connection) (x : Option ℕ) (rows : List (Row Num))
      → Unique (by_key q rows)
      → Unique (by_key q (patch_at p x rows).0)
  unfolding patch_at
  patch_at-Unique p none rows u = u
  patch_at-Unique p (some i) rows u =
      Unique-modify q (patch_row q p) (row_key-patch_row q p) i rows u

  patch_rows-Unique :
      (key_to_idx : Map Text ℕ) (ps : List Connection) (rows : List (Row Num))
      → Unique (by_key q rows)
      → Unique (by_key q (patch_rows q key_to_idx ps rows).0)
  unfolding patch_rows
  patch_rows-Unique key_to_idx [] rows u = u
  patch_rows-Unique key_to_idx (p ∷ ps) rows u =
      patch_rows-Unique key_to_idx ps _
        (patch_at-Unique p (find (connection_key q p) key_to_idx) rows u)

  patches-map_option :
      (p : Connection) (ps : List Connection) (k : Text) (b : Bool) (x : Option (Row Num))
      → map_option q (patched k ps) (if b then map_option q (patch_row q p) x else x)
        ≡ map_option q
            (λ r. record r {
              current = patches q k ps (if b then (patch p r.current).0 else r.current);
            })
            x
  patches-map_option p ps k true none = refl
  patches-map_option p ps k true (some r) = refl
  patches-map_option p ps k false none = refl
  patches-map_option p ps k false (some r) = refl

  patch_rows-rows :
      (key_to_idx : Map Text ℕ) (ps : List Connection) (rows : List (Row Num))
      → Indexes key_to_idx rows
      → Indexes key_to_idx (patch_rows q key_to_idx ps rows).0
        × ((k : Text)
            → find k (by_key q (patch_rows q key_to_idx ps rows).0)
              ≡ map_option q (patched k ps) (find k (by_key q rows)))
  unfolding patch_rows patches
  patch_rows-rows key_to_idx [] rows ix = (ix, λ k. same_rows (find k (by_key q rows)))
    where
      same_rows :
          (x : Option (Row Num)) → x ≡ map_option q (λ r. record r { current = r.current }) x
      same_rows none = refl
      same_rows (some r) = refl
  patch_rows-rows key_to_idx (p ∷ ps) rows ix =
      let x = find (connection_key q p) key_to_idx in
      let later =
        patch_rows-rows key_to_idx ps (patch_at p x rows).0
          (λ k. ix k ∙ sym (patch_at-position p x rows k)) in
      (
        later.0,
        λ k.
            later.1 k
            ∙ ap (map_option q (patched k ps))
                (patch_at-rows p x rows k (sym (ix (connection_key q p))))
            ∙ patches-map_option p ps k (connection_key q p == k) (find k (by_key q rows)),
      )

  -- If rows have distinct keys and the index gives their positions, this is so again after a
  -- patch, which reaches each row by its key, in the order of the patch's entries, and changes no
  -- other row.
  pub apply_attribution_patch-rows :
      (d : Real Num) (ps : List Connection) (a : Aggregator Num)
      → IsSound d q a
      → let a' = (apply_attribution_patch q ps a).0 in
        IsSound d q a'
        × ((k : Text)
            → find k (by_key q a'.rows) ≡ map_option q (patched k ps) (find k (by_key q a.rows)))
  unfolding apply_attribution_patch
  apply_attribution_patch-rows d ps a s =
      let after = patch_rows-rows a.key_to_idx ps a.rows s.indexed in
      (
        record { unique = patch_rows-Unique a.key_to_idx ps a.rows s.unique; indexed = after.0 },
        after.1,
      )
