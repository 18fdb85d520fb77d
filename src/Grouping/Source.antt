-- ===== src/Grouping/Source.antt =====
-- What a source model does to its rows, as it announces it: insertions, removals and changes of
-- neighbouring rows.
use qiftop.Common.{
  ℕ, zero, suc, ◌+◌, ◌-◌, ◌≤◌, ◌<◌, ◌≡◌, ◌⊎◌, refl, sym, ◌∙◌, ap, inl, inr, List, [], ◌∷◌, ◌++◌,
  arith, nat_eq, length, length-append, length-drop, get_elem?, drop,
}
use qiftop.Grouping.Groups.{shifted_up}

lower :
    (first n r : ℕ) → (suc r < suc first) ⊎ (suc first + n ≤ suc r) → (r < first) ⊎ (first + n ≤ r)
lower first n r (inl below) = inl (omega arith)
lower first n r (inr above) = inr (omega arith)

shifted_up-suc : (first n r : ℕ) → shifted_up (suc first) n (suc r) ≡ suc (shifted_up first n r)
shifted_up-suc first n r = ground arith

get_at : {A : Type 0} (i j : ℕ) (xs : List A) → i ≡ j → get_elem? xs i ≡ get_elem? xs j
get_at i j xs e = ap (get_elem? xs) e

module _ {A : Type 0} where
  unfoldable pub insert_rows : ℕ → List A → List A → List A
  insert_rows zero new src = new ++ src
  insert_rows (suc first) new [] = new
  insert_rows (suc first) new (x ∷ src) = x ∷ insert_rows first new src

  unfoldable pub drop_rows : ℕ → ℕ → List A → List A
  drop_rows zero n src = drop n src
  drop_rows (suc first) n [] = []
  drop_rows (suc first) n (x ∷ src) = x ∷ drop_rows first n src

  unfoldable pub change_rows : ℕ → List A → List A → List A
  change_rows zero new src = new ++ drop (length new) src
  change_rows (suc first) new [] = []
  change_rows (suc first) new (x ∷ src) = x ∷ change_rows first new src

  get_elem?_after : (xs ys : List A) (r : ℕ) → get_elem? (xs ++ ys) (length xs + r) ≡ get_elem? ys r
  get_elem?_after [] ys r = ap (get_elem? ys) (omega arith)
  get_elem?_after (x ∷ xs) ys r =
      get_at (suc (length xs) + r) (suc (length xs + r)) (x ∷ (xs ++ ys)) (omega arith)
      ∙ get_elem?_after xs ys r

  get_elem?-drop : (n : ℕ) (xs : List A) (r : ℕ) → get_elem? (drop n xs) r ≡ get_elem? xs (n + r)
  get_elem?-drop zero xs r = ap (get_elem? xs) (omega arith)
  get_elem?-drop (suc n) [] r = refl
  get_elem?-drop (suc n) (x ∷ xs) r =
      get_elem?-drop n xs r ∙ get_at (suc (n + r)) (suc n + r) (x ∷ xs) (omega arith)

  pub length-insert_rows :
      (first : ℕ) (new src : List A) → length (insert_rows first new src) ≡ length src + length new
  unfolding insert_rows
  length-insert_rows zero new src = omega (arith, length-append new src)
  length-insert_rows (suc first) new [] = omega arith
  length-insert_rows (suc first) new (x ∷ src) = omega (arith, length-insert_rows first new src)

  pub get_elem?-insert_rows :
      (first : ℕ) (new src : List A) (r : ℕ)
      → first ≤ length src
      → get_elem? (insert_rows first new src) (shifted_up first (length new) r) ≡ get_elem? src r
  unfolding insert_rows
  get_elem?-insert_rows zero new src r h =
      get_at (shifted_up zero (length new) r) (length new + r) (new ++ src) (ground arith)
      ∙ get_elem?_after new src r
  get_elem?-insert_rows (suc first) new [] r h = absurd (omega arith)
  get_elem?-insert_rows (suc first) new (x ∷ src) zero h =
      get_at (shifted_up (suc first) (length new) zero) (zero) (x ∷ insert_rows first new src)
        (ground arith)
  get_elem?-insert_rows (suc first) new (x ∷ src) (suc r) h =
      get_at (shifted_up (suc first) (length new) (suc r)) (suc (shifted_up first (length new) r))
        (x ∷ insert_rows first new src) (shifted_up-suc first (length new) r)
      ∙ get_elem?-insert_rows first new src r (omega arith)

  pub length-drop_rows :
      (first n : ℕ) (src : List A)
      → first + n ≤ length src
      → length (drop_rows first n src) + n ≡ length src
  unfolding drop_rows
  length-drop_rows zero n src h = omega (arith, length-drop n src)
  length-drop_rows (suc first) n [] h = absurd (omega arith)
  length-drop_rows (suc first) n (x ∷ src) h =
      omega (arith, length-drop_rows first n src (omega arith))

  pub get_elem?-drop_rows_before :
      (first n : ℕ) (src : List A) (r : ℕ)
      → r < first
      → get_elem? (drop_rows first n src) r ≡ get_elem? src r
  unfolding drop_rows
  get_elem?-drop_rows_before zero n src r h = absurd (omega arith)
  get_elem?-drop_rows_before (suc first) n [] r h = refl
  get_elem?-drop_rows_before (suc first) n (x ∷ src) zero h = refl
  get_elem?-drop_rows_before (suc first) n (x ∷ src) (suc r) h =
      get_elem?-drop_rows_before first n src r (omega arith)

  pub get_elem?-drop_rows_after :
      (first n : ℕ) (src : List A) (r : ℕ)
      → first ≤ r
      → get_elem? (drop_rows first n src) r ≡ get_elem? src (r + n)
  unfolding drop_rows
  get_elem?-drop_rows_after zero n src r h =
      get_elem?-drop n src r ∙ ap (get_elem? src) (omega arith)
  get_elem?-drop_rows_after (suc first) n [] r h = refl
  get_elem?-drop_rows_after (suc first) n (x ∷ src) zero h = absurd (omega arith)
  get_elem?-drop_rows_after (suc first) n (x ∷ src) (suc r) h =
      get_elem?-drop_rows_after first n src r (omega arith)
      ∙ get_at (suc (r + n)) (suc r + n) (x ∷ src) (omega arith)

  pub length-change_rows :
      (first : ℕ) (new src : List A)
      → first + length new ≤ length src
      → length (change_rows first new src) ≡ length src
  unfolding change_rows
  length-change_rows zero new src h =
      omega (arith, length-append new (drop (length new) src), length-drop (length new) src)
  length-change_rows (suc first) new [] h = absurd (omega arith)
  length-change_rows (suc first) new (x ∷ src) h =
      omega (arith, length-change_rows first new src (omega arith))

  pub get_elem?-change_rows :
      (first : ℕ) (new src : List A) (r : ℕ)
      → (r < first) ⊎ (first + length new ≤ r)
      → get_elem? (change_rows first new src) r ≡ get_elem? src r
  unfolding change_rows
  get_elem?-change_rows zero new src r h =
      let e : length new + (r - length new) ≡ r = omega arith in
      ap (get_elem? (new ++ drop (length new) src)) (sym e)
      ∙ get_elem?_after new (drop (length new) src) (r - length new)
      ∙ get_elem?-drop (length new) src (r - length new)
      ∙ ap (get_elem? src) e
  get_elem?-change_rows (suc first) new [] r h = refl
  get_elem?-change_rows (suc first) new (x ∷ src) zero h = refl
  get_elem?-change_rows (suc first) new (x ∷ src) (suc r) h =
      get_elem?-change_rows first new src r (lower first (length new) r h)
