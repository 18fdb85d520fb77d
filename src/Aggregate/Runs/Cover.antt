-- ===== src/Aggregate/Runs/Cover.antt =====
-- The rows that the runs of RowUpdateRuns cover.
use qiftop.Common.{
  ℕ, zero, suc, ◌+◌, ◌-◌, ◌≤◌, ◌≡◌, ◌≢◌, refl, sym, ◌∙◌, ap, inl, inr, List, [], ◌∷◌, ◌++◌, some,
  arith, ◌==◌, nat_eq, Bool-cases, All, subst,
}
use qiftop.Aggregate.Runs.{Run, add_all, runs_of}

-- `n` numbers from `first` on.
pub count_from : ℕ → ℕ → List ℕ
count_from first zero = []
count_from first (suc n) = first ∷ count_from (first + 1) n

abbrev pub rows_of_run : Run → List ℕ
rows_of_run (first, last) = count_from first (last + 1 - first)

-- The rows of all the runs, in order.
abbrev pub rows_of_runs : List Run → List ℕ
rows_of_runs [] = []
rows_of_runs (r ∷ rs) = rows_of_run r ++ rows_of_runs rs

-- No run goes on where the one before it ends, and none is empty.
abbrev pub IsMaximal : List Run → Type 0
IsMaximal [] = Unit
IsMaximal (r ∷ []) = r.0 ≤ r.1
IsMaximal (r ∷ s ∷ rs) = (r.0 ≤ r.1) × (s.0 ≢ r.1 + 1) × IsMaximal (s ∷ rs)

count_from-append :
    (first n : ℕ) → count_from first (suc n) ≡ count_from first n ++ (first + n) ∷ []
unfolding count_from
count_from-append first zero = ground arith
count_from-append first (suc n) = ground (arith, count_from-append (first + 1) n)

append_assoc : (xs ys zs : List ℕ) → (xs ++ ys) ++ zs ≡ xs ++ (ys ++ zs)
append_assoc [] ys zs = refl
append_assoc (x ∷ xs) ys zs = ap (◌∷◌ x) (append_assoc xs ys zs)

rows_of_run-add :
    (first last : ℕ)
    → first ≤ last
    → rows_of_run (first, last + 1) ≡ rows_of_run (first, last) ++ (last + 1) ∷ []
rows_of_run-add first last h =
    let grown = count_from-append first (last + 1 - first) in ground (arith, grown)

rows_of_run-single : (row : ℕ) → rows_of_run (row, row) ≡ row ∷ []
unfolding count_from
rows_of_run-single row = let e : row + 1 - row ≡ 1 = omega arith in rw e

add_all-rows :
    (rows : List ℕ) (first last : ℕ)
    → first ≤ last
    → rows_of_runs (add_all (some (first, last)) rows) ≡ rows_of_run (first, last) ++ rows
unfolding add_all
add_all-rows [] first last h = refl
add_all-rows (row ∷ rows) first last h = elim (Bool-cases (row == last + 1)) [
  | inl next ↦ rw next (add_all-rows rows first row (ground arith) ∙ longer (ground arith))
  | inr apart ↦ rw apart (
      ap (λ t. rows_of_run (first, last) ++ t)
        (add_all-rows rows row row (omega arith) ∙ ap (λ t. t ++ rows) (rows_of_run-single row)))
]
  where
    longer :
        row ≡ last + 1 → rows_of_run (first, row) ++ rows ≡ rows_of_run (first, last) ++ row ∷ rows
    longer e = rw e (
        ap (λ t. t ++ rows) (rows_of_run-add first last h)
        ∙ append_assoc (rows_of_run (first, last)) ((last + 1) ∷ []) rows)

-- Maximal runs of which the first begins at `f`.
abbrev StartsAt : ℕ → List Run → Type 0
StartsAt f [] = ⊥
StartsAt f (r ∷ rs) = (r.0 ≡ f) × IsMaximal (r ∷ rs)

StartsAt-cons :
    (first last row : ℕ) (rs : List Run)
    → first ≤ last
    → row ≢ last + 1
    → StartsAt row rs
    → StartsAt first ((first, last) ∷ rs)
StartsAt-cons first last row [] h k s = absurd s
StartsAt-cons first last row (r ∷ rs) h k s = (refl, (h, (λ e. k (sym (s.0) ∙ e)), s.1))

add_all-StartsAt :
    (rows : List ℕ) (first last : ℕ)
    → first ≤ last
    → StartsAt first (add_all (some (first, last)) rows)
unfolding add_all
add_all-StartsAt [] first last h = (refl, h)
add_all-StartsAt (row ∷ rows) first last h = elim (Bool-cases (row == last + 1)) [
  | inl next ↦ rw next (add_all-StartsAt rows first row (ground arith))
  | inr apart ↦ rw apart (
      StartsAt-cons first last row _ h (ground arith) (add_all-StartsAt rows row row (omega arith)))
]

StartsAt-IsMaximal : (f : ℕ) (rs : List Run) → StartsAt f rs → IsMaximal rs
StartsAt-IsMaximal f [] s = absurd s
StartsAt-IsMaximal f (r ∷ rs) s = s.1

-- The runs that are sent cover just the rows that were added, in their order, and no two
-- neighbours among them could have been sent as one.
pub runs_of-rows : (rows : List ℕ) → (rows_of_runs (runs_of rows) ≡ rows) × IsMaximal (runs_of rows)
unfolding runs_of
runs_of-rows [] = (refl, tt)
runs_of-rows (row ∷ rows) = (
  add_all-rows rows row row (omega arith) ∙ ap (λ t. t ++ rows) (rows_of_run-single row),
  StartsAt-IsMaximal row _ (add_all-StartsAt rows row row (omega arith)),
)

last-count_from : (P : ℕ → Type 0) (first n : ℕ) → All P (count_from first (suc n)) → P (first + n)
unfolding count_from
last-count_from P first zero h = let e : first + 0 ≡ first = omega arith in rw e h.0
last-count_from P first (suc n) h =
    let e : first + suc n ≡ first + 1 + n = omega arith in
    rw e (last-count_from P (first + 1) n h.1)

-- What holds of the rows of a run holds of its last.
pub last-rows_of_run :
    (P : ℕ → Type 0) (first last : ℕ) → first ≤ last → All P (rows_of_run (first, last)) → P last
last-rows_of_run P first last h a =
    let n : last + 1 - first ≡ suc (last - first) = omega arith in
    let e : first + (last - first) ≡ last = omega arith in
    subst P e (last-count_from P first (last - first) (subst (λ t. All P (count_from first t)) n a))

pub tail-IsMaximal : (r : Run) (rs : List Run) → IsMaximal (r ∷ rs) → (r.0 ≤ r.1) × IsMaximal rs
tail-IsMaximal r [] h = (h, tt)
tail-IsMaximal r (s ∷ rs) h = (h.0, h.2)
