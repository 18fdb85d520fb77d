-- ===== src/Grouping/Arg/Plain.antt =====
-- Markers behind a text that has none.
use qiftop.Common.{
  ℕ, zero, ◌≡◌, ◌≢◌, refl, ap, ◌∙◌, [], ◌∷◌, ◌++◌, Option, none, some, arith, nat_eq, All,
}
use qiftop.Flow.Types.{Text}
use qiftop.Flow.Wire.{utf16}
use qiftop.Grouping.Arg.{lowest, replace, fill, arg}

module _ (s : Text) where
  lowest-append : (t : Text) → All (λ c. c ≢ b'%') t → lowest (t ++ s) ≡ lowest s
  unfolding lowest
  lowest-append [] h = refl
  lowest-append (c ∷ t) h = ground (arith, lowest-append t)

  replace-append :
      (n : ℕ) (u t : Text)
      → All (λ c. c ≢ b'%') t
      → replace n u zero (t ++ s) ≡ t ++ replace n u zero s
  unfolding replace
  replace-append n u [] h = refl
  replace-append n u (c ∷ t) h = ground (arith, replace-append n u t)

  fill-append :
      (n : Option ℕ) (t u : Text) → All (λ c. c ≢ b'%') t → fill n (t ++ s) u ≡ t ++ fill n s u
  unfolding fill
  fill-append none t u h = refl
  fill-append (some n) t u h = replace-append n u t h

  -- A text without a percent sign stands as it is before what is filled in.
  pub arg-append : (t u : Text) → All (λ c. c ≢ b'%') t → arg (t ++ s) u ≡ t ++ arg s u
  unfolding arg
  arg-append t u h = rw (lowest-append t h) (fill-append (lowest s) t u h)

filled :
    (number : Text) → arg (utf16 "  [pid %2]") number ≡ utf16 "  [pid " ++ (number ++ utf16 "]")
unfolding arg
filled number = refl

-- The title of a process whose name has no percent sign.
pub pid_title :
    (name number : Text)
    → All (λ c. c ≢ b'%') name
    → arg (name ++ utf16 "  [pid %2]") number ≡ name ++ (utf16 "  [pid " ++ (number ++ utf16 "]"))
pid_title name number h =
    arg-append (utf16 "  [pid %2]") name number h ∙ ap (λ t. name ++ t) (filled number)
