-- ===== src/Grouping/Arg.antt =====
-- QString::arg with one text, on UTF-16 units: it puts the text in the place of each occurrence of the
-- place marker with the lowest number.
pub mod Plain
use qiftop.Common.{
  ℕ, zero, suc, ◌+◌, ◌-◌, ◌*◌, min, Bool, true, false, ◌&&◌, List, [], ◌∷◌, ◌++◌, Option, none,
  some, leb, if◌then◌else◌, ◌==◌, nat_eq,
}
use qiftop.Flow.Types.{Text}

abbrev is_digit : ℕ → Bool
is_digit c = leb b'0' c && leb c b'9'

-- The digits of a marker: its number, and how many units they are.
pub marker_number : Text → Option (ℕ × ℕ)
marker_number [] = none
marker_number (c ∷ []) = if is_digit c then some (c - b'0', 1) else none
marker_number (c ∷ e ∷ s) =
    if is_digit c
    then if is_digit e then some ((c - b'0') * 10 + (e - b'0'), 2) else some (c - b'0', 1)
    else none

-- What follows `%`: perhaps an `L`, and one digit or two.
pub marker : Text → Option (ℕ × ℕ)
unfolding marker_number
marker [] = none
marker (c ∷ s) =
    let plain = marker_number (c ∷ s) in
    let localised : Option (ℕ × ℕ) = elim (marker_number s) [
      | none ↦ none
      | some (n, w) ↦ some (n, w + 1)
    ] in
    if c == b'L' then localised else plain

pub lowest : Text → Option ℕ
unfolding marker
lowest [] = none
lowest (c ∷ s) =
    let rest = lowest s in
    if c == b'%'
    then elim (marker s) [
      | none ↦ rest
      | some (n, w) ↦ elim rest [ none ↦ some n | some m ↦ some (min n m) ]
    ]
    else rest

-- The text with marker `n` replaced by `t`, after `skip` units that were read with the last marker.
pub replace : ℕ → Text → ℕ → Text → Text
unfolding marker
replace n t skip [] = []
replace n t (suc skip) (c ∷ s) = replace n t skip s
replace n t zero (c ∷ s) =
    let plain = c ∷ replace n t zero s in
    if c == b'%'
    then elim (marker s) [
      | none ↦ plain
      | some (m, w) ↦ let replaced = t ++ replace n t w s in if m == n then replaced else plain
    ]
    else plain

-- With the marker that was found, if there is one.
pub fill : Option ℕ → Text → Text → Text
unfolding replace
fill none s t = s
fill (some n) s t = replace n t 0 s

unfoldable pub arg : Text → Text → Text
unfolding lowest fill
arg s t = fill (lowest s) s t
