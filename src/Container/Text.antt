-- ===== src/Container/Text.antt =====
-- The texts that the patterns of src/backend/linux/CgroupParse.h are made of.
use qiftop.Common.{
  ℕ, zero, suc, Bool, true, not, ◌&&◌, ◌||◌, List, [], ◌∷◌, ◌++◌, Option, none, some, leb,
  if◌then◌else◌, ◌==◌, nat_eq, list_eq,
}
use qiftop.Flow.Types.{Text, is_empty}

abbrev pub map_option {ℓ κ} : {A : Type ℓ} {B : Type κ} → (A → B) → Option A → Option B
map_option f none = none
map_option f (some x) = some (f x)

-- What follows a prefix.
unfoldable pub strip_prefix : Text → Text → Option Text
strip_prefix [] s = some s
strip_prefix (c ∷ cs) [] = none
strip_prefix (c ∷ cs) (x ∷ xs) = if c == x then strip_prefix cs xs else none

-- What stands before a suffix; `(.+)` takes the most that it can.
unfoldable pub strip_suffix : Text → Text → Option Text
strip_suffix suffix [] = if is_empty suffix then some [] else none
strip_suffix suffix (x ∷ xs) =
    let rest = map_option (◌∷◌ x) (strip_suffix suffix xs) in
    if (x ∷ xs) == suffix then some [] else rest

unfoldable pub all_of : (ℕ → Bool) → Text → Bool
all_of p [] = true
all_of p (x ∷ xs) = p x && all_of p xs

abbrev pub is_between : ℕ → ℕ → ℕ → Bool
is_between low high c = leb low c && leb c high

-- `[0-9a-f]`
abbrev pub is_hex : ℕ → Bool
is_hex c = is_between b'0' b'9' c || is_between b'a' b'f' c

-- `[0-9a-fA-F_-]`
abbrev pub is_pod_char : ℕ → Bool
is_pod_char c = is_hex c || is_between b'A' b'F' c || c == b'_' || c == b'-'

-- `[^/\s.]`, `[^/\s]`
abbrev pub is_space : ℕ → Bool
is_space c = c == 32 || is_between 9 13 c

abbrev pub is_name_char : ℕ → Bool
is_name_char c = not (c == b'/' || is_space c)

-- The longest start of a text that passes, of at most `n` characters.
unfoldable pub longest : (ℕ → Bool) → ℕ → Text → Text
longest p zero s = []
longest p (suc n) [] = []
longest p (suc n) (x ∷ xs) = if p x then x ∷ longest p n xs else []

-- QString::split(u'/', Qt::SkipEmptyParts): the part that is being read, and the rest.
unfoldable pub split_from : ℕ → Text → Text → List Text
split_from sep part [] = if is_empty part then [] else part ∷ []
split_from sep part (x ∷ xs) =
    let rest = split_from sep [] xs in
    let more = split_from sep (part ++ x ∷ []) xs in
    if x == sep then if is_empty part then rest else part ∷ rest else more

abbrev pub split : ℕ → Text → List Text
split sep s = split_from sep [] s
