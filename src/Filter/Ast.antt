-- ===== src/Filter/Ast.antt =====
-- src/util/ConnectionFilter.cpp: fields, operators and expressions, the field table, and the
-- numeric literals. An ExprPtr may be null, which is a constructor here.
use qiftop.Common.{
  ℕ, ◌-◌, Bool, true, false, List, [], ◌∷◌, Option, none, some, if◌then◌else◌, ◌==◌, nat_eq,
  list_eq, length, take,
}
use qiftop.Flow.Types.{Text, is_empty}
use qiftop.Flow.Wire.{utf16}
use qiftop.Filter.Qt.{Qt}

pub data Field : Type 0 where
  proto src dst host sport dport port iface family direction : Field
  bytes_in bytes_out bytes pkts_in pkts_out pkts rate_in rate_out rate : Field
  pid uid comm runtime container chain_has reason : Field

pub data Op : Type 0 where
  contains equals not_equals regex lt le gt ge : Op

pub record Predicate (Num Rx : Type 0) : Type 0 where
  pub field : Field
  pub op : Op
  pub text_value : Text
  -- `numValue` where `hasNumeric` is set
  pub num_value : Option Num
  pub rx : Rx

pub data ExprPtr (Num Rx : Type 0) : Type 0 where
  null : ExprPtr Num Rx
  predicate : Predicate Num Rx → ExprPtr Num Rx
  not_expr : ExprPtr Num Rx → ExprPtr Num Rx
  and_expr : ExprPtr Num Rx → ExprPtr Num Rx → ExprPtr Num Rx
  or_expr : ExprPtr Num Rx → ExprPtr Num Rx → ExprPtr Num Rx

pub record FieldInfo : Type 0 where
  pub name : Text
  pub field : Field
  pub is_numeric : Bool

abbrev entry : Text → Field → Bool → FieldInfo
entry n f b = record { name = n; field = f; is_numeric = b }

abbrev pub field_table : List FieldInfo
field_table =
    entry (utf16 "proto") proto false
    ∷ entry (utf16 "src") src false
    ∷ entry (utf16 "dst") dst false
    ∷ entry (utf16 "host") host false
    ∷ entry (utf16 "iface") iface false
    ∷ entry (utf16 "family") family false
    ∷ entry (utf16 "direction") direction false
    ∷ entry (utf16 "sport") sport true
    ∷ entry (utf16 "dport") dport true
    ∷ entry (utf16 "port") port true
    ∷ entry (utf16 "bytes_in") bytes_in true
    ∷ entry (utf16 "bytes_out") bytes_out true
    ∷ entry (utf16 "bytes") bytes true
    ∷ entry (utf16 "pkts_in") pkts_in true
    ∷ entry (utf16 "pkts_out") pkts_out true
    ∷ entry (utf16 "pkts") pkts true
    ∷ entry (utf16 "rate_in") rate_in true
    ∷ entry (utf16 "rate_out") rate_out true
    ∷ entry (utf16 "rate") rate true
    ∷ entry (utf16 "pid") pid true
    ∷ entry (utf16 "uid") uid true
    ∷ entry (utf16 "comm") comm false
    ∷ entry (utf16 "runtime") runtime false
    ∷ entry (utf16 "container") container false
    ∷ entry (utf16 "chain_has") chain_has false
    ∷ entry (utf16 "reason") reason false
    ∷ []

unfoldable pub lookup_field : Text → List FieldInfo → Option FieldInfo
lookup_field name [] = none
lookup_field name (e ∷ es) = if e.name == name then some e else lookup_field name es

-- The byte suffixes, longer ones first.
abbrev pub suffixes : List (Text × ℕ)
suffixes =
    (utf16 "KiB", 1024)
    ∷ (utf16 "MiB", 1048576)
    ∷ (utf16 "GiB", 1073741824)
    ∷ (utf16 "TiB", 1099511627776)
    ∷ (utf16 "Ki", 1024)
    ∷ (utf16 "Mi", 1048576)
    ∷ (utf16 "Gi", 1073741824)
    ∷ (utf16 "Ti", 1099511627776)
    ∷ (utf16 "KB", 1000)
    ∷ (utf16 "MB", 1000000)
    ∷ (utf16 "GB", 1000000000)
    ∷ (utf16 "TB", 1000000000000)
    ∷ (utf16 "K", 1000)
    ∷ (utf16 "M", 1000000)
    ∷ (utf16 "G", 1000000000)
    ∷ (utf16 "T", 1000000000000)
    ∷ (utf16 "B", 1)
    ∷ []

-- QString::chop
abbrev pub chop : Text → ℕ → Text
chop s n = take (length s - n) s

module _ {Num Rx : Type 0} (q : Qt Num Rx) where
  -- The loop over the suffixes: the rest of the text, and the multiplier.
  pub strip_suffix : Text → List (Text × ℕ) → Text × ℕ
  strip_suffix s [] = (s, 1)
  strip_suffix s ((suffix, m) ∷ more) =
      if q.ends_with_ci s suffix
      then (q.trimmed (chop s (length suffix)), m)
      else strip_suffix s more

  -- `none` for NaN, which the only caller tests for.
  abbrev scaled : Option Num → ℕ → Option Num
  scaled none m = none
  scaled (some n) m = let x = q.num_mul n (q.of_nat m) in if q.is_nan x then none else some x

  unfoldable pub parse_numeric : Text → Option Num
  unfolding strip_suffix
  parse_numeric text =
      let s = q.trimmed text in
      let (digits, m) = strip_suffix s suffixes in
      if is_empty s then none else scaled (q.to_double digits) m
