-- ===== src/Tests/Filter.antt =====
-- Filters over a small stand-in for Qt: texts in ASCII, whole numbers for doubles, and a regular
-- expression that is a text to be found.
use qiftop.Common.{
  ℕ, zero, suc, ◌+◌, ◌-◌, ◌*◌, ◌≡◌, refl, Bool, true, false, not, ◌&&◌, ◌||◌, [], ◌∷◌, Option, none,
  some, arith, if◌then◌else◌, ◌==◌, nat_eq, list_eq, ltb, leb, map,
}
use qiftop.Flow.Types.{Text, is_empty}
use qiftop.Flow.Wire.{utf16}
use qiftop.Filter.Qt.{Qt, IsQt}
use qiftop.Filter.Ast.{
  lookup_field, parse_numeric, port, equals, not_equals, Predicate, ExprPtr, null, predicate,
  not_expr, and_expr,
}
use qiftop.Filter.Eval.{Context, eval_predicate, matches}
use qiftop.Filter.Eval.Depth.{
  height, meaning, AndSpine, leaf, more, matches-meaning, matches-AndSpine,
}
use qiftop.Filter.Eval.Negation.{eval_predicate-not_equals}
use qiftop.Filter.Lexer.{next}
use qiftop.Filter.Parser.{parse, too_deep}
use qiftop.Filter.Parser.Total.{ran_out, parse-ran_out}
use qiftop.Tests.Data.{flow_of}

abbrev lower_code : ℕ → ℕ
lower_code c = if leb 65 c && leb c 90 then c + 32 else c

abbrev lower : Text → Text
lower t = map lower_code t

starts : Text → Text → Bool
starts t [] = true
starts [] (x ∷ s) = false
starts (y ∷ t) (x ∷ s) = x == y && starts t s

holds : Text → Text → Bool
holds [] s = is_empty s
holds (x ∷ t) s = starts (x ∷ t) s || holds t s

ends : Text → Text → Bool
ends [] s = is_empty s
ends (x ∷ t) s = (x ∷ t) == s || ends t s

digits : ℕ → Text → Option ℕ
digits n [] = some n
digits n (c ∷ t) = elim (leb 48 c && leb c 57) [
  | true ↦ digits (n * 10 + (c - 48)) t
  | false ↦ none
]

abbrev ascii : Qt ℕ Text
ascii = record {
  is_space = λ c. c == 32;
  to_lower = lower;
  trimmed = λ t. t;
  split_lines = λ t. t ∷ [];
  contains_ci = λ t s. holds (lower t) (lower s);
  equals_ci = λ t s. lower t == lower s;
  ends_with_ci = λ t s. ends (lower t) (lower s);
  address_text = λ a. a ∷ [];
  is_ipv6 = λ a. false;
  decimal = λ n. n ∷ [];
  to_double = λ t. if is_empty t then none else digits 0 t;
  is_nan = λ n. false;
  of_nat = λ n. n;
  num_add = λ m n. m + n;
  num_mul = λ m n. m * n;
  num_eq = λ m n. m == n;
  num_lt = ltb;
  num_le = leb;
  compile = λ t. t;
  rx_valid = λ t. true;
  rx_error = λ t. [];
  rx_match = holds;
}

ascii-IsQt : IsQt ascii
ascii-IsQt = record { lower_empty = refl }

abbrev seen : Context ℕ
seen = record {
  c = flow_of 5000 10;
  rx_rate = 0;
  tx_rate = 0;
  hostname_local = [];
  hostname_remote = [];
}

abbrev https : Predicate ℕ Text
https = record {
  field = port;
  op = equals;
  text_value = utf16 "443";
  num_value = some 443;
  rx = [];
}

parse-ran_out_example :
    ran_out (parse ascii (utf16 "port=443 and not (comm:curl or bytes>1MB)")).error ≡ false
parse-ran_out_example = parse-ran_out ascii-IsQt (utf16 "port=443 and not (comm:curl or bytes>1MB)")

parsed : (parse ascii (utf16 "Port=443")).expr ≡ predicate https
unfolding parse next lookup_field parse_numeric ends digits
parsed = refl

abbrev not_https : ExprPtr ℕ Text
not_https = not_expr (and_expr (predicate https) null)

matches-meaning_example : matches ascii not_https seen ≡ meaning ascii not_https seen
unfolding height
matches-meaning_example = matches-meaning ascii seen not_https (omega arith)

spine : ℕ → ExprPtr ℕ Text
spine zero = predicate https
spine (suc n) = and_expr (spine n) (predicate https)

spine-AndSpine : (n : ℕ) → AndSpine n (spine n)
unfolding spine
spine-AndSpine zero = leaf https
spine-AndSpine (suc n) = more (spine n) (predicate https) (spine-AndSpine n)

matches-AndSpine_example : matches ascii (spine 64) seen ≡ false
matches-AndSpine_example =
    matches-AndSpine ascii seen 64 (spine 64) (spine-AndSpine 64) (omega arith)

-- The same predicate, joined one time less, matches the flow.
shorter : matches ascii (spine 63) seen ≡ true
unfolding matches spine
shorter = refl

eval_predicate-not_equals_example :
    eval_predicate ascii (record https { op = not_equals }) seen
    ≡ not (eval_predicate ascii (record https { op = equals }) seen)
eval_predicate-not_equals_example = eval_predicate-not_equals ascii https seen

-- What the parser makes of three joined predicates.
parsed_spine : (parse ascii (utf16 "port=443 and port=443 && port=443")).expr ≡ spine 2
unfolding parse spine next lookup_field parse_numeric ends digits
parsed_spine = refl

-- Fifteen parentheses are parsed, and sixteen are one level too many.
fifteen : (parse ascii (utf16 "(((((((((((((((port=443)))))))))))))))")).error ≡ none
unfolding parse next lookup_field parse_numeric ends digits
fifteen = refl

sixteen :
    (parse ascii (utf16 "((((((((((((((((port=443))))))))))))))))")).error
    ≡ some (record { message = too_deep; pos = 16 })
unfolding parse next
sixteen = refl
