-- ===== src/Filter/Eval/Negation.antt =====
-- The operators `=` and `!=` of src/util/ConnectionFilter.cpp.
use qiftop.Common.{
  ◌≡◌, refl, Bool, true, false, not, List, [], ◌∷◌, Option, none, some, arith, inl, inr, Bool-cases,
}
use qiftop.Flow.Types.{Text}
use qiftop.Filter.Qt.{Qt}
use qiftop.Filter.Ast.{Field, equals, not_equals, Predicate}
use qiftop.Filter.Eval.{
  Context, is_multi_line_field, is_numeric_field, extract_text, compare_number, eval_numeric,
  compare_line, eval_lines, compare_text, eval_text, eval_predicate,
}

module _ {Num Rx : Type 0} (q : Qt Num Rx) where
  eval_lines-not_equals :
      (val : Text) (ls : List Text) (any all other_any other_all : Bool)
      → all ≡ not any
      → eval_lines q not_equals val ls other_any all
        ≡ not (eval_lines q equals val ls any other_all)
  unfolding eval_lines compare_line
  eval_lines-not_equals val [] any all x y h = h
  eval_lines-not_equals val (l ∷ ls) any all x y h =
      eval_lines-not_equals val ls _ _ _ _ (ground arith)

  eval_numeric-not_equals :
      (f : Field) (n : Num) (ctx : Context Num)
      → eval_numeric q f not_equals n ctx ≡ not (eval_numeric q f equals n ctx)
  unfolding eval_numeric compare_number
  eval_numeric-not_equals f n ctx = ground arith

  eval_text-not_equals :
      (p : Predicate Num Rx) (ctx : Context Num)
      → eval_text q (record p { op = not_equals }) ctx
        ≡ not (eval_text q (record p { op = equals }) ctx)
  unfolding eval_text compare_text
  eval_text-not_equals p ctx = elim (Bool-cases (is_multi_line_field p.field)) [
    | inl lines ↦ rw lines (
        eval_lines-not_equals p.text_value (q.split_lines (extract_text q p.field ctx)) false true
          false true refl)
    | inr plain ↦ rw plain
  ]

  -- For every field, number or text, with one value or several, `field != value` holds exactly
  -- where `field = value` does not.
  pub eval_predicate-not_equals :
      (p : Predicate Num Rx) (ctx : Context Num)
      → eval_predicate q (record p { op = not_equals }) ctx
        ≡ not (eval_predicate q (record p { op = equals }) ctx)
  unfolding eval_predicate
  eval_predicate-not_equals p ctx = by_number p.num_value
    where
      by_number :
          (o : Option Num)
          → eval_predicate q (record p { op = not_equals; num_value = o }) ctx
            ≡ not (eval_predicate q (record p { op = equals; num_value = o }) ctx)
      by_number none = eval_text-not_equals (record p { num_value = none }) ctx
      by_number (some n) = elim (Bool-cases (is_numeric_field p.field)) [
        | inl number ↦ rw number (eval_numeric-not_equals p.field n ctx)
        | inr text ↦ rw text (eval_text-not_equals (record p { num_value = some n }) ctx)
      ]
