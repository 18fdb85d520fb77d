-- ===== src/Filter/Parser.antt =====
-- src/util/ConnectionFilter.cpp, class Parser, and the function `parse`. A message of the source is
-- a constructor with its arguments; the first message stays. The recursion is on the levels left
-- below kMaxExprDepth. The loops take fuel from the length of the input that is left; a message of
-- its own, which the source does not have, would tell that it ran out.
pub mod Total
use qiftop.Common.{
  ℕ, zero, suc, ◌+◌, ◌≡◌, Bool, true, false, not, ◌&&◌, ◌||◌, List, [], ◌∷◌, Option, none, some,
  if◌then◌else◌, ◌==◌, nat_eq, list_eq, length,
}
use qiftop.Flow.Types.{Text, is_empty}
use qiftop.Flow.Wire.{utf16}
use qiftop.Filter.Qt.{Qt}
use qiftop.Filter.Ast.{
  FieldInfo, field_table, lookup_field, parse_numeric, Op, contains, equals, not_equals, regex, lt,
  le, gt, ge, Predicate, ExprPtr, null, predicate, not_expr, and_expr, or_expr,
}
use qiftop.Filter.Lexer.{
  TokType, ident, string, op, lparen, rparen, and, or, not_tok, end, Token, Lexer, next,
}
use qiftop.Filter.Eval.{max_expr_depth}

pub data Message : Type 0 where
  too_deep expected_rparen expected_field expected_value : Message
  unknown_field expected_operator unknown_operator expected_numeric invalid_regex : Text → Message
  not_numeric unexpected : Text → Message
  -- not a message of the source
  out_of_fuel : Message

pub record Failure : Type 0 where
  pub message : Message
  pub pos : ℕ

pub record Parser : Type 0 where
  pub cur : Token
  pub lexer : Lexer
  pub error : Option Failure

-- `ParseResult`, whose expression is null on an error and for an empty input.
pub record ParseResult (Num Rx : Type 0) : Type 0 where
  pub expr : ExprPtr Num Rx
  pub error : Option Failure

abbrev pub tok_number : TokType → ℕ
tok_number ident = 0
tok_number string = 1
tok_number op = 2
tok_number lparen = 3
tok_number rparen = 4
tok_number and = 5
tok_number or = 6
tok_number not_tok = 7
tok_number end = 8

abbrev pub is_tok : TokType → TokType → Bool
is_tok a b = tok_number a == tok_number b

abbrev keep_first : Option Failure → Failure → Option Failure
keep_first none f = some f
keep_first (some e) f = some e

pub fail_at : Parser → Message → ℕ → Parser
fail_at s m pos = record s { error = keep_first s.error (record { message = m; pos = pos }) }

-- `m_error.isEmpty()`
abbrev pub no_error : Parser → Bool
no_error s = elim s.error [ none ↦ true | some e ↦ false ]

pub op_of_text : Text → Option Op
op_of_text t =
    if t == utf16 ":"
    then some contains
    else if t == utf16 "="
    then some equals
    else if t == utf16 "!="
    then some not_equals
    else if t == utf16 "~"
    then some regex
    else if t == utf16 "<"
    then some lt
    else if t == utf16 "<="
    then some le
    else if t == utf16 ">"
    then some gt
    else if t == utf16 ">="
    then some ge
    else none

abbrev pub is_ordering : Op → Bool
is_ordering lt = true
is_ordering le = true
is_ordering gt = true
is_ordering ge = true
is_ordering _ = false

abbrev pub is_regex : Op → Bool
is_regex regex = true
is_regex _ = false

-- The productions of the grammar, each a method of the class.
pub data Production : Type 0 where
  or_level and_level not_level atom_level : Production

module _ {Num Rx : Type 0} (q : Qt Num Rx) where
  pub advance : Parser → Parser
  advance s = let (t, l) = next q s.lexer in record s { cur = t; lexer = l }

  abbrev pub Parsed : Type 0
  Parsed = ExprPtr Num Rx × Parser

  -- From the value on: the predicate is built, and its checks made in order.
  pub build_predicate : FieldInfo → Op → Text → Text → ℕ → ℕ → Parser → Parsed
  build_predicate info o fname val op_pos val_pos s =
      let number = if info.is_numeric then parse_numeric q val else none in
      let rx = q.compile (if is_regex o then val else []) in
      let p : Predicate Num Rx = record {
        field = info.field;
        op = o;
        text_value = val;
        num_value = number;
        rx = rx;
      } in
      if info.is_numeric && elim number [ none ↦ true | some n ↦ false ]
      then (null, fail_at s (expected_numeric fname) val_pos)
      else if is_regex o && not (q.rx_valid rx)
      then (null, fail_at s (invalid_regex (q.rx_error rx)) val_pos)
      else if is_ordering o && not info.is_numeric
      then (null, fail_at s (not_numeric fname) op_pos)
      else (predicate p, s)

  -- From the operator on.
  pub parse_value : FieldInfo → Op → Text → ℕ → Parser → Parsed
  unfolding build_predicate
  parse_value info o fname op_pos s =
      if not (is_tok s.cur.type ident) && not (is_tok s.cur.type string)
      then (null, fail_at s expected_value s.cur.pos)
      else build_predicate info o fname s.cur.text op_pos s.cur.pos (advance s)

  pub parse_operator : FieldInfo → Text → Parser → Parsed
  unfolding parse_value op_of_text
  parse_operator info fname s =
      if not (is_tok s.cur.type op)
      then (null, fail_at s (expected_operator fname) s.cur.pos)
      else elim (op_of_text s.cur.text) [
        | none ↦ (null, fail_at s (unknown_operator s.cur.text) s.cur.pos)
        | some o ↦ parse_value info o fname s.cur.pos (advance s)
      ]

  pub parse_predicate : Parser → Parsed
  unfolding parse_operator
  parse_predicate s =
      let fname = q.to_lower s.cur.text in
      if not (is_tok s.cur.type ident)
      then (null, fail_at s expected_field s.cur.pos)
      else elim (lookup_field fname field_table) [
        | none ↦ (null, fail_at s (unknown_field s.cur.text) s.cur.pos)
        | some info ↦ parse_operator info fname (advance s)
      ]

  -- The loop of `parseOr` and of `parseAnd`, over the token that joins and the node it builds.
  pub join_loop :
      TokType
      → (ExprPtr Num Rx → ExprPtr Num Rx → ExprPtr Num Rx)
      → (Parser → Parsed)
      → ℕ
      → Parsed
      → Parsed
  join_loop t node operand zero (lhs, s) = (lhs, fail_at s out_of_fuel s.cur.pos)
  join_loop t node operand (suc fuel) (lhs, s) =
      let (rhs, s') = operand (advance s) in
      let again = join_loop t node operand fuel (node lhs rhs, s') in
      if no_error s && is_tok s.cur.type t then again else (lhs, s)

  -- More rounds than the input can hold joining tokens.
  abbrev pub loop_fuel : Parser → ℕ
  loop_fuel s = suc (suc (length s.lexer.rest))

  abbrev join :
      TokType
      → (ExprPtr Num Rx → ExprPtr Num Rx → ExprPtr Num Rx)
      → (Parser → Parsed)
      → Parser
      → Parsed
  join t node operand s =
      let first = operand s in join_loop t node operand (loop_fuel first.1) first

  pub parse_not : (Parser → Parsed) → (Parser → Parsed) → Parser → Parsed
  parse_not not_production atom_production s =
      if is_tok s.cur.type not_tok
      then (let (child, s') = not_production (advance s) in (not_expr child, s'))
      else atom_production s

  pub close_paren : Parsed → Parsed
  close_paren (e, s) =
      if not (is_tok s.cur.type rparen)
      then (null, fail_at s expected_rparen s.cur.pos)
      else (e, advance s)

  pub parse_atom : (Parser → Parsed) → Parser → Parsed
  unfolding close_paren parse_predicate
  parse_atom or_production s =
      if is_tok s.cur.type lparen
      then close_paren (or_production (advance s))
      else parse_predicate s

  -- `parseOr`, `parseAnd`, `parseNot` and `parseAtom`, with `tooDeep` first.
  unfoldable pub production : ℕ → Production → Parser → Parsed
  unfolding join_loop parse_not parse_atom advance fail_at
  production zero p s = (null, fail_at s too_deep s.cur.pos)
  production (suc d) or_level s = join or or_expr (production d and_level) s
  production (suc d) and_level s = join and and_expr (production d not_level) s
  production (suc d) not_level s = parse_not (production d not_level) (production d atom_level) s
  production (suc d) atom_level s = parse_atom (production d or_level) s

  -- The end of `Parser::parse`.
  pub finish : Parsed → ParseResult Num Rx
  finish (e, s) = elim s.error [
    | some f ↦ record { expr = null; error = some f }
    | none ↦ if is_tok s.cur.type end then record { expr = e; error = none } else record {
      expr = null;
      error = some (record { message = unexpected s.cur.text; pos = s.cur.pos });
    }
  ]

  -- The constructor of Parser.
  pub start : Text → Parser
  start input =
      let (t, l) = next q (record { rest = input; pos = 0 }) in
      record { cur = t; lexer = l; error = none }

  unfoldable pub parse : Text → ParseResult Num Rx
  unfolding production finish start
  parse input =
      let s = start input in
      if is_tok s.cur.type end
      then record { expr = null; error = none }
      else finish (production max_expr_depth or_level s)
