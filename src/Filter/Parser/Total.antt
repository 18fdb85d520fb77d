-- ===== src/Filter/Parser/Total.antt =====
-- The fuel of the parser's loops, src/util/ConnectionFilter.cpp.
use qiftop.Common.{
  ℕ, zero, suc, ◌+◌, ◌≤◌, ◌<◌, ◌≡◌, refl, inl, inr, Bool, true, false, not, ◌&&◌, [], Option, none,
  some, arith, if◌then◌else◌, length, Bool-cases, Option-cases,
}
use qiftop.Flow.Types.{Text}
use qiftop.Filter.Qt.{Qt, IsQt}
use qiftop.Filter.Ast.{FieldInfo, field_table, lookup_field, Op, ExprPtr, null, and_expr, or_expr}
use qiftop.Filter.Eval.{max_expr_depth}
use qiftop.Filter.Lexer.{TokType, lparen, rparen, and, or, end}
use qiftop.Filter.Lexer.Progress.{joins, joins-le, next-le}
use qiftop.Filter.Parser.{
  Message, out_of_fuel, too_deep, Failure, Parser, ParseResult, is_tok, keep_first, fail_at,
  no_error, op_of_text, is_regex, expected_rparen, unknown_field, unknown_operator,
  expected_numeric, invalid_regex, not_numeric, unexpected, Production, or_level, and_level,
  not_level, atom_level, advance, Parsed, build_predicate, parse_value, parse_operator,
  parse_predicate, join_loop, parse_not, close_paren, parse_atom, production, finish, start, parse,
}

-- An error of a parse that tells it ran out of fuel.
pub ran_out : Option Failure → Bool
ran_out none = false
ran_out (some f) = elim f.message [ out_of_fuel ↦ true | _ ↦ false ]

-- The input that is left, and the token in hand if it joins.
abbrev load : Parser → ℕ
load s = joins s.cur.type + length s.lexer.rest

-- From `s` to `t` the parser takes input only, and does not run out of fuel.
record Sane (s t : Parser) : Type 0 where
  lighter : load t ≤ load s
  clean : ran_out s.error ≡ false → ran_out t.error ≡ false

Sane-refl : (s : Parser) → Sane s s
Sane-refl s = record { lighter = omega arith; clean = λ c. c }

Sane-trans : {s t u : Parser} → Sane s t → Sane t u → Sane s u
Sane-trans a b = record {
  lighter = omega (arith, a.lighter, b.lighter);
  clean = λ c. b.clean (a.clean c);
}

fail_at-Sane :
    (s : Parser) (m : Message) (pos : ℕ)
    → ran_out (some (record { message = m; pos = pos })) ≡ false
    → Sane s (fail_at s m pos)
unfolding fail_at
fail_at-Sane s m pos h = record { lighter = omega arith; clean = kept s.error }
  where
    kept :
        (e : Option Failure)
        → ran_out e ≡ false
        → ran_out (keep_first e (record { message = m; pos = pos })) ≡ false
    kept none c = h
    kept (some f) c = c

Joining : TokType → Type 0
Joining t = (a : TokType) → is_tok a t ≡ true → joins a ≡ 1

and-Joining : Joining and
unfolding Joining
and-Joining a h = ground arith

or-Joining : Joining or
unfolding Joining
or-Joining a h = ground arith

and_right : (a b : Bool) → a && b ≡ true → b ≡ true
and_right true b h = h
and_right false b h = cc

module _ {Num Rx : Type 0} {q : Qt Num Rx} (v : IsQt q) where
  -- What a production of the grammar keeps.
  abbrev IsSane : (Parser → Parsed q) → Type 0
  IsSane f = (s : Parser) → Sane s (f s).1

  if-Sane :
      {s : Parser} (b : Bool) (x y : Parsed q)
      → Sane s x.1
      → Sane s y.1
      → Sane s (if b then x else y).1
  if-Sane true x y l r = l
  if-Sane false x y l r = r

  advance-le : (s : Parser) → load (advance q s) ≤ length s.lexer.rest
  unfolding advance
  advance-le s = next-le v s.lexer

  advance-Sane : (s : Parser) → Sane s (advance q s)
  unfolding advance
  advance-Sane s = record { lighter = omega (arith, next-le v s.lexer); clean = λ c. c }

  build_predicate-Sane :
      (info : FieldInfo) (o : Op) (fname val : Text) (op_pos val_pos : ℕ) (s : Parser)
      → Sane s (build_predicate q info o fname val op_pos val_pos s).1
  unfolding build_predicate ran_out
  build_predicate-Sane info o fname val op_pos val_pos s =
      let rx = q.compile (if is_regex o then val else []) in
      let number = fail_at-Sane s (expected_numeric fname) val_pos refl in
      let regex = fail_at-Sane s (invalid_regex (q.rx_error rx)) val_pos refl in
      let ordering = fail_at-Sane s (not_numeric fname) op_pos refl in
      let done = Sane-refl s in search if-Sane

  parse_value-Sane :
      (info : FieldInfo) (o : Op) (fname : Text) (op_pos : ℕ) (s : Parser)
      → Sane s (parse_value q info o fname op_pos s).1
  unfolding parse_value ran_out
  parse_value-Sane info o fname op_pos s = if-Sane _ _ _ (fail_at-Sane s _ s.cur.pos refl) (
      Sane-trans (advance-Sane s)
        (build_predicate-Sane info o fname s.cur.text op_pos s.cur.pos (advance q s)))

  parse_operator-Sane :
      (info : FieldInfo) (fname : Text) (s : Parser) → Sane s (parse_operator q info fname s).1
  unfolding parse_operator ran_out
  parse_operator-Sane info fname s =
      if-Sane _ _ _ (fail_at-Sane s _ s.cur.pos refl) (known (op_of_text s.cur.text))
    where
      known :
          (o : Option Op)
          → Sane s
              (elim o as (λ x. Parsed q) [
                | none ↦ (null, fail_at s (unknown_operator s.cur.text) s.cur.pos)
                | some o ↦ parse_value q info o fname s.cur.pos (advance q s)
              ]).1
      known none = fail_at-Sane s _ s.cur.pos refl
      known (some o) =
          Sane-trans (advance-Sane s) (parse_value-Sane info o fname s.cur.pos (advance q s))

  parse_predicate-Sane : IsSane (parse_predicate q)
  unfolding parse_predicate ran_out
  parse_predicate-Sane s =
      if-Sane _ _ _ (fail_at-Sane s _ s.cur.pos refl)
        (known (lookup_field (q.to_lower s.cur.text) field_table))
    where
      known :
          (i : Option FieldInfo)
          → Sane s
              (elim i as (λ x. Parsed q) [
                | none ↦ (null, fail_at s (unknown_field s.cur.text) s.cur.pos)
                | some info ↦ parse_operator q info (q.to_lower s.cur.text) (advance q s)
              ]).1
      known none = fail_at-Sane s _ s.cur.pos refl
      known (some info) =
          Sane-trans (advance-Sane s)
            (parse_operator-Sane info (q.to_lower s.cur.text) (advance q s))

  join_loop-Sane :
      (t : TokType) (node : ExprPtr Num Rx → ExprPtr Num Rx → ExprPtr Num Rx)
      (operand : Parser → Parsed q)
      → Joining t
      → IsSane operand
      → (fuel : ℕ) (e : ExprPtr Num Rx) (s : Parser) → load s < fuel
      → Sane s (join_loop q t node operand fuel (e, s)).1
  unfolding join_loop Joining
  join_loop-Sane t node operand j o zero e s h = absurd (omega arith)
  join_loop-Sane t node operand j o (suc fuel) e s h =
      elim (Bool-cases (no_error s && is_tok s.cur.type t)) [
        | inr stop ↦ rw stop (Sane-refl s)
        | inl goes ↦
            let step = Sane-trans (advance-Sane s) (o (advance q s)) in
            let one = j s.cur.type (and_right (no_error s) _ goes) in
            let less = advance-le s in
            let used = (o (advance q s)).lighter in
            rw goes (Sane-trans step (join_loop-Sane t node operand j o fuel _ _ (omega arith)))
      ]

  parse_not-Sane : (n a : Parser → Parsed q) → IsSane n → IsSane a → IsSane (parse_not q n a)
  unfolding parse_not
  parse_not-Sane n a hn ha s = if-Sane _ _ _ (Sane-trans (advance-Sane s) (hn (advance q s))) (ha s)

  close_paren-Sane : (r : Parsed q) → Sane r.1 (close_paren q r).1
  unfolding close_paren ran_out
  close_paren-Sane (e, s) =
      if-Sane (not (is_tok s.cur.type rparen)) _ _ (fail_at-Sane s expected_rparen s.cur.pos refl)
        (advance-Sane s)

  parse_atom-Sane : (o : Parser → Parsed q) → IsSane o → IsSane (parse_atom q o)
  unfolding parse_atom
  parse_atom-Sane o h s =
      let inner = Sane-trans (advance-Sane s) (h (advance q s)) in
      if-Sane (is_tok s.cur.type lparen) _ _ (Sane-trans inner (close_paren-Sane (o (advance q s))))
        (parse_predicate-Sane s)

  join-Sane :
      (t : TokType) (node : ExprPtr Num Rx → ExprPtr Num Rx → ExprPtr Num Rx)
      (operand : Parser → Parsed q)
      → Joining t
      → ((a : TokType) → joins a ≤ 1)
      → IsSane operand
      → (s : Parser)
      → Sane s
          (join_loop q t node operand (suc (suc (length (operand s).1.lexer.rest))) (operand s)).1
  join-Sane t node operand j le o s =
      let s' = (operand s).1 in
      let small = le s'.cur.type in
      Sane-trans (o s) (join_loop-Sane t node operand j o _ (operand s).0 s' (omega arith))

  production-Sane : (d : ℕ) (p : Production) → IsSane (production q d p)
  unfolding production ran_out
  production-Sane zero p s = fail_at-Sane s too_deep s.cur.pos refl
  production-Sane (suc d) or_level s =
      join-Sane or or_expr (production q d and_level) or-Joining joins-le
        (production-Sane d and_level) s
  production-Sane (suc d) and_level s =
      join-Sane and and_expr (production q d not_level) and-Joining joins-le
        (production-Sane d not_level) s
  production-Sane (suc d) not_level s =
      parse_not-Sane (production q d not_level) (production q d atom_level)
        (production-Sane d not_level) (production-Sane d atom_level) s
  production-Sane (suc d) atom_level s =
      parse_atom-Sane (production q d or_level) (production-Sane d or_level) s

  finish-clean : (r : Parsed q) → ran_out r.1.error ≡ false → ran_out (finish q r).error ≡ false
  unfolding finish ran_out
  finish-clean (e, s) h = elim (Option-cases s.error) [
    | inl none_yet ↦ rw none_yet (ended (is_tok s.cur.type end))
    | inr (f, failed) ↦ rw failed (rw failed at h)
  ]
    where
      no_tail : ParseResult Num Rx
      no_tail = record { expr = e; error = none }

      tail : ParseResult Num Rx
      tail = record {
        expr = null;
        error = some (record { message = unexpected s.cur.text; pos = s.cur.pos });
      }

      ended : (b : Bool) → ran_out (if b then no_tail else tail).error ≡ false
      ended true = refl
      ended false = refl

  start-clean : (input : Text) → ran_out (start q input).error ≡ false
  unfolding start ran_out
  start-clean input = refl

  -- Every text is parsed within the fuel of the parser's loops: no parse tells that it ran out,
  -- given that lower-casing leaves the empty text empty.
  pub parse-ran_out : (input : Text) → ran_out (parse q input).error ≡ false
  unfolding parse ran_out
  parse-ran_out input =
      let s = start q input in
      either (is_tok s.cur.type end) _ (
        finish-clean (production q max_expr_depth or_level s)
          ((production-Sane max_expr_depth or_level s).clean (start-clean input)))
    where
      either :
          (b : Bool) (r : ParseResult Num Rx)
          → ran_out r.error ≡ false
          → ran_out (if b then (record { expr = null; error = none }) else r).error ≡ false
      either true r h = refl
      either false r h = h
