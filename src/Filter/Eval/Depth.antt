-- ===== src/Filter/Eval/Depth.antt =====
-- The cap on the recursion of the evaluator, against the plain meaning of an expression.
use qiftop.Common.{ℕ, zero, suc, ◌≤◌, ◌≡◌, refl, Bool, true, false, not, ◌&&◌, ◌||◌, arith, max}
use qiftop.Filter.Qt.{Qt}
use qiftop.Filter.Ast.{Predicate, ExprPtr, null, predicate, not_expr, and_expr, or_expr}
use qiftop.Filter.Eval.{Context, eval_predicate, eval_expr, max_expr_depth, matches}

module _ {Num Rx : Type 0} where
  -- The levels of an expression.
  unfoldable pub height : ExprPtr Num Rx → ℕ
  height null = 0
  height (predicate p) = 1
  height (not_expr e) = suc (height e)
  height (and_expr a b) = suc (max (height a) (height b))
  height (or_expr a b) = suc (max (height a) (height b))

  -- What an expression means, with no cap.
  pub meaning : Qt Num Rx → ExprPtr Num Rx → Context Num → Bool
  meaning q null ctx = true
  meaning q (predicate p) ctx = eval_predicate q p ctx
  meaning q (not_expr e) ctx = not (meaning q e ctx)
  meaning q (and_expr a b) ctx = meaning q a ctx && meaning q b ctx
  meaning q (or_expr a b) ctx = meaning q a ctx || meaning q b ctx

-- What the parser makes of `n + 1` predicates joined by `and`: the first stands innermost.
pub data AndSpine {Num Rx : Type 0} : ℕ → ExprPtr Num Rx → Type 0 where
  leaf : (p : Predicate Num Rx) → AndSpine 0 (predicate p)
  more : {n : ℕ} (a b : ExprPtr Num Rx) → AndSpine n a → AndSpine (suc n) (and_expr a b)

module _ {Num Rx : Type 0} (q : Qt Num Rx) (ctx : Context Num) where
  eval_expr-meaning :
      (d : ℕ) (e : ExprPtr Num Rx) → height e ≤ d → eval_expr q d e ctx ≡ meaning q e ctx
  unfolding eval_expr height meaning
  eval_expr-meaning zero null h = refl
  eval_expr-meaning (suc d) null h = refl
  eval_expr-meaning zero (predicate p) h = absurd (omega arith)
  eval_expr-meaning zero (not_expr e) h = absurd (omega arith)
  eval_expr-meaning zero (and_expr a b) h = absurd (omega arith)
  eval_expr-meaning zero (or_expr a b) h = absurd (omega arith)
  eval_expr-meaning (suc d) (predicate p) h = refl
  eval_expr-meaning (suc d) (not_expr e) h = rw (eval_expr-meaning d e (omega arith))
  eval_expr-meaning (suc d) (and_expr a b) h =
      rw (eval_expr-meaning d a (omega arith), eval_expr-meaning d b (omega arith))
  eval_expr-meaning (suc d) (or_expr a b) h =
      rw (eval_expr-meaning d a (omega arith), eval_expr-meaning d b (omega arith))

  -- An expression of at most 64 levels is evaluated to its plain meaning, the Boolean combination
  -- of its predicates with no cap.
  pub matches-meaning :
      (e : ExprPtr Num Rx) → height e ≤ max_expr_depth → matches q e ctx ≡ meaning q e ctx
  unfolding matches
  matches-meaning e h = eval_expr-meaning max_expr_depth e h

  eval_expr-AndSpine :
      (d n : ℕ) (e : ExprPtr Num Rx) → AndSpine n e → d ≤ n → eval_expr q d e ctx ≡ false
  unfolding eval_expr
  eval_expr-AndSpine zero n e (leaf p) h = refl
  eval_expr-AndSpine (suc d) n e (leaf p) h = absurd (omega arith)
  eval_expr-AndSpine zero n e (more a b s) h = refl
  eval_expr-AndSpine (suc d) (suc n) e (more a b s) h =
      rw (eval_expr-AndSpine d n a s (omega arith))

  -- The evaluator's cap counts the operands of a conjunction: a filter of more than 64 predicates
  -- that are joined by `and` as the parser joins them matches no flow, whatever the predicates
  -- are.
  pub matches-AndSpine :
      (n : ℕ) (e : ExprPtr Num Rx) → AndSpine n e → max_expr_depth ≤ n → matches q e ctx ≡ false
  unfolding matches
  matches-AndSpine n e s h = eval_expr-AndSpine max_expr_depth n e s h
