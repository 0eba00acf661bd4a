-- ===== src/Combo/Tests.antt =====
-- The evaluator at concrete inputs. The numbers stand for the floating-point constants.
use Prim.Native.Nat.{ℕ}
use asmoses.Base.{ℕ, zero, suc, ◌+◌, ◌*◌, ◌/◌, ◌≡◌, refl, false, List, [], ◌∷◌, ◌==◌, ltb, arith}
use asmoses.Base.Int.{pos, negsuc}
use asmoses.Combo.Tree.{
  node, nil, cons, logical_and, logical_or, logical_not, logical_true, logical_false, plus, list,
  foldr, foldl, Vertex, contin, builtin, argument, ComboTree, height,
}
use asmoses.Combo.Denote.{
  Valuation, IsLogical, truth, conjunction, disjunction, negation, literal_leaf, done, more,
}
use asmoses.Combo.Eval.Monad.{
  Floats, ok, leaf, bool_to_vertex, get_contin, negate_vertex, read_argument, eval_argument,
  catch_overflow, catch_eval,
}
use asmoses.Combo.Eval.Loops.{eval_binding, eval_and, eval_or, eval_children, eval_cond}
use asmoses.Combo.Eval.Machine.{
  Procedure, eval_throws_tree, eval_node, eval_vertex, eval_builtin, eval_contin, eval_sum,
  eval_foldr, foldr_step, eval_foldl, foldl_step, eval_list, eval_car, eval_cdr, last, drop_last,
  checked,
}
use asmoses.Combo.Eval.Logical.{Binds, eval-truth}

abbrev floats : Floats
floats = record {
  C = ℕ;
  zero_c = 0;
  one_c = 1;
  add = λ a b. a + b;
  mul = λ a b. a * b;
  divide = λ a b. a / b;
  log_c = λ a. a;
  exp_c = λ a. a;
  sin_c = λ a. a;
  is_zero = λ a. a == 0;
  is_positive = λ a. ltb 0 a;
  is_nan = λ a. false;
  is_inf = λ a. false;
  Rng = ℕ;
  randfloat = λ r. (r, suc r);
}

abbrev no_procedures : ℕ → Procedure ℕ
no_procedures p = record { arity = pos 0; body = node (builtin list) nil }

abbrev arguments : List (Vertex ℕ)
arguments = builtin logical_true ∷ builtin logical_false ∷ []

abbrev valuation : Valuation
valuation n = n == 1

-- and($1 or(!$1 not(and($2))))
abbrev formula : ComboTree ℕ
formula = node (builtin logical_and) (
    cons (node (argument (pos 1)) nil) (
      cons
        (node (builtin logical_or) (
          cons (node (argument (negsuc 0)) nil) (
            cons
              (node (builtin logical_not)
                (cons (node (builtin logical_and) (cons (node (argument (pos 2)) nil) nil)) nil))
              nil)))
        nil))

formula-IsLogical : IsLogical 2 formula
formula-IsLogical = conjunction (literal_leaf (pos 1) (omega arith) (omega arith)) (
    more
      (disjunction (literal_leaf (negsuc 0) (omega arith) (omega arith)) (
        more (negation (conjunction (literal_leaf (pos 2) (omega arith) (omega arith)) done)) done))
      done)

arguments-Binds : Binds arguments valuation 2
arguments-Binds zero h = refl
arguments-Binds (suc zero) h = refl
arguments-Binds (suc (suc i)) h = absurd (omega arith)

height-formula : height formula ≡ 5
unfolding height
height-formula = refl

eval-truth_example :
    eval_throws_tree floats no_procedures 5 arguments formula 7
    ≡ ok (leaf (bool_to_vertex (truth valuation formula))) 7
eval-truth_example =
    eval-truth floats no_procedures arguments valuation 2 arguments-Binds 5 formula 7
      formula-IsLogical (omega (arith, height-formula))

program : Unit {0}
unfolding eval_throws_tree eval_node eval_vertex eval_builtin eval_contin eval_sum eval_foldr
    foldr_step eval_foldl foldl_step eval_list eval_car eval_cdr last drop_last checked eval_binding
    eval_and eval_or eval_children eval_cond get_contin negate_vertex read_argument eval_argument
    catch_overflow catch_eval
program = tt

abbrev numbers : ComboTree ℕ
numbers =
    node (builtin list)
      (cons (leaf (contin 1)) (cons (leaf (contin 2)) (cons (leaf (contin 3)) nil)))

folded_right :
    eval_throws_tree floats no_procedures 12 []
      (node
        (builtin foldr)
        (cons (leaf (builtin plus)) (cons (leaf (contin 0)) (cons numbers nil))))
      0
    ≡ ok (leaf (contin 6)) 0
unfolding program
folded_right = refl

folded_left :
    eval_throws_tree floats no_procedures 12 []
      (node
        (builtin foldl)
        (cons (leaf (builtin plus)) (cons (leaf (contin 0)) (cons numbers nil))))
      0
    ≡ ok (leaf (contin 6)) 0
unfolding program
folded_left = refl
