-- ===== src/Complexity/Tests.antt =====
-- Complexities of small trees, over numbers as constants.
use asmoses.Base.{ℕ, ◌≡◌, refl, ◌==◌, false, arith, ◌<◌, ◌≤◌}
use asmoses.Base.Int.{pos}
use asmoses.Combo.Tree.{
  node, nil, cons, logical_and, logical_not, plus, times, div, contin, builtin, argument, ComboTree,
}
use asmoses.Combo.Denote.{IsLogical, literal_leaf, conjunction, negation, done, more}
use asmoses.Reduct.Rules.{reduce_nots, downwards}
use asmoses.Complexity.{tree_complexity, is_free, is_unit, is_contin_knob, weight}
use asmoses.Complexity.Rules.{complexity, complexity-downwards}

abbrev cx : ComboTree ℕ → ℕ
cx = complexity (λ c. c == 0) (λ a. false)

abbrev arg : ℕ → ComboTree ℕ
arg i = node (argument (pos i)) nil

-- `+(/($1 2) *(0 $2))`: the division, its argument and its constant.
abbrev quotient : ComboTree ℕ
quotient = node (builtin plus) (
    cons (node (builtin div) (cons (arg 1) (cons (node (contin 2) nil) nil)))
      (cons (node (builtin times) (cons (node (contin 0) nil) (cons (arg 2) nil))) nil))

quotient_complexity : cx quotient ≡ 3
unfolding tree_complexity is_free is_unit is_contin_knob weight
quotient_complexity = refl

abbrev nested : ComboTree ℕ
nested = node (builtin logical_not) (
    cons
      (node (builtin logical_and)
        (cons (arg 1) (cons (node (builtin logical_and) (cons (arg 2) nil)) nil)))
      nil)

literal-IsLogical : (i : ℕ) → 0 < i → i ≤ 2 → IsLogical 2 (arg i)
literal-IsLogical i p q = literal_leaf (pos i) p q

abbrev inner : ComboTree ℕ
inner =
    node (builtin logical_and)
      (cons (arg 1) (cons (node (builtin logical_and) (cons (arg 2) nil)) nil))

inner-IsLogical : IsLogical 2 inner
inner-IsLogical =
    conjunction (literal-IsLogical 1 (omega arith) (omega arith))
      (more (conjunction (literal-IsLogical 2 (omega arith) (omega arith)) done) done)

complexity-downwards_example : cx (downwards reduce_nots 3 nested) ≡ cx nested
complexity-downwards_example =
    complexity-downwards (λ c. c == 0) (λ a. false) 2 3 nested (negation inner-IsLogical)
