-- ===== src/Reduct/Tests.antt =====
-- The reductions at concrete inputs.
use asmoses.Base.{false, ℕ, ◌≡◌, refl, true, arith, ◌==◌}
use asmoses.Base.Int.{pos}
use asmoses.Combo.Tree.{
  node, nil, cons, logical_and, logical_not, logical_true, builtin, argument, ComboTree,
  ComboForest, height,
}
use asmoses.Combo.Denote.{
  Valuation, IsLogical, truth, literal, conjunction, negation, literal_leaf, true_leaf, done, more,
}
use asmoses.Reduct.Rules.{
  reduce_nots, level, same_associative, eval_logical_identities, upwards, downwards,
}
use asmoses.Reduct.Sound.{IsSoundAt}
use asmoses.Reduct.Level.{level-IsSound, level-NoneSame, NoneSame}
use asmoses.Reduct.Nnf.{IsNnf, downwards-reduce_nots}
use asmoses.Reduct.Identities.{eval_logical_identities-IsSound, only_units}
use asmoses.Reduct.Lost.{upwards_loses_true, guarded}

abbrev valuation : Valuation
valuation n = n == 1

abbrev first_leaf : ComboTree ℕ
first_leaf = node (argument (pos 1)) nil

abbrev second_leaf : ComboTree ℕ
second_leaf = node (argument (pos 2)) nil

first_leaf-IsLogical : IsLogical 2 first_leaf
first_leaf-IsLogical = literal_leaf (pos 1) (omega arith) (omega arith)

second_leaf-IsLogical : IsLogical 2 second_leaf
second_leaf-IsLogical = literal_leaf (pos 2) (omega arith) (omega arith)

-- and($1 and($2))
abbrev nested : ComboTree ℕ
nested =
    node (builtin logical_and)
      (cons first_leaf (cons (node (builtin logical_and) (cons second_leaf nil)) nil))

-- not(and($1 and($2)))
abbrev negated : ComboTree ℕ
negated = node (builtin logical_not) (cons nested nil)

nested-IsLogical : IsLogical 2 nested
nested-IsLogical =
    conjunction first_leaf-IsLogical (more (conjunction second_leaf-IsLogical done) done)

height-negated : height negated ≡ 4
unfolding height
height-negated = refl

level-IsSound_example : IsSoundAt 2 level nested
level-IsSound_example = level-IsSound 2 nested nested-IsLogical

level-NoneSame_example :
    (us : ComboForest ℕ) × (level nested ≡ node (builtin logical_and) us)
    × NoneSame (builtin logical_and) us
unfolding same_associative
level-NoneSame_example =
    level-NoneSame (builtin logical_and)
      (cons first_leaf (cons (node (builtin logical_and) (cons second_leaf nil)) nil)) refl

downwards-reduce_nots_example :
    IsNnf (downwards reduce_nots 4 negated)
    × IsLogical 2 (downwards reduce_nots 4 negated)
    × ((ρ : Valuation) → truth ρ (downwards reduce_nots 4 negated) ≡ truth ρ negated)
downwards-reduce_nots_example =
    downwards-reduce_nots 2 4 negated (negation nested-IsLogical) (omega (arith, height-negated))

-- and(true $1)
abbrev with_unit : ComboTree ℕ
with_unit =
    node (builtin logical_and) (cons (node (builtin logical_true) nil) (cons first_leaf nil))

some_other : only_units with_unit ≡ false
unfolding only_units
some_other = refl

eval_logical_identities-IsSound_example :
    IsLogical 2 (eval_logical_identities with_unit)
    × ((ρ : Valuation) → truth ρ (eval_logical_identities with_unit) ≡ truth ρ with_unit)
eval_logical_identities-IsSound_example =
    eval_logical_identities-IsSound 2 with_unit
      (conjunction true_leaf (more first_leaf-IsLogical done)) some_other

upwards_loses_true_example :
    (truth valuation (guarded {C = ℕ} 0 (pos 2)) ≡ true)
    × (truth valuation (upwards eval_logical_identities (guarded {C = ℕ} 0 (pos 2)))
        ≡ literal valuation (pos 2))
upwards_loses_true_example = upwards_loses_true ℕ valuation 0 (pos 2)
