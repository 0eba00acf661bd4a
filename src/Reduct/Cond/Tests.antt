-- ===== src/Reduct/Cond/Tests.antt =====
-- Reductions of small conditionals, without constants.
use asmoses.Base.{ℕ, ◌≡◌, refl, Bool, true, false, some, none, arith}
use asmoses.Base.Int.{pos}
use asmoses.Combo.Tree.{
  node, nil, cons, logical_true, logical_false, logical_or, logical_not, cond, Vertex, builtin,
  argument, ComboTree, ComboForest,
}
use asmoses.Combo.Denote.{Valuation}
use asmoses.Reduct.Cond.{
  zap_one, const_clauses, reduce_cond_const, reduce_cond_adjacent, join_adjacent, equal_subtree,
}
use asmoses.Reduct.Cond.Chosen.{chosen, AreClauses, last, clause}
use asmoses.Reduct.Cond.Same.{IsSame}
use asmoses.Reduct.Cond.Sound.{
  const_clauses-chosen, join_adjacent-chosen, reduce_cond_const-undefined, some_true, some_false,
}

abbrev arg : ℕ → ComboTree ℕ
arg i = node (argument (pos i)) nil

abbrev yes_node : ComboTree ℕ
yes_node = node (builtin logical_true) nil

abbrev no_node : ComboTree ℕ
no_node = node (builtin logical_false) nil

-- `cond(false $1 $2 $3 false $4 $5)`
abbrev constants : ComboForest ℕ
constants =
    cons no_node
      (cons (arg 1) (cons (arg 2) (cons (arg 3) (cons no_node (cons (arg 4) (cons (arg 5) nil))))))

constants-AreClauses : AreClauses constants
constants-AreClauses =
    clause no_node (arg 1) (clause (arg 2) (arg 3) (clause no_node (arg 4) (last (arg 5))))

reduced : const_clauses constants ≡ some (cons (arg 2) (cons (arg 3) (cons (arg 5) nil)))
unfolding const_clauses
reduced = refl

no_constants-true : some_true constants ≡ false
unfolding some_true
no_constants-true = refl

const_clauses-chosen_example :
    (us : ComboForest ℕ) × (const_clauses constants ≡ some us)
    × AreClauses us
    × (some_true us ≡ false)
    × (some_false us ≡ false)
    × ((ρ : Valuation) → chosen ρ us ≡ chosen ρ constants)
const_clauses-chosen_example = const_clauses-chosen constants constants-AreClauses no_constants-true

-- `cond($1 $2 true $3 $4)`
abbrev settled : ComboForest ℕ
settled = cons (arg 1) (cons (arg 2) (cons yes_node (cons (arg 3) (cons (arg 4) nil))))

settled-true : some_true settled ≡ true
unfolding some_true
settled-true = refl

reduce_cond_const-undefined_example : reduce_cond_const (node (builtin cond) settled) ≡ none
reduce_cond_const-undefined_example =
    reduce_cond_const-undefined settled
      (clause (arg 1) (arg 2) (clause yes_node (arg 3) (last (arg 4)))) settled-true

-- `zap_one` keeps the vertex of the last consequent, and loses what is below it.
lost :
    reduce_cond_const (
      node
        (builtin cond)
        (cons no_node (cons (arg 1) (cons (node (builtin logical_not) (cons (arg 2) nil)) nil))))
    ≡ some (node (builtin logical_not) nil)
unfolding reduce_cond_const const_clauses zap_one
lost = refl

-- Only the constants are compared here.
abbrev same_constant : Vertex ℕ → Vertex ℕ → Bool
same_constant (builtin logical_true) (builtin logical_true) = true
same_constant v w = false

same_constant-IsSame : IsSame same_constant
same_constant-IsSame (builtin logical_true) (builtin logical_true) h = refl
same_constant-IsSame v w h = absurd (ground (arith, h))

abbrev pairs : ComboForest ℕ
pairs = cons (arg 1) (cons yes_node (cons (arg 2) (cons yes_node (cons (arg 3) nil))))

pairs-AreClauses : AreClauses pairs
pairs-AreClauses = clause (arg 1) yes_node (clause (arg 2) yes_node (last (arg 3)))

joined :
    reduce_cond_adjacent same_constant (node (builtin cond) pairs)
    ≡ node (builtin cond) (
        cons
          (node (builtin logical_or) (cons (arg 1) (cons (arg 2) nil)))
          (cons yes_node (cons (arg 3) nil)))
unfolding reduce_cond_adjacent join_adjacent equal_subtree
joined = refl

join_adjacent-chosen_example :
    AreClauses (join_adjacent same_constant pairs)
    × ((ρ : Valuation) → chosen ρ (join_adjacent same_constant pairs) ≡ chosen ρ pairs)
join_adjacent-chosen_example =
    join_adjacent-chosen same_constant same_constant-IsSame pairs pairs-AreClauses
