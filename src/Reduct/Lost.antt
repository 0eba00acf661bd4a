-- ===== src/Reduct/Lost.antt =====
-- `upwards(eval_logical_identities)` loses a conjunction of true constants.
use asmoses.Base.{ℕ, zero, suc, ◌≡◌, refl, ap, true, some, arith}
use asmoses.Base.Int.{ℤ}
use asmoses.Combo.Tree.{
  node, nil, cons, logical_true, logical_and, logical_or, builtin, argument, ComboTree, ComboForest,
}
use asmoses.Combo.Denote.{Valuation, literal, truth, all_true, vertex_truth}
use asmoses.Reduct.Rules.{
  and_identities, or_identities, and_node, or_node, eval_logical_identities, upwards, upwards_all,
}

-- Conjunctions of constants: `count` times `true`.
abbrev pub trues : {C : Type 0} → ℕ → ComboForest C
trues zero = nil
trues (suc k) = cons (node (builtin logical_true) nil) (trues k)

-- or(and(true ... true) $i)
abbrev pub guarded : {C : Type 0} → ℕ → ℤ → ComboTree C
guarded k i =
    node (builtin logical_or)
      (cons (node (builtin logical_and) (trues (suc k))) (cons (node (argument i) nil) nil))

upwards-trues :
    {C : Type 0} (k : ℕ) → upwards_all eval_logical_identities (trues {C = C} k) ≡ trues k
unfolding upwards eval_logical_identities
upwards-trues zero = refl
upwards-trues (suc k) = ap (cons (node (builtin logical_true) nil)) (upwards-trues k)

and_identities-trues : {C : Type 0} (k : ℕ) → and_identities (trues {C = C} k) ≡ some nil
unfolding and_identities
and_identities-trues zero = refl
and_identities-trues (suc k) = and_identities-trues k

upwards-guarded :
    {C : Type 0} (k : ℕ) (i : ℤ)
    → upwards eval_logical_identities (guarded {C = C} k i)
      ≡ node (builtin logical_or) (cons (node (argument i) nil) nil)
unfolding upwards eval_logical_identities and_node or_node or_identities
upwards-guarded k i =
    rw (upwards-trues, and_identities-trues (suc k), eval_logical_identities, or_identities)

all_true-trues : (C : Type 0) (ρ : Valuation) (k : ℕ) → all_true ρ (trues {C = C} k) ≡ true
unfolding truth vertex_truth
all_true-trues C ρ zero = refl
all_true-trues C ρ (suc k) = all_true-trues C ρ k

-- A conjunction of true constants is erased from the disjunction above it: the tree is true, and
-- `upwards(eval_logical_identities)` makes it the other disjunct.
pub upwards_loses_true :
    (C : Type 0) (ρ : Valuation) (k : ℕ) (i : ℤ)
    → (truth ρ (guarded {C = C} k i) ≡ true)
      × (truth ρ (upwards eval_logical_identities (guarded {C = C} k i)) ≡ literal ρ i)
unfolding truth vertex_truth
upwards_loses_true C ρ k i =
    (ground (arith, all_true-trues C ρ k), rw (upwards-guarded) (ground arith))
