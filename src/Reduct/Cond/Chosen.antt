-- ===== src/Reduct/Cond/Chosen.antt =====
-- What a `cond` chooses, with predicates that are logical trees.
use asmoses.Base.{◌≡◌, refl, true, false, if◌then◌else◌, Option, none, some, arith}
use asmoses.Combo.Tree.{
  node, nil, cons, logical_true, logical_false, builtin, ComboTree, ComboForest,
}
use asmoses.Combo.Denote.{Valuation, truth, vertex_truth}
use asmoses.Reduct.Rules.{is_true_node, is_false_node}

module _ {C : Type 0} where
  -- The consequent of the first predicate that is true, or the last one.
  unfoldable pub chosen : Valuation → ComboForest C → Option (ComboTree C)
  chosen ρ nil = none
  chosen ρ (cons x nil) = some x
  chosen ρ (cons p (cons x ts)) = if truth ρ p then some x else chosen ρ ts

  -- Pairs of a predicate and a consequent, and a last consequent.
  pub data AreClauses : ComboForest C → Type 0 where
    last : (x : ComboTree C) → AreClauses (cons x nil)
    clause :
        (p x : ComboTree C) {ts : ComboForest C} → AreClauses ts → AreClauses (cons p (cons x ts))

  pub true-truth : (ρ : Valuation) (t : ComboTree C) → is_true_node t ≡ true → truth ρ t ≡ true
  unfolding truth vertex_truth
  true-truth ρ (node (builtin logical_true) ts) e = refl
  true-truth ρ t e = absurd (ground arith)

  pub false-truth : (ρ : Valuation) (t : ComboTree C) → is_false_node t ≡ true → truth ρ t ≡ false
  unfolding truth vertex_truth
  false-truth ρ (node (builtin logical_false) ts) e = refl
  false-truth ρ t e = absurd (ground arith)

  pub clause-chosen :
      (ρ : Valuation) (p x : ComboTree C) {ts : ComboForest C}
      → AreClauses ts
      → chosen ρ (cons p (cons x ts)) ≡ (if truth ρ p then some x else chosen ρ ts)
  unfolding chosen
  clause-chosen ρ p x (last y) = refl
  clause-chosen ρ p x (clause q y c) = refl
