-- ===== src/Reduct/Cond.antt =====
-- Rules of opencog/asmoses/reduct/rules/branch_rules.cc on `cond`, whose children are a predicate and
-- a consequent in turn, and a last consequent. `none` is undefined: a read behind
-- the last child, or a step from a child that has been erased, which `reduce_cond_const` takes wherever
-- a child follows the consequent of a true predicate.
use asmoses.Base.{ℕ, Bool, true, false, ◌==◌, ◌||◌, if◌then◌else◌, Option, none, some}
use asmoses.Combo.Tree.{
  Tree, Forest, node, nil, cons, logical_or, cond, contin_if, Vertex, builtin, ComboTree,
  ComboForest, count,
}
use asmoses.Reduct.Rules.{is_true_node, is_false_node}
mod Chosen
mod Same
pub mod Sound
mod Tests

module _ {C : Type 0} where
  -- `zap_one`: the vertex of the first child goes to the top, and the child is erased with all that
  -- is below it.
  unfoldable pub zap_one : ComboTree C → ComboTree C
  zap_one (node v nil) = node v nil
  zap_one (node v (cons (node w us) ts)) = node w ts

  -- `for (; sib != it.end(); ++sib) tr.erase(sib)`: with a child to erase, it steps on from a freed node.
  unfoldable pub truncate : ComboForest C → Option (ComboForest C)
  truncate nil = some nil
  truncate (cons t ts) = none

  -- The loop of `reduce_cond_const`.
  unfoldable pub const_clauses : ComboForest C → Option (ComboForest C)
  const_clauses nil = none
  const_clauses (cons x nil) = some (cons x nil)
  const_clauses (cons p (cons x ts)) =
      let rest = const_clauses ts in
      if is_true_node p
      then (elim (truncate ts) [ none ↦ none | some us ↦ some (cons x us) ])
      else (if is_false_node p
          then rest
          else (elim rest [ none ↦ none | some us ↦ some (cons p (cons x us)) ]))

  abbrev pub is_branch : Vertex C → Bool
  is_branch (builtin cond) = true
  is_branch (builtin contin_if) = true
  is_branch v = false

  abbrev pub is_cond : Vertex C → Bool
  is_cond (builtin cond) = true
  is_cond v = false

  unfoldable pub reduce_cond_const : ComboTree C → Option (ComboTree C)
  reduce_cond_const (node v ts) =
      let reduced : Option (ComboTree C) = elim (const_clauses ts) [
        | none ↦ none
        | some us ↦ some (if count us == 1 then zap_one (node v us) else node v us)
      ] in
      if is_branch v then reduced else some (node v ts)

module _ {A : Type 0} (same : A → A → Bool) where
  unfoldable mutual
    pub equal_subtree : Tree A → Tree A → Bool
    equal_subtree (node v ts) (node w us) =
        let below = equal_forest ts us in if same v w then below else false

    pub equal_forest : Forest A → Forest A → Bool
    equal_forest nil nil = true
    equal_forest nil (cons u us) = false
    equal_forest (cons t ts) nil = false
    equal_forest (cons t ts) (cons u us) =
        let rest = equal_forest ts us in if equal_subtree t u then rest else false

module _ {C : Type 0} (same : Vertex C → Vertex C → Bool) where
  -- The loop of `reduce_cond_adjacent`, which goes on behind a pair that it has joined.
  unfoldable pub join_adjacent : ComboForest C → ComboForest C
  join_adjacent (cons p (cons x (cons q (cons y (cons z ts))))) =
      let joined = join_adjacent (cons z ts) in
      let kept = join_adjacent (cons q (cons y (cons z ts))) in
      if equal_subtree same x y
      then cons (node (builtin logical_or) (cons p (cons q nil))) (cons x joined)
      else cons p (cons x kept)
  join_adjacent ts = ts

  unfoldable pub reduce_cond_adjacent : ComboTree C → ComboTree C
  reduce_cond_adjacent (node v ts) = if is_cond v then node v (join_adjacent ts) else node v ts
