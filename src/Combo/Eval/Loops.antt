-- ===== src/Combo/Eval/Loops.antt =====
-- The loops of opencog/asmoses/combo/interpreter/eval.cc over the children of a node, given the
-- evaluation of one tree.
use asmoses.Base.{if◌then◌else◌}
use asmoses.Combo.Tree.{
  nil, cons, logical_true, logical_false, Vertex, builtin, ComboTree, ComboForest, root,
  is_childless,
}
use asmoses.Combo.Eval.Monad.{asserted, Run, ◌>>=◌, pure, fail, is_true, is_false}

module _ {C R : Type 0} (ev : ComboTree C → Run (Vertex C) R (ComboTree C)) where
  -- `eval_throws_binding`: the result has to be one vertex.
  unfoldable pub eval_binding : ComboTree C → Run (Vertex C) R (Vertex C)
  eval_binding t = do tr ← ev t; if is_childless tr then pure (root tr) else fail asserted

  unfoldable pub eval_and : ComboForest C → Run (Vertex C) R (Vertex C)
  eval_and nil = pure (builtin logical_true)
  eval_and (cons t ts) = do
    v ← eval_binding t
    let rest = eval_and ts
    if is_false v then pure (builtin logical_false) else rest

  unfoldable pub eval_or : ComboForest C → Run (Vertex C) R (Vertex C)
  eval_or nil = pure (builtin logical_false)
  eval_or (cons t ts) = do
    v ← eval_binding t
    let rest = eval_or ts
    if is_true v then pure (builtin logical_true) else rest

  unfoldable pub eval_children : ComboForest C → Run (Vertex C) R (ComboForest C)
  eval_children nil = pure nil
  eval_children (cons t ts) = do u ← ev t; us ← eval_children ts; pure (cons u us)

  -- The loop of `cond`: conditions and consequents in turn, and a last value without condition.
  unfoldable pub eval_cond : ComboForest C → Run (Vertex C) R (ComboTree C)
  eval_cond nil = fail asserted
  eval_cond (cons p nil) = ev p
  eval_cond (cons p (cons x ts)) = do
    tr ← ev p
    let rest = eval_cond ts
    if is_true (root tr) then ev x else rest
