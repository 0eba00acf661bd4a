-- ===== src/Complexity.antt =====
-- `tree_complexity` of opencog/asmoses/moses/moses/complexity.cc: the size by which candidates are
-- penalized. It is an unsigned of 32 bits. The optional `stopper` cuts the recursion at a subtree.
use asmoses.Base.{
  ℕ, suc, ◌+◌, ◌%◌, ◌^◌, Bool, true, false, ◌||◌, ◌&&◌, if◌then◌else◌, Option, none, some,
}
use asmoses.Combo.Tree.{
  node, nil, cons, null_vertex, logical_true, logical_false, logical_not, times, div, exp, log, sin,
  rand, equ, cond, Vertex, contin, builtin, argument, builtin_action, ann_type, action_symbol,
  action, ComboTree, ComboForest,
}
mod Rules
mod Tests

abbrev pub unsigned_range : ℕ
unsigned_range = 2 ^ 32

module _ {C : Type 0} where
  -- A constant, or the place of a logical knob.
  unfoldable pub is_free : Vertex C → Bool
  is_free (builtin logical_true) = true
  is_free (builtin logical_false) = true
  is_free (builtin null_vertex) = true
  is_free v = false

  abbrev pub is_not_vertex : Vertex C → Bool
  is_not_vertex (builtin logical_not) = true
  is_not_vertex v = false

  -- What counts 1 with its children, if it has any. `is_result` tells the two actions that are
  -- results, `action_failure` and `action_success`.
  unfoldable pub is_unit : (ℕ → Bool) → Vertex C → Bool
  is_unit is_result (argument i) = true
  is_unit is_result (contin c) = true
  is_unit is_result (builtin_action a) = true
  is_unit is_result (ann_type a) = true
  is_unit is_result (action a) = is_result a
  is_unit is_result v = false

  -- The operators that count 1 and their children.
  unfoldable pub weight : Vertex C → ℕ
  weight (builtin div) = 1
  weight (builtin exp) = 1
  weight (builtin log) = 1
  weight (builtin sin) = 1
  weight (builtin rand) = 1
  weight (builtin equ) = 1
  weight (builtin cond) = 1
  weight v = 0

  module _ (is_zero : C → Bool) where
    -- `*(0 stuff)`, the place of a contin knob.
    unfoldable pub is_contin_knob : Vertex C → ComboForest C → Bool
    is_contin_knob (builtin times) (cons (node (contin c) us) ts) = is_zero c
    is_contin_knob v ts = false

  module _ (is_zero : C → Bool) (is_result : ℕ → Bool) (stopper : ComboTree C → Bool) where
    unfoldable mutual
      pub tree_complexity : ComboTree C → ℕ
      tree_complexity (node v ts) =
          let at_not = complexity_first ts in
          let sum = complexity_from (weight v) ts in
          if is_free v || stopper (node v ts) || is_contin_knob is_zero v ts
          then 0
          else (if is_unit is_result v then 1 else (if is_not_vertex v then at_not else sum))

      -- The loop over the children adds to an unsigned.
      pub complexity_from : ℕ → ComboForest C → ℕ
      complexity_from c nil = c
      complexity_from c (cons t ts) = complexity_from ((c + tree_complexity t) % unsigned_range) ts

      -- Only the first child of a negation counts; without one the code reads behind the tree.
      pub complexity_first : ComboForest C → ℕ
      complexity_first nil = 0
      complexity_first (cons t ts) = tree_complexity t
