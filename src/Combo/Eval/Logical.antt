-- ===== src/Combo/Eval/Logical.antt =====
-- The evaluator computes the truth of a logical tree.
use asmoses.Base.{
  ℕ, zero, suc, ◌≤◌, ◌<◌, ◌≡◌, refl, Bool, true, false, not, some, List, get_elem?, arith,
}
use asmoses.Base.Int.{ℤ, pos, negsuc, nat_abs}
use asmoses.Combo.Tree.{nil, cons, Vertex, ComboTree, ComboForest, height, height_forest}
use asmoses.Combo.Denote.{
  Valuation, literal, IsLogical, AreLogical, truth, all_true, any_true, vertex_truth, true_leaf,
  false_leaf, literal_leaf, conjunction, disjunction, negation, done, more,
}
use asmoses.Combo.Eval.Monad.{
  Floats, ok, Run, leaf, bool_to_vertex, eval_argument, read_argument, negate_vertex, catch_eval,
}
use asmoses.Combo.Eval.Loops.{eval_binding, eval_and, eval_or}
use asmoses.Combo.Eval.Machine.{Procedure, eval_builtin, eval_vertex, eval_node, eval_throws_tree}

module _ {C : Type 0} (bmap : List (Vertex C)) (ρ : Valuation) where
  -- The first `n` arguments hold the values that the valuation gives them.
  abbrev pub Binds : ℕ → Type 0
  Binds n = (i : ℕ) → i < n → get_elem? bmap i ≡ some (bool_to_vertex (ρ (suc i)))

-- What an evaluation of one tree, or of each of several, gives: the vertex of its truth, with the
-- random generator untouched.
module _ {C R : Type 0} (ρ : Valuation) (ev : ComboTree C → Run (Vertex C) R (ComboTree C)) where
  abbrev Evaluates : ComboTree C → Type 0
  Evaluates t = (r : R) → ev t r ≡ ok (leaf (bool_to_vertex (truth ρ t))) r

  abbrev EvaluatesAll : ComboForest C → Type 0
  EvaluatesAll nil = Unit
  EvaluatesAll (cons t ts) = Evaluates t × EvaluatesAll ts

  eval_binding-truth :
      (t : ComboTree C) (r : R)
      → Evaluates t
      → eval_binding ev t r ≡ ok (bool_to_vertex (truth ρ t)) r
  unfolding eval_binding
  eval_binding-truth t r h = ground (arith, h r)

  eval_and_truth :
      (ts : ComboForest C) (r : R)
      → EvaluatesAll ts
      → eval_and ev ts r ≡ ok (bool_to_vertex (all_true ρ ts)) r
  unfolding eval_and truth
  eval_and_truth nil r h = refl
  eval_and_truth (cons t ts) r h =
      ground (arith, eval_binding-truth t r h.0, eval_and_truth ts r h.1)

  eval_or_truth :
      (ts : ComboForest C) (r : R)
      → EvaluatesAll ts
      → eval_or ev ts r ≡ ok (bool_to_vertex (any_true ρ ts)) r
  unfolding eval_or truth
  eval_or_truth nil r h = refl
  eval_or_truth (cons t ts) r h = ground (arith, eval_binding-truth t r h.0, eval_or_truth ts r h.1)

negate_vertex_truth :
    {C R : Type 0} (b : Bool) (r : R)
    → negate_vertex (bool_to_vertex {C = C} b) r ≡ ok (bool_to_vertex (not b)) r
unfolding negate_vertex
negate_vertex_truth true r = refl
negate_vertex_truth false r = refl

eval_literal :
    {C R : Type 0} (bmap : List (Vertex C)) (ρ : Valuation) (n : ℕ) (i : ℤ) (r : R)
    → Binds bmap ρ n
    → 0 < nat_abs i
    → nat_abs i ≤ n
    → eval_argument bmap i r ≡ ok (bool_to_vertex (literal ρ i)) r
unfolding eval_argument read_argument
eval_literal bmap ρ n (pos zero) r binds h k = absurd (omega arith)
eval_literal bmap ρ n (pos (suc i)) r binds h k =
    rw (binds i (omega arith), eval_argument, read_argument)
eval_literal bmap ρ n (negsuc i) r binds h k =
    rw (binds i (omega arith), eval_argument, read_argument) (negate_vertex_truth (ρ (suc i)) r)

module _ (F : Floats) where
  open F use {C, Rng}

  module _ (procs : ℕ → Procedure C) (bmap : List (Vertex C)) (ρ : Valuation) (n : ℕ)
      (binds : Binds bmap ρ n) where
    mutual
      unfolding eval_throws_tree eval_node eval_vertex eval_builtin truth vertex_truth height
          catch_eval

      runs :
          {t : ComboTree C} (fuel : ℕ)
          → IsLogical n t
          → height t ≤ fuel
          → Evaluates ρ (eval_throws_tree F procs fuel bmap) t
      runs zero true_leaf h = absurd (omega arith)
      runs zero false_leaf h = absurd (omega arith)
      runs zero (literal_leaf i p q) h = absurd (omega arith)
      runs zero (conjunction p ps) h = absurd (omega arith)
      runs zero (disjunction p ps) h = absurd (omega arith)
      runs zero (negation p) h = absurd (omega arith)
      runs (suc fuel) true_leaf h = λ r. refl
      runs (suc fuel) false_leaf h = λ r. refl
      runs (suc fuel) (literal_leaf i p q) h =
          λ r. ground (arith, eval_literal bmap ρ n i r binds p q)
      runs (suc fuel) (conjunction {t} {ts} p ps) h = λ r. ground (
        arith,
        eval_and_truth ρ (eval_throws_tree F procs fuel bmap) (cons t ts) r
            (runs fuel p (omega arith), runs_all fuel ps (omega arith)),
      )
      runs (suc fuel) (disjunction {t} {ts} p ps) h = λ r. ground (
        arith,
        eval_or_truth ρ (eval_throws_tree F procs fuel bmap) (cons t ts) r
            (runs fuel p (omega arith), runs_all fuel ps (omega arith)),
      )
      runs (suc fuel) (negation {t} p) h = λ r. ground (
        arith,
        eval_binding-truth ρ (eval_throws_tree F procs fuel bmap) t r (runs fuel p (omega arith)),
        negate_vertex_truth {C = C} (truth ρ t) r,
      )

      runs_all :
          {ts : ComboForest C} (fuel : ℕ)
          → AreLogical n ts
          → height_forest ts ≤ fuel
          → EvaluatesAll ρ (eval_throws_tree F procs fuel bmap) ts
      runs_all fuel done h = tt
      runs_all fuel (more p ps) h = (runs fuel p (omega arith), runs_all fuel ps (omega arith))

    -- With fuel for its height, a logical tree evaluates to the vertex of its truth: nothing is
    -- thrown, no assertion fails and no random number is drawn.
    pub eval-truth :
        (fuel : ℕ) (t : ComboTree C) (r : Rng)
        → IsLogical n t
        → height t ≤ fuel
        → eval_throws_tree F procs fuel bmap t r ≡ ok (leaf (bool_to_vertex (truth ρ t))) r
    eval-truth fuel t r p h = runs fuel p h r
