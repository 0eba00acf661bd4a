-- ===== src/Combo/Eval/Monad.antt =====
-- Evaluation results, and the vertex helpers of opencog/asmoses/combo/combo/vertex.h that the
-- evaluator calls.
use asmoses.Base.{ℕ, zero, suc, Bool, true, false, none, some, List, get_elem?}
use asmoses.Base.Int.{ℤ, pos, negsuc}
use asmoses.Combo.Tree.{
  node, nil, cons, logical_true, logical_false, list, Vertex, contin, builtin, ComboTree,
  ComboForest,
}

-- The floating-point numbers and the random generator, which belong to the platform.
pub record Floats : Type 1 where
  pub C : Type 0
  pub zero_c : C
  pub one_c : C
  pub add : C → C → C
  pub mul : C → C → C
  pub divide : C → C → C
  pub log_c : C → C
  pub exp_c : C → C
  pub sin_c : C → C
  pub is_zero : C → Bool
  pub is_positive : C → Bool
  pub is_nan : C → Bool
  pub is_inf : C → Bool
  pub Rng : Type 0
  pub randfloat : Rng → C × Rng

-- The ways to stop without a value: `OverflowException` and `EvalException`, which carry a vertex;
-- a `ComboException`; a failed `OC_ASSERT`; a `boost::get` of another type; a step that C++ leaves
-- undefined; and a model that ran out of fuel.
pub data Stop (V : Type 0) : Type 0 where
  overflow : V → Stop V
  eval_error : V → Stop V
  combo_error : Stop V
  asserted : Stop V
  bad_get : Stop V
  undefined : Stop V
  out_of_fuel : Stop V

pub data Result (V R A : Type 0) : Type 0 where
  ok : A → R → Result V R A
  stop : Stop V → R → Result V R A

-- A computation over the state of the random generator.
abbrev pub Run : Type 0 → Type 0 → Type 0 → Type 0
Run V R A = R → Result V R A

infixl 5 ◌>>=◌
abbrev pub ◌>>=◌ : {V R A B : Type 0} → Run V R A → (A → Run V R B) → Run V R B
◌>>=◌ m f r = elim (m r) [ ok a r' ↦ f a r' | stop e r' ↦ stop e r' ]

abbrev pub pure : {V R A : Type 0} → A → Run V R A
pure a r = ok a r

abbrev pub fail : {V R A : Type 0} → Stop V → Run V R A
fail e r = stop e r

module _ {C : Type 0} where
  -- `v == id::b`
  abbrev pub is_true : Vertex C → Bool
  is_true (builtin logical_true) = true
  is_true _ = false

  abbrev pub is_false : Vertex C → Bool
  is_false (builtin logical_false) = true
  is_false _ = false

  abbrev pub is_list : Vertex C → Bool
  is_list (builtin list) = true
  is_list _ = false

  abbrev pub leaf : Vertex C → ComboTree C
  leaf v = node v nil

  abbrev pub bool_to_vertex : Bool → Vertex C
  bool_to_vertex true = builtin logical_true
  bool_to_vertex false = builtin logical_false

module _ {C R : Type 0} where
  -- `get_contin`
  unfoldable pub get_contin : Vertex C → Run (Vertex C) R C
  get_contin (contin c) = pure c
  get_contin _ = fail bad_get

  -- `negate_vertex` and `negate_builtin`
  unfoldable pub negate_vertex : Vertex C → Run (Vertex C) R (Vertex C)
  negate_vertex (builtin logical_true) = pure (builtin logical_false)
  negate_vertex (builtin logical_false) = pure (builtin logical_true)
  negate_vertex (builtin _) = fail asserted
  negate_vertex _ = fail bad_get

  -- `bmap[n]`; outside the vector it is undefined.
  unfoldable pub read_argument : List (Vertex C) → ℕ → Run (Vertex C) R (Vertex C)
  read_argument bmap n = elim (get_elem? bmap n) [ none ↦ fail undefined | some v ↦ pure v ]

  unfoldable pub eval_argument : List (Vertex C) → ℤ → Run (Vertex C) R (Vertex C)
  eval_argument bmap (pos zero) = fail undefined
  eval_argument bmap (pos (suc n)) = read_argument bmap n
  eval_argument bmap (negsuc n) = do v ← read_argument bmap n; negate_vertex v

  -- `catch (OverflowException& e) { x = e.get_vertex(); }`
  unfoldable pub catch_overflow : Run (Vertex C) R (Vertex C) → Run (Vertex C) R (Vertex C)
  catch_overflow m r = elim (m r) [
    | ok v r' ↦ ok v r'
    | stop e r' ↦ elim e [ overflow v ↦ ok v r' | other ↦ stop other r' ]
  ]

  -- `catch (EvalException& e)` around the operators that return one vertex.
  unfoldable pub catch_eval : Run (Vertex C) R (Vertex C) → Run (Vertex C) R (ComboTree C)
  catch_eval m r = elim (m r) [
    | ok v r' ↦ ok (leaf v) r'
    | stop e r' ↦ elim e [ eval_error v ↦ ok (leaf v) r' | other ↦ stop other r' ]
  ]

  -- The first and the second child; without one, `it.begin()` has nothing to read.
  abbrev pub first : ComboForest C → Run (Vertex C) R (ComboTree C)
  first nil = fail undefined
  first (cons t ts) = pure t

  abbrev pub second : ComboForest C → Run (Vertex C) R (ComboTree C)
  second nil = fail undefined
  second (cons t ts) = first ts
