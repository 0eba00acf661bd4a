-- ===== src/Combo/Eval/Machine.antt =====
-- `eval_throws_vertex`, `eval_procedure_tree` and `eval_throws_tree` of
-- opencog/asmoses/combo/interpreter/eval.cc. `eval_throws_tree` calls itself on trees that it
-- builds, so it runs on fuel.
use asmoses.Base.{
  ℕ, zero, suc, Bool, true, false, ◌||◌, ◌==◌, ltb, if◌then◌else◌, Option, none, some, List, [],
  ◌∷◌,
}
use asmoses.Base.Int.{ℤ, pos, negsuc}
use asmoses.Combo.Tree.{
  Tree, node, Forest, nil, cons, Builtin, logical_true, logical_false, logical_and, logical_or,
  logical_not, plus, times, div, exp, log, sin, greater_than_zero, impulse, rand, list, car, cdr,
  cons_op, foldr, foldl, cond, lambda, apply, contin_if, Vertex, contin, enum_type, builtin,
  argument, procedure_call, ComboTree, ComboForest, root, children, is_childless, append, count,
}
use asmoses.Combo.Eval.Monad.{
  Floats, overflow, eval_error, combo_error, asserted, undefined, out_of_fuel, ok, Run, ◌>>=◌, pure,
  fail, is_true, is_list, leaf, bool_to_vertex, get_contin, negate_vertex, eval_argument,
  catch_overflow, catch_eval, first, second,
}
use asmoses.Combo.Eval.Loops.{eval_binding, eval_and, eval_or, eval_children, eval_cond}

-- The last child, and the children without it.
module _ {A : Type 0} where
  unfoldable pub last : Forest A → Option (Tree A)
  last nil = none
  last (cons t nil) = some t
  last (cons t (cons u us)) = last (cons u us)

  unfoldable pub drop_last : Forest A → Forest A
  drop_last nil = nil
  drop_last (cons t nil) = nil
  drop_last (cons t (cons u us)) = cons t (drop_last (cons u us))

-- A procedure: its arity, negative where it takes any number from a minimum on, and its body.
pub record Procedure (C : Type 0) : Type 0 where
  pub arity : ℤ
  pub body : ComboTree C

-- `abs_min_arity` for a negative arity, and the checks of `eval_procedure_tree`.
unfoldable pub arity_fits : ℤ → ℕ → Bool
arity_fits (pos n) args = args == n
arity_fits (negsuc n) args = if ltb args n then false else true

module _ (F : Floats) where
  open F use {
    C, zero_c, one_c, add, mul, divide, log_c, exp_c, sin_c, is_zero, is_positive, is_nan, is_inf,
    Rng, randfloat,
  }

  -- A result that is no number is thrown.
  unfoldable pub checked : C → Run (Vertex C) Rng (Vertex C)
  checked c = if is_nan c || is_inf c then fail (overflow (contin c)) else pure (contin c)

  unfoldable pub draw : Run (Vertex C) Rng (Vertex C)
  draw r = ok (contin (randfloat r).0) (randfloat r).1

  module _ (ev : ComboTree C → Run (Vertex C) Rng (ComboTree C)) where
    unfoldable pub eval_contin : ComboTree C → Run (Vertex C) Rng C
    eval_contin t = do v ← eval_binding ev t; get_contin v

    unfoldable pub eval_sum : C → ComboForest C → Run (Vertex C) Rng (Vertex C)
    eval_sum res nil = pure (contin res)
    eval_sum res (cons t ts) = do c ← eval_contin t; eval_sum (add res c) ts

    -- The product stops at zero.
    unfoldable pub eval_product : C → ComboForest C → Run (Vertex C) Rng (Vertex C)
    eval_product res nil = pure (contin res)
    eval_product res (cons t ts) = do
      c ← eval_contin t
      let rest = eval_product (mul res c) ts
      if is_zero (mul res c) then pure (contin (mul res c)) else rest

    unfoldable pub eval_div : ComboForest C → Run (Vertex C) Rng (Vertex C)
    eval_div ts = do
      t ← first ts
      x ← eval_contin t
      let quotient = do u ← second ts; y ← eval_contin u; checked (divide x y)
      if is_zero x then pure (contin x) else quotient

    unfoldable pub eval_builtin : Builtin → ComboForest C → Run (Vertex C) Rng (Vertex C)
    eval_builtin logical_false ts = pure (builtin logical_false)
    eval_builtin logical_true ts = pure (builtin logical_true)
    eval_builtin logical_and nil = pure (builtin logical_and)
    eval_builtin logical_and (cons t ts) = eval_and ev (cons t ts)
    eval_builtin logical_or nil = pure (builtin logical_or)
    eval_builtin logical_or (cons t ts) = eval_or ev (cons t ts)
    eval_builtin logical_not ts = do t ← first ts; v ← eval_binding ev t; negate_vertex v
    eval_builtin greater_than_zero ts = do
      t ← first ts
      x ← catch_overflow (eval_binding ev t)
      c ← get_contin x
      pure (bool_to_vertex (is_positive c))
    eval_builtin impulse ts = do
      t ← first ts
      i ← eval_binding ev t
      pure (contin (if is_true i then one_c else zero_c))
    eval_builtin plus nil = pure (builtin plus)
    eval_builtin plus (cons t ts) = eval_sum zero_c (cons t ts)
    eval_builtin times nil = pure (builtin times)
    eval_builtin times (cons t ts) = eval_product one_c (cons t ts)
    eval_builtin div ts = eval_div ts
    eval_builtin log ts = do t ← first ts; x ← eval_contin t; checked (log_c x)
    eval_builtin exp ts = do
      t ← first ts
      x ← eval_contin t
      if is_inf (exp_c x) then fail (overflow (contin (exp_c x))) else pure (contin (exp_c x))
    eval_builtin sin ts = do t ← first ts; x ← eval_contin t; pure (contin (sin_c x))
    eval_builtin rand ts = draw
    eval_builtin b ts = fail asserted

    unfoldable pub eval_vertex :
        List (Vertex C) → Vertex C → ComboForest C → Run (Vertex C) Rng (Vertex C)
    eval_vertex bmap (argument i) ts = eval_argument bmap i
    eval_vertex bmap (builtin b) ts = eval_builtin b ts
    eval_vertex bmap (contin c) ts =
        if is_nan c || is_inf c then fail (overflow (contin c)) else pure (contin c)
    eval_vertex bmap (enum_type n) ts = pure (enum_type n)
    eval_vertex bmap v ts = fail (eval_error v)

  module _ (procs : ℕ → Procedure C)
      (evb : List (Vertex C) → ComboTree C → Run (Vertex C) Rng (ComboTree C))
      (bmap : List (Vertex C)) where
    abbrev ev : ComboTree C → Run (Vertex C) Rng (ComboTree C)
    ev = evb bmap

    -- The loop over the arguments of a procedure: each is evaluated, must have no children itself,
    -- and gives the vertex at the root of its value.
    unfoldable pub eval_args : ComboForest C → Run (Vertex C) Rng (List (Vertex C))
    eval_args nil = pure []
    eval_args (cons t ts) = do
      u ← ev t
      let rest = do vs ← eval_args ts; pure (root u ∷ vs)
      if is_childless t then rest else fail asserted

    unfoldable pub eval_procedure_tree : ℕ → ComboForest C → Run (Vertex C) Rng (ComboTree C)
    eval_procedure_tree p ts =
        if arity_fits (procs p).arity (count ts)
        then (do args ← eval_args ts; evb args (procs p).body)
        else fail combo_error

    -- The list of `car` and `cdr`: taken as it stands if it is one, else evaluated.
    unfoldable pub eval_list : ComboForest C → Run (Vertex C) Rng (ComboForest C)
    eval_list ts = do
      t ← first ts
      let evaluated = ev t
      l ← if is_list (root t) then pure t else evaluated
      if is_list (root l) then pure (children l) else fail combo_error

    -- The head of a list; the empty list stands for the head of the empty list.
    unfoldable pub eval_car : ComboForest C → Run (Vertex C) Rng (ComboTree C)
    eval_car ts = do
      l ← eval_list ts
      elim l [ nil ↦ pure (leaf (builtin list)) | cons t us ↦ ev t ]

    -- The tail of a list; stepping past the end of the empty list is undefined.
    unfoldable pub eval_cdr : ComboForest C → Run (Vertex C) Rng (ComboTree C)
    eval_cdr ts = do
      l ← eval_list ts
      elim l [
        | nil ↦ fail undefined
        | cons t us ↦ do vs ← eval_children ev us; pure (node (builtin list) vs)
      ]

    unfoldable pub eval_cons : ComboForest C → Run (Vertex C) Rng (ComboTree C)
    eval_cons nil = pure (leaf (builtin cons_op))
    eval_cons (cons t ts) = do
      h ← ev t
      u ← first ts
      l ← ev u
      pure (node (builtin list) (cons h (children l)))

    unfoldable pub foldr_step : ComboTree C → ComboForest C → Run (Vertex C) Rng (ComboTree C)
    foldr_step l ts = do
      f ← first ts
      h ← ev (node (builtin car) (cons l nil))
      tail ← ev (node (builtin cdr) (cons l nil))
      rest ← ev (node (builtin foldr) (append (drop_last ts) (cons tail nil)))
      ev (node (root f) (append (children f) (cons h (cons rest nil))))

    -- foldr(f v l) is v for the empty list, else f(car(l) foldr(f v cdr(l))).
    unfoldable pub eval_foldr : ComboForest C → Run (Vertex C) Rng (ComboTree C)
    eval_foldr ts = elim (last ts) [
      | none ↦ fail undefined
      | some l ↦
          if is_childless l
          then (elim (last (drop_last ts)) [ none ↦ fail undefined | some v ↦ ev v ])
          else foldr_step l ts
    ]

    unfoldable pub foldl_step : ComboTree C → ComboForest C → Run (Vertex C) Rng (ComboTree C)
    foldl_step l ts = do
      lst ← ev l
      f ← first ts
      v ← second ts
      h ← ev (node (builtin car) (cons lst nil))
      tail ← ev (node (builtin cdr) (cons lst nil))
      let next = node (root f) (append (children f) (cons v (cons h nil)))
      ev (node (builtin foldl) (append (drop_last (drop_last ts)) (cons next (cons tail nil))))

    -- foldl(f v l) is v for the empty list, else foldl(f f(v car(l)) cdr(l)).
    unfoldable pub eval_foldl : ComboForest C → Run (Vertex C) Rng (ComboTree C)
    eval_foldl ts = elim (last ts) [
      | none ↦ fail undefined
      | some l ↦
          if is_childless l
          then (elim (last (drop_last ts)) [ none ↦ fail undefined | some v ↦ ev v ])
          else foldl_step l ts
    ]

    unfoldable pub eval_node : Vertex C → ComboForest C → Run (Vertex C) Rng (ComboTree C)
    eval_node (builtin list) ts = do us ← eval_children ev ts; pure (node (builtin list) us)
    eval_node (builtin car) ts = eval_car ts
    eval_node (builtin cdr) ts = eval_cdr ts
    eval_node (builtin cons_op) ts = eval_cons ts
    eval_node (builtin foldr) ts = eval_foldr ts
    eval_node (builtin foldl) ts = eval_foldl ts
    eval_node (builtin lambda) ts = pure (node (builtin lambda) ts)
    eval_node (builtin apply) ts = fail asserted
    eval_node (builtin contin_if) ts = eval_cond ev ts
    eval_node (builtin cond) ts = eval_cond ev ts
    eval_node (procedure_call p) nil = pure (leaf (procedure_call p))
    eval_node (procedure_call p) (cons t ts) = eval_procedure_tree p (cons t ts)
    eval_node v ts = catch_eval (eval_vertex ev bmap v ts)

  unfoldable pub eval_throws_tree :
      (ℕ → Procedure C) → ℕ → List (Vertex C) → ComboTree C → Run (Vertex C) Rng (ComboTree C)
  eval_throws_tree procs zero bmap t = fail out_of_fuel
  eval_throws_tree procs (suc fuel) bmap (node v ts) =
      eval_node procs (eval_throws_tree procs fuel) bmap v ts
