-- ===== src/Reduct/Rules.antt =====
-- Rules of opencog/asmoses/reduct/rules/logical_rules.cc and general_rules.cc, and the strategies
-- of meta_rules.cc that apply them. A rule changes the subtree at an iterator in place: here it
-- maps that subtree to the new one, and takes the parent's vertex where the code looks at it.
use asmoses.Base.{
  ℕ, zero, suc, Bool, true, false, ◌&&◌, ◌||◌, ◌==◌, ltb, if◌then◌else◌, Option, none, some, List,
  [], ◌∷◌,
}
use asmoses.Combo.Tree.{
  node, nil, cons, logical_true, logical_false, logical_and, logical_or, logical_not, impulse, plus,
  times, Vertex, builtin, argument, action, ComboTree, ComboForest, append, map_forest,
  negate_argument,
}

abbrev pub Rule : Type 0 → Type 0
Rule C = ComboTree C → ComboTree C

module _ {C : Type 0} where
  abbrev pub is_and : Vertex C → Bool
  is_and (builtin logical_and) = true
  is_and _ = false

  abbrev pub is_or : Vertex C → Bool
  is_or (builtin logical_or) = true
  is_or _ = false

  -- A childless junctor, which the rules take for nothing.
  abbrev pub is_empty_and : ComboTree C → Bool
  is_empty_and (node (builtin logical_and) nil) = true
  is_empty_and _ = false

  abbrev pub is_empty_or : ComboTree C → Bool
  is_empty_or (node (builtin logical_or) nil) = true
  is_empty_or _ = false

  abbrev pub is_true_node : ComboTree C → Bool
  is_true_node (node (builtin logical_true) ts) = true
  is_true_node _ = false

  abbrev pub is_false_node : ComboTree C → Bool
  is_false_node (node (builtin logical_false) ts) = true
  is_false_node _ = false

  -- `insert_ands`: the parent is absent, or is boolean.
  unfoldable pub takes_and : Option (Vertex C) → Bool
  takes_and none = true
  takes_and (some (builtin logical_or)) = true
  takes_and (some (builtin impulse)) = true
  takes_and (some (builtin logical_not)) = true
  takes_and (some v) = false

  unfoldable pub insert_ands : Option (Vertex C) → Rule C
  insert_ands parent (node (argument i) ts) =
      if takes_and parent
      then node (builtin logical_and) (cons (node (argument i) ts) nil)
      else node (argument i) ts
  insert_ands parent (node (builtin logical_or) ts) =
      if takes_and parent
      then node (builtin logical_and) (cons (node (builtin logical_or) ts) nil)
      else node (builtin logical_or) ts
  insert_ands parent t = t

  -- `remove_unary_junctors`: the one child takes the place of the junctor.
  unfoldable pub remove_unary_junctors : Rule C
  remove_unary_junctors (node (builtin logical_and) (cons t nil)) = t
  remove_unary_junctors (node (builtin logical_or) (cons t nil)) = t
  remove_unary_junctors t = t

  -- The loop of `eval_logical_identities` at an `and`; `none` is the false that stops it.
  unfoldable pub and_identities : ComboForest C → Option (ComboForest C)
  and_identities nil = some nil
  and_identities (cons t ts) =
      let rest = and_identities ts in
      if is_empty_or t || is_true_node t
      then rest
      else if is_false_node t
      then none
      else (elim rest [ none ↦ none | some us ↦ some (cons t us) ])

  unfoldable pub or_identities : ComboForest C → Option (ComboForest C)
  or_identities nil = some nil
  or_identities (cons t ts) =
      let rest = or_identities ts in
      if is_empty_and t || is_false_node t
      then rest
      else if is_true_node t
      then none
      else (elim rest [ none ↦ none | some us ↦ some (cons t us) ])

  unfoldable pub and_node : Option (ComboForest C) → ComboTree C
  and_node none = node (builtin logical_false) nil
  and_node (some ts) = node (builtin logical_and) ts

  unfoldable pub or_node : Option (ComboForest C) → ComboTree C
  or_node none = node (builtin logical_true) nil
  or_node (some ts) = node (builtin logical_or) ts

  unfoldable pub eval_logical_identities : Rule C
  eval_logical_identities (node (builtin logical_and) ts) = and_node (and_identities ts)
  eval_logical_identities (node (builtin logical_or) (cons t nil)) = t
  eval_logical_identities (node (builtin logical_or) ts) = or_node (or_identities ts)
  eval_logical_identities t = t

  abbrev pub not_node : ComboTree C → ComboTree C
  not_node t = node (builtin logical_not) (cons t nil)

  -- `reduce_nots` at a negation of one tree; its rule is for such negations.
  unfoldable pub reduce_nots : Rule C
  reduce_nots (node (builtin logical_not) (cons (node (builtin logical_not) (cons t nil)) nil)) =
      reduce_nots t
  reduce_nots (node (builtin logical_not) (cons (node (builtin logical_and) ts) nil)) =
      node (builtin logical_or) (map_forest not_node ts)
  reduce_nots (node (builtin logical_not) (cons (node (builtin logical_or) ts) nil)) =
      node (builtin logical_and) (map_forest not_node ts)
  reduce_nots (node (builtin logical_not) (cons (node (argument i) ts) nil)) =
      node (argument (negate_argument i)) nil
  reduce_nots (node (builtin logical_not) (cons (node (builtin logical_true) ts) nil)) =
      node (builtin logical_false) nil
  reduce_nots (node (builtin logical_not) (cons (node (builtin logical_false) ts) nil)) =
      node (builtin logical_true) nil
  reduce_nots t = t

  -- Two vertices are the same operator of `is_associative`. The actions that it lists,
  -- sequential_and, sequential_or and sequential_exec, are the first three of the enumeration.
  unfoldable pub same_associative : Vertex C → Vertex C → Bool
  same_associative (builtin logical_and) w = is_and w
  same_associative (builtin logical_or) w = is_or w
  same_associative (builtin plus) (builtin plus) = true
  same_associative (builtin times) (builtin times) = true
  same_associative (action a) (action b) = ltb a 3 && (a == b)
  same_associative v w = false

  -- What `level` puts in place of a child: its own children, themselves levelled, if it is the
  -- operator of its parent.
  unfoldable mutual
    pub flatten : Vertex C → ComboTree C → ComboForest C
    flatten v (node w ts) =
        let inner = flatten_all v ts in if same_associative v w then inner else cons (node w ts) nil

    pub flatten_all : Vertex C → ComboForest C → ComboForest C
    flatten_all v nil = nil
    flatten_all v (cons t ts) = append (flatten v t) (flatten_all v ts)

  unfoldable pub level : Rule C
  level (node v ts) = if same_associative v v then node v (flatten_all v ts) else node v ts

module _ {C : Type 0} (r : Rule C) where
  -- `upwards`: from the leaves of the subtree to its root.
  unfoldable mutual
    pub upwards : Rule C
    upwards (node v ts) = r (node v (upwards_all ts))

    pub upwards_all : ComboForest C → ComboForest C
    upwards_all nil = nil
    upwards_all (cons t ts) = cons (upwards t) (upwards_all ts)

-- `downwards`, with no type given: the rule is applied at the root, then to the children that it
-- left there. The fuel bounds the height of what is visited.
abbrev pub descend : {C : Type 0} → Rule C → Rule C
descend f (node v ts) = node v (map_forest f ts)

unfoldable pub downwards : {C : Type 0} → Rule C → ℕ → Rule C
downwards r zero t = t
downwards r (suc fuel) t = descend (downwards r fuel) (r t)

-- `sequential`
unfoldable pub sequential : {C : Type 0} → List (Rule C) → Rule C
sequential [] t = t
sequential (r ∷ rs) t = sequential rs (r t)
