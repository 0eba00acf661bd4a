-- ===== src/Combo/Tree.antt =====
-- Combo trees: `tree<vertex>` of opencog/asmoses/utils/tree.h over the vertices of
-- opencog/asmoses/combo/combo/vertex.h. A node's children are a list, in the order of the siblings.
use asmoses.Base.{ℕ, suc, Bool, true, false}
use asmoses.Base.Int.{ℤ, neg}
use Prim.Native.Nat.{max}

mutual
  pub data Tree (A : Type 0) : Type 0 where
    node : A → Forest A → Tree A

  pub data Forest (A : Type 0) : Type 0 where
    nil : Forest A
    cons : Tree A → Forest A → Forest A

pub data Builtin : Type 0 where
  null_vertex logical_true logical_false logical_and logical_or logical_not : Builtin
  plus times div exp log sin greater_than_zero impulse rand : Builtin
  list car cdr cons_op foldr foldl : Builtin
  cond equ lambda apply contin_if : Builtin

-- `vertex`, over the type `C` of floating-point constants. Named things (enumerations, actions,
-- perceptions, objects, messages, procedures) are known by a number.
pub data Vertex (C : Type 0) : Type 0 where
  contin : C → Vertex C
  enum_type : ℕ → Vertex C
  builtin : Builtin → Vertex C
  wild_card : ℕ → Vertex C
  argument : ℤ → Vertex C
  action : ℕ → Vertex C
  builtin_action : ℕ → Vertex C
  perception : ℕ → Vertex C
  definite_object : ℕ → Vertex C
  indefinite_object : ℕ → Vertex C
  message : ℕ → Vertex C
  procedure_call : ℕ → Vertex C
  action_symbol : ℕ → Vertex C
  ann_type : ℕ → Vertex C

abbrev pub ComboTree : Type 0 → Type 0
ComboTree C = Tree (Vertex C)

abbrev pub ComboForest : Type 0 → Type 0
ComboForest C = Forest (Vertex C)

-- `argument::negate` and `argument::is_idx_valid`
unfoldable pub negate_argument : ℤ → ℤ
negate_argument i = neg i

module _ {A : Type 0} where
  abbrev pub root : Tree A → A
  root (node v ts) = v

  abbrev pub children : Tree A → Forest A
  children (node v ts) = ts

  abbrev pub is_childless : Tree A → Bool
  is_childless (node v nil) = true
  is_childless (node v (cons t ts)) = false

  abbrev pub append : Forest A → Forest A → Forest A
  append nil us = us
  append (cons t ts) us = cons t (append ts us)

  abbrev pub count : Forest A → ℕ
  count nil = 0
  count (cons t ts) = suc (count ts)

  abbrev pub map_forest : (Tree A → Tree A) → Forest A → Forest A
  map_forest f nil = nil
  map_forest f (cons t ts) = cons (f t) (map_forest f ts)

unfoldable mutual
  pub height : {A : Type 0} → Tree A → ℕ
  height (node v ts) = suc (height_forest ts)

  pub height_forest : {A : Type 0} → Forest A → ℕ
  height_forest nil = 0
  height_forest (cons t ts) = max (height t) (height_forest ts)
