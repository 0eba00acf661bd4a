-- ===== src/Reduct/Mapper.antt =====
-- `nf_mapper` of opencog/asmoses/reduct/reduct/flat_normal_form.h: the items of a junctor's children
-- as the literals of clauses, and the clauses as trees again; and the rule `reduce_ors` of
-- opencog/asmoses/reduct/rules/logical_rules.cc. `none` is a read behind the end of a map, an argument
-- asked of another vertex, or the fuel of the loops over the clauses at its end.
use asmoses.Base.{
  ℕ, zero, suc, ◌+◌, Bool, true, false, not, List, [], ◌∷◌, ◌++◌, Option, none, some, length, ◌==◌,
  if◌then◌else◌,
}
use asmoses.Base.Int.{ℤ, pos, negsuc, neg, nat_abs, is_neg, eqb_ℤ}
use asmoses.Combo.Tree.{
  node, nil, cons, logical_true, logical_false, logical_and, logical_or, Vertex, builtin, argument,
  ComboTree, ComboForest, append, negate_argument,
}
use asmoses.Combo.Order.{is_same_key}
use asmoses.Reduct.Clauses.{Clause, Nf, insert, number_of_literals, reduce_nf}
pub mod Items
pub mod Reading
pub mod Extract
pub mod Sound
mod Vertices
mod Tests

pub record Mapper (C : Type 0) : Type 0 where
  pub item2int : List (ComboTree C × ℕ)
  pub int2item : List (ℕ × ComboTree C)

module _ {C : Type 0} where
  abbrev pub empty_mapper : Mapper C
  empty_mapper = record { item2int = []; int2item = [] }

  unfoldable pub find_int : ℕ → List (ℕ × ComboTree C) → Option (ComboTree C)
  find_int i [] = none
  find_int i (e ∷ es) = let rest = find_int i es in if i == e.0 then some e.1 else rest

  -- The insertions leave the entry of a key that is there.
  unfoldable pub insert_int : ℕ → ComboTree C → List (ℕ × ComboTree C) → List (ℕ × ComboTree C)
  insert_int i t es = elim (find_int i es) [ none ↦ (i, t) ∷ es | some u ↦ es ]

  -- `get_argument(v).negate()` at the top.
  unfoldable pub negate_top : ComboTree C → Option (ComboTree C)
  negate_top (node (argument i) ts) = some (node (argument (negate_argument i)) ts)
  negate_top _ = none

  -- The tree that `create` appends.
  unfoldable pub create : Mapper C → ℤ → Option (ComboTree C)
  create m idx = elim (find_int (nat_abs idx) m.int2item) [
    | none ↦ none
    | some t ↦ if is_neg idx then negate_top t else some t
  ]

  unfoldable pub create_all : Mapper C → Clause → Option (ComboForest C)
  create_all m [] = some nil
  create_all m (x ∷ c) = elim (create m x) [
    | none ↦ none
    | some t ↦ elim (create_all m c) [ none ↦ none | some ts ↦ some (cons t ts) ]
  ]

  -- What a clause that is not empty appends: its one item, unless that is 0, or the conjunction.
  unfoldable pub extract_clause : Mapper C → Clause → Option (ComboForest C)
  extract_clause m (x ∷ []) = if eqb_ℤ x (pos 0) then some nil else create_all m (x ∷ [])
  extract_clause m c = elim (create_all m c) [
    | none ↦ none
    | some ts ↦ some (cons (node (builtin logical_and) ts) nil)
  ]

  -- The node at the end of `extract_dnf`, with its new children.
  unfoldable pub or_of : ComboForest C → ComboTree C
  or_of nil = node (builtin logical_false) nil
  or_of (cons t nil) = t
  or_of ts = node (builtin logical_or) ts

  -- `extract_dnf`, with the children appended so far.
  unfoldable pub extract_dnf : Mapper C → ComboForest C → Nf → Option (ComboTree C)
  extract_dnf m ts [] = some (or_of ts)
  extract_dnf m ts ([] ∷ f) = some (node (builtin logical_true) nil)
  extract_dnf m ts ((x ∷ c) ∷ f) = elim (extract_clause m (x ∷ c)) [
    | none ↦ none
    | some us ↦ extract_dnf m (append ts us) f
  ]

  -- `add_item` for an item that is not there.
  unfoldable pub add_new : Mapper C → ComboTree C → Mapper C × ℤ
  add_new m t =
      let next_id = length m.int2item + 1 in
      (
        record { item2int = (t, next_id) ∷ m.item2int; int2item = insert_int next_id t m.int2item },
        pos next_id,
      )

  module _ (less : Vertex C → Vertex C → Bool) where
    unfoldable pub find_item : ComboTree C → List (ComboTree C × ℕ) → Option ℕ
    find_item t [] = none
    find_item t (e ∷ es) =
        let rest = find_item t es in if is_same_key less t e.0 then some e.1 else rest

    unfoldable pub find_negated : ComboTree C → List (ComboTree C × ℕ) → Option ℕ
    find_negated t es = elim (negate_top t) [ none ↦ none | some u ↦ find_item u es ]

    unfoldable pub add_item : Mapper C → ComboTree C → Mapper C × ℤ
    add_item m t = elim (find_item t m.item2int) [
      | some i ↦ (m, pos i)
      | none ↦ elim (find_negated t m.item2int) [ some i ↦ (m, neg (pos i)) | none ↦ add_new m t ]
    ]

    module _ (before : ℤ → ℤ → Bool) where
      -- The loop over the items of one conjunction.
      unfoldable pub add_items : ComboForest C → Mapper C → Clause → Mapper C × Clause
      add_items nil m c = (m, c)
      add_items (cons t ts) m c = let r = add_item m t in add_items ts r.0 (insert before r.1 c)

      unfoldable pub add_child : ComboTree C → Mapper C → Mapper C × Clause
      add_child (node (builtin logical_and) ts) m = add_items ts m []
      add_child t m = add_items (cons t nil) m []

      unfoldable pub add_dnf : ComboForest C → Mapper C → Mapper C × Nf
      add_dnf nil m = (m, [])
      add_dnf (cons t ts) m =
          let r = add_child t m in let rest = add_dnf ts r.0 in (rest.0, r.1 ∷ rest.1)

      unfoldable pub reduce_ors : ComboTree C → Option (ComboTree C)
      reduce_ors (node (builtin logical_or) ts) =
          let r = add_dnf ts empty_mapper in
          elim (reduce_nf before r.1) [
            | none ↦ none
            | some f ↦
                let reduced = extract_dnf r.0 nil f in
                if number_of_literals r.1 == number_of_literals f
                then some (node (builtin logical_or) ts)
                else reduced
          ]
      reduce_ors t = some t
