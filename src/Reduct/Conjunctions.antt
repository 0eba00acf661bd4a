-- ===== src/Reduct/Conjunctions.antt =====
-- The rule `reduce_ands` of opencog/asmoses/reduct/rules/logical_rules.cc, and what it uses of
-- `nf_mapper` of opencog/asmoses/reduct/reduct/flat_normal_form.h. The clauses of a conjunction are
-- disjunctions; the rule reduces their negations.
use asmoses.Base.{
  ℕ, Bool, true, false, List, [], ◌∷◌, Option, none, some, length, map, ltb, ◌==◌, ◌||◌, not,
  if◌then◌else◌,
}
use asmoses.Base.Int.{nat_abs, is_neg, ℤ, pos, neg, eqb_ℤ}
use asmoses.Combo.Tree.{
  null_vertex, root, node, nil, cons, logical_true, logical_false, logical_and, logical_or, Vertex,
  builtin, ComboTree, ComboForest, append, children,
}
use asmoses.Reduct.Clauses.{
  Clause, Nf, contains, erase, insert_all, number_of_literals, remove_tautologies, reduce_nf,
}
use asmoses.Reduct.Mapper.{
  find_int, negate_top, Mapper, empty_mapper, create, create_all, add_items,
}
pub mod Literals
pub mod Reading
pub mod Extract
pub mod Shared
pub mod Made
pub mod Build
pub mod Sound

-- `set_intersection` of two clauses.
unfoldable pub common : Clause → Clause → Clause
common [] d = []
common (x ∷ c) d = let rest = common c d in if contains d x then x ∷ rest else rest

-- The loop over the clauses behind the first one.
unfoldable pub common_of : Clause → Nf → Clause
common_of intersect [] = intersect
common_of [] (c ∷ f) = []
common_of (x ∷ intersect) (c ∷ f) =
    let rest = common_of (common (x ∷ intersect) c) f in if length c == 1 then [] else rest

unfoldable pub intersection : Nf → Clause
intersection [] = []
intersection (c ∷ f) =
    let whole = common_of c f in
    if ltb 1 (length (c ∷ f)) then (if ltb 1 (length c) then whole else []) else []

unfoldable pub erase_literals : Clause → Clause → Clause
erase_literals [] c = c
erase_literals (x ∷ xs) c = erase_literals xs (erase x c)

module _ (before : ℤ → ℤ → Bool) where
  -- `std::transform` with `std::negate` into a new set.
  unfoldable pub negate_clause : Clause → Clause
  negate_clause c = insert_all before (map neg c) []

module _ {C : Type 0} where
  -- The new children that `extract_cnf` gives its node: nothing for an empty clause.
  unfoldable pub extract_children : Mapper C → Nf → Option (ComboForest C)
  extract_children m [] = some nil
  extract_children m ([] ∷ f) = extract_children m f
  extract_children m ((x ∷ []) ∷ f) =
      let rest = extract_children m f in
      let made : Option (ComboForest C) = elim (create m x) [
        | none ↦ none
        | some t ↦ elim rest [ none ↦ none | some ts ↦ some (cons t ts) ]
      ] in
      if eqb_ℤ x (pos 0) then rest else made
  extract_children m ((x ∷ y ∷ c) ∷ f) = elim (create_all m (x ∷ y ∷ c)) [
    | none ↦ none
    | some us ↦ elim (extract_children m f) [
      | none ↦ none
      | some ts ↦ some (cons (node (builtin logical_or) us) ts)
    ]
  ]

  unfoldable pub and_of : ComboForest C → ComboTree C
  and_of nil = node (builtin logical_false) nil
  and_of (cons t nil) = t
  and_of ts = node (builtin logical_and) ts

  unfoldable pub extract_cnf : Mapper C → Nf → Option (ComboTree C)
  extract_cnf m f = elim (extract_children m f) [ none ↦ none | some ts ↦ some (and_of ts) ]

  -- A copy of the vertex of an item, which has to be an argument, with its sign turned.
  unfoldable pub negated_root : Mapper C → ℤ → Option (ComboTree C)
  negated_root m idx = elim (find_int (nat_abs idx) m.int2item) [
    | none ↦ none
    | some t ↦ negate_top (node (root t) nil)
  ]

  -- What `extract_conjunction` makes of a new node; it leaves it alone for the literal 0.
  unfoldable pub extract_conjunction : Mapper C → Clause → Option (ComboTree C)
  extract_conjunction m (x ∷ []) =
      if eqb_ℤ x (pos 0)
      then some (node (builtin null_vertex) nil)
      else (if is_neg x then negated_root m x else create m x)
  extract_conjunction m c = elim (create_all m c) [
    | none ↦ none
    | some ts ↦ some (node (builtin logical_and) ts)
  ]

  -- What is appended for the intersection: a conjunction of several literals is flattened.
  unfoldable pub extract_shared : Mapper C → Clause → Option (ComboForest C)
  extract_shared m c = elim (extract_conjunction m c) [
    | none ↦ none
    | some t ↦ some (if ltb 1 (length c) then children t else cons t nil)
  ]

  -- The disjunction of the clauses without the literals of the intersection, under a new conjunction if
  -- there are any, with these literals.
  unfoldable pub with_intersection : ComboTree C → ComboForest C → ComboTree C
  with_intersection (node v nil) us = node (builtin logical_or) us
  with_intersection (node v ts) us =
      node (builtin logical_or) (cons (node (builtin logical_and) ts) us)

  module _ (before : ℤ → ℤ → Bool) where
    -- The end of `reduce_ands`, with the reduced clauses.
    unfoldable pub build_ands : Mapper C → Nf → Clause → Option (ComboTree C)
    build_ands m f [] = extract_cnf m (map (negate_clause before) f)
    build_ands m f (x ∷ intersect) =
        elim (extract_cnf m (map (negate_clause before) (map (erase_literals (x ∷ intersect)) f))) [
          | none ↦ none
          | some t ↦ elim (extract_shared m (negate_clause before (x ∷ intersect))) [
            | none ↦ none
            | some us ↦ some (with_intersection t us)
          ]
        ]

  module _ (less : Vertex C → Vertex C → Bool) (before : ℤ → ℤ → Bool) where
    unfoldable pub add_disjunction : ComboTree C → Mapper C → Mapper C × Clause
    add_disjunction (node (builtin logical_or) ts) m = add_items less before ts m []
    add_disjunction t m = add_items less before (cons t nil) m []

    unfoldable pub add_cnf : ComboForest C → Mapper C → Mapper C × Nf
    add_cnf nil m = (m, [])
    add_cnf (cons t ts) m =
        let r = add_disjunction t m in let rest = add_cnf ts r.0 in (rest.0, r.1 ∷ rest.1)

    unfoldable pub reduce_ands : ComboTree C → Option (ComboTree C)
    reduce_ands (node (builtin logical_and) ts) =
        let r = add_cnf ts empty_mapper in
        let f = map (negate_clause before) r.1 in
        elim (remove_tautologies f) [
          | [] ↦ some (node (builtin logical_true) nil)
          | c ∷ cs ↦ elim (reduce_nf before f) [
            | none ↦ none
            | some g ↦
                let built = build_ands before r.0 g (intersection g) in
                let same = number_of_literals r.1 == number_of_literals g in
                let apart = length (intersection g) == 0 in
                let kept = if apart then some (node (builtin logical_and) ts) else built in
                if same then kept else built
          ]
        ]
    reduce_ands t = some t
