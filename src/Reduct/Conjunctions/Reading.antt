-- ===== src/Reduct/Conjunctions/Reading.antt =====
-- `add_cnf` reads the children of a conjunction into clauses of which one is false where a child is.
use asmoses.Base.{ℕ, ◌≡◌, refl, ◌∙◌, Bool, not, [], arith}
use asmoses.Base.Int.{ℤ}
use asmoses.Threads.{AllOf}
use asmoses.Combo.Tree.{
  node, nil, cons, logical_true, logical_false, logical_and, logical_not, argument, builtin, Vertex,
  ComboTree, ComboForest,
}
use asmoses.Combo.Order.{IsVertexOrder}
use asmoses.Combo.Denote.{
  Valuation, truth, all_true, vertex_truth, IsLogical, AreLogical, done, more, true_leaf,
  false_leaf, literal_leaf, conjunction, disjunction, negation,
}
use asmoses.Reduct.Clauses.{Clause, contains}
use asmoses.Reduct.Clauses.Truth.{all_hold, some_clause, flip}
use asmoses.Reduct.Clauses.Sorted.{IsAbsoluteOrder, IsSorted}
use asmoses.Reduct.Clauses.Erasing.{IsRead}
use asmoses.Reduct.Mapper.{Mapper, add_items}
use asmoses.Reduct.Mapper.Items.{values, IsKnown, IsKept, IsFilled}
use asmoses.Reduct.Mapper.Reading.{add_items_lem}
use asmoses.Reduct.Conjunctions.{add_disjunction, add_cnf}

module _ (before : ℤ → ℤ → Bool) (sorting : IsAbsoluteOrder before) {C : Type 0}
    (less : Vertex C → Vertex C → Bool) (order : IsVertexOrder less) where
  ReadsDisjunction : ℕ → ComboTree C → Mapper C → Mapper C × Clause → Type 0
  ReadsDisjunction n t m r =
      IsFilled less n r.0
      × IsKept m r.0
      × ((k : Mapper C)
          → IsKept r.0 k
          → IsRead (IsKnown n k) r.1
            × ((ρ : Valuation) → all_hold (flip (values k ρ)) r.1 ≡ not (truth ρ t)))

  single_item :
      {n : ℕ} (t : ComboTree C) (m : Mapper C)
      → IsFilled less n m
      → IsLogical n t
      → ReadsDisjunction n t m (add_items less before (cons t nil) m [])
  unfolding ReadsDisjunction IsSorted contains all_hold all_true
  single_item t m v l =
      let r = add_items_lem before sorting less order (cons t nil) m [] v (more l done) in
      (
        r.0,
        r.1,
        λ k s.
            let q = r.2 k s (tt, λ x e. absurd (ground arith)) in (q.0, λ ρ. q.2 ρ ∙ ground arith),
      )

  add_disjunction-Reads :
      {n : ℕ} (t : ComboTree C) (m : Mapper C)
      → IsFilled less n m
      → IsLogical n t
      → ReadsDisjunction n t m (add_disjunction less before t m)
  unfolding ReadsDisjunction IsSorted contains all_hold truth vertex_truth add_disjunction
  add_disjunction-Reads t m v (disjunction {t = u} {ts} l ls) =
      let r = add_items_lem before sorting less order (cons u ts) m [] v (more l ls) in
      (
        r.0,
        r.1,
        λ k s.
            let q = r.2 k s (tt, λ x e. absurd (ground arith)) in (q.0, λ ρ. q.2 ρ ∙ ground arith),
      )
  add_disjunction-Reads t m v true_leaf =
      single_item (node (builtin logical_true) nil) m v true_leaf
  add_disjunction-Reads t m v false_leaf =
      single_item (node (builtin logical_false) nil) m v false_leaf
  add_disjunction-Reads t m v (literal_leaf i p q) =
      single_item (node (argument i) nil) m v (literal_leaf i p q)
  add_disjunction-Reads t m v (conjunction {t = u} {ts} l ls) =
      single_item (node (builtin logical_and) (cons u ts)) m v (conjunction l ls)
  add_disjunction-Reads t m v (negation {t = u} l) =
      single_item (node (builtin logical_not) (cons u nil)) m v (negation l)

  pub add_cnf-Reads :
      {n : ℕ} (ts : ComboForest C) (m : Mapper C)
      → IsFilled less n m
      → AreLogical n ts
      → IsFilled less n (add_cnf less before ts m).0
        × IsKept m (add_cnf less before ts m).0
        × ((k : Mapper C)
            → IsKept (add_cnf less before ts m).0 k
            → AllOf (IsRead (IsKnown n k)) (add_cnf less before ts m).1
              × ((ρ : Valuation)
                  → some_clause (flip (values k ρ)) (add_cnf less before ts m).1
                    ≡ not (all_true ρ ts)))
  unfolding add_cnf ReadsDisjunction AllOf some_clause truth
  add_cnf-Reads nil m v done = (v, λ i t f. f, λ k s. (tt, λ ρ. refl))
  add_cnf-Reads (cons t ts) m v (more l ls) =
      let first = add_disjunction-Reads t m v l in
      let rest = add_cnf-Reads ts (add_disjunction less before t m).0 first.0 ls in
      (
        rest.0,
        λ i u f. rest.1 i u (first.1 i u f),
        λ k s.
            let reads = first.2 k (λ i u f. s i u (rest.1 i u f)) in
            let later = rest.2 k s in
            (
              (reads.0, later.0),
              λ ρ. let here = reads.1 ρ in let there = later.1 ρ in rw (here, there) (ground arith),
            ),
      )
