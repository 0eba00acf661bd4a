-- ===== src/Reduct/Conjunctions/Sound.antt =====
-- `reduce_ands` keeps the truth of a logical tree.
use asmoses.Base.{
  ℕ, ◌≤◌, ◌≡◌, refl, sym, ap, ◌∙◌, inl, inr, Bool, true, false, not, Bool-cases, [], ◌∷◌, map,
  List-cases, some, arith, ◌==◌, length,
}
use asmoses.Base.Int.{ℤ, neg}
use asmoses.Threads.{AllOf}
use asmoses.Combo.Tree.{
  node, nil, cons, logical_and, logical_true, builtin, Vertex, ComboTree, ComboForest,
}
use asmoses.Combo.Order.{IsVertexOrder}
use asmoses.Combo.Denote.{
  Valuation, truth, all_true, vertex_truth, IsLogical, AreLogical, more, true_leaf, false_leaf,
  literal_leaf, conjunction, disjunction, negation,
}
use asmoses.Reduct.Clauses.{Nf, reduce_nf, number_of_literals, remove_tautologies}
use asmoses.Reduct.Clauses.Truth.{some_clause, flip}
use asmoses.Reduct.Clauses.Sorted.{IsAbsoluteOrder}
use asmoses.Reduct.Clauses.Erasing.{IsRead, some_clause-remove_tautologies}
use asmoses.Reduct.Clauses.Ends.{reduce_nf_whole}
use asmoses.Reduct.Mapper.{Mapper, empty_mapper}
use asmoses.Reduct.Mapper.Items.{values, IsKnown}
use asmoses.Reduct.Mapper.Sound.{empty-IsFilled}
use asmoses.Reduct.Conjunctions.{negate_clause, intersection, add_cnf, build_ands, reduce_ands}
use asmoses.Reduct.Conjunctions.Literals.{
  of-negate_clause, negate_clause-IsSorted, all_hold-negate_clause,
}
use asmoses.Reduct.Conjunctions.Reading.{add_cnf-Reads}
use asmoses.Reduct.Conjunctions.Shared.{of-intersection, intersection-several}
use asmoses.Reduct.Conjunctions.Made.{NegatedKnown, NegatedKnown-nonzero}
use asmoses.Reduct.Conjunctions.Build.{build_ands_lem}

no_clause : (σ : Valuation) (f : Nf) → length f ≡ 0 → some_clause σ f ≡ false
unfolding some_clause
no_clause σ [] e = refl
no_clause σ (c ∷ f) e = absurd (omega (arith, e))

module _ {C : Type 0} (less : Vertex C → Vertex C → Bool) (order : IsVertexOrder less)
    (before : ℤ → ℤ → Bool) (sorting : IsAbsoluteOrder before) where
  negated-IsRead :
      (n : ℕ) (m : Mapper C) (f : Nf)
      → AllOf (IsRead (IsKnown n m)) f
      → AllOf (IsRead (NegatedKnown n m)) (map (negate_clause before) f)
  unfolding AllOf
  negated-IsRead n m [] a = tt
  negated-IsRead n m (c ∷ f) a = (
    (
      negate_clause-IsSorted before sorting c,
      λ z k. a.0.1 (neg z) (of-negate_clause before sorting c z k),
    ),
    negated-IsRead n m f a.1,
  )

  negated_clauses :
      (n : ℕ) (m : Mapper C) (ρ : Valuation) (f : Nf)
      → AllOf (IsRead (IsKnown n m)) f
      → some_clause (values m ρ) (map (negate_clause before) f) ≡ some_clause (flip (values m ρ)) f
  unfolding AllOf some_clause
  negated_clauses n m ρ [] a = refl
  negated_clauses n m ρ (c ∷ f) a =
      let here =
        all_hold-negate_clause before sorting (values m ρ) c (λ x k. (a.0.1 x k).nonzero) in
      let rest = negated_clauses n m ρ f a.1 in rw (here, rest) refl

  -- The reduced clauses of a conjunction, and the tree that they make in the end.
  rebuilt :
      {n : ℕ} (ts : ComboForest C)
      → AreLogical n ts
      → (g : Nf) × (reduce_nf before
            (map (negate_clause before) (add_cnf less before ts empty_mapper).1)
          ≡ some g)
        × (1
              ≤ length (
                  remove_tautologies
                    (map (negate_clause before) (add_cnf less before ts empty_mapper).1))
            → (u : ComboTree C) × (build_ands before
                  (add_cnf less before ts empty_mapper).0
                  g
                  (intersection g)
                ≡ some u)
              × IsLogical n u
              × ((ρ : Valuation) → truth ρ u ≡ all_true ρ ts))
        × (length (
                remove_tautologies
                  (map (negate_clause before) (add_cnf less before ts empty_mapper).1))
              ≡ 0
            → (ρ : Valuation) → all_true ρ ts ≡ true)
  unfolding truth some_clause
  rebuilt {n} ts l =
      let m = (add_cnf less before ts empty_mapper).0 in
      let read = (add_cnf less before ts empty_mapper).1 in
      let f = map (negate_clause before) read in
      let reading =
        add_cnf-Reads before sorting less order ts empty_mapper
          (empty-IsFilled less order before sorting n) l in
      let there = reading.2 m (λ i t e. e) in
      let is_read = negated-IsRead n m read there.0 in
      let nonzero = NegatedKnown-nonzero {n = n} m in
      let reduced = reduce_nf_whole before sorting (NegatedKnown n m) nonzero f is_read in
      let g = reduced.0 in
      let whole : (ρ : Valuation) → some_clause (values m ρ) f ≡ not (all_true ρ ts) =
        λ ρ. negated_clauses n m ρ read there.0 ∙ there.1 ρ in
      (
        g,
        reduced.1,
        λ some_left.
            let built =
              build_ands_lem before sorting n m g (intersection g) reduced.2 reduced.4
                (reduced.5 some_left) (of-intersection g) (intersection-several g) in
            (
              built.0,
              built.1,
              built.2,
              λ ρ.
                  let same = reduced.3 (values m ρ) in
                  let w = whole ρ in let b = built.3 ρ in ground (arith, same, w, b),
            ),
        λ none_left ρ.
            let kept =
              some_clause-remove_tautologies (NegatedKnown n m) nonzero (values m ρ) f is_read in
            let w = whole ρ in
            let false_one = no_clause (values m ρ) (remove_tautologies f) none_left in
            ground (arith, kept, w, false_one),
      )

  -- On a logical tree, `reduce_ands` ends with a tree. It is logical, over as many arguments, and has the
  -- same truth under every valuation.
  pub reduce_ands-IsSound :
      {n : ℕ} (t : ComboTree C)
      → IsLogical n t
      → (u : ComboTree C) × (reduce_ands less before t ≡ some u)
        × IsLogical n u
        × ((ρ : Valuation) → truth ρ u ≡ truth ρ t)
  unfolding reduce_ands truth vertex_truth
  reduce_ands-IsSound t true_leaf = (_, refl, true_leaf, λ ρ. refl)
  reduce_ands-IsSound t false_leaf = (_, refl, false_leaf, λ ρ. refl)
  reduce_ands-IsSound t (literal_leaf i p q) = (_, refl, literal_leaf i p q, λ ρ. refl)
  reduce_ands-IsSound t (disjunction l ls) = (_, refl, disjunction l ls, λ ρ. refl)
  reduce_ands-IsSound t (negation l) = (_, refl, negation l, λ ρ. refl)
  reduce_ands-IsSound t (conjunction {t = v} {ts} l ls) =
      let r = rebuilt (cons v ts) (more l ls) in
      let reading = add_cnf less before (cons v ts) empty_mapper in
      let f = map (negate_clause before) reading.1 in
      elim (List-cases (remove_tautologies f)) [
        | inl e ↦ (
          node (builtin logical_true) nil,
          rw (reduce_ands, e) refl,
          true_leaf,
          λ ρ. sym (r.3 (ap length e) ρ),
        )
        | inr (c, cs, e) ↦
            let built = r.2 (rw e (omega arith)) in
            elim (Bool-cases (number_of_literals reading.1 == number_of_literals r.0)) [
              | inr k ↦ (built.0, rw (reduce_ands, e, r.1, k) built.1, built.2, built.3)
              | inl k ↦ elim (Bool-cases (length (intersection r.0) == 0)) [
                | inl j ↦ (
                  node (builtin logical_and) (cons v ts),
                  rw (reduce_ands, e, r.1, k, j) refl,
                  conjunction l ls,
                  λ ρ. refl,
                )
                | inr j ↦ (built.0, rw (reduce_ands, e, r.1, k, j) built.1, built.2, built.3)
              ]
            ]
      ]
