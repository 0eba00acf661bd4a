-- ===== src/Reduct/Mapper/Sound.antt =====
-- `reduce_ors` keeps the truth of a logical tree.
use asmoses.Base.{ℕ, ◌≡◌, refl, ◌∙◌, inl, inr, Bool, Bool-cases, some, arith, ◌==◌}
use asmoses.Base.Int.{ℤ}
use asmoses.Threads.{AllOf-weaken}
use asmoses.Combo.Tree.{node, nil, cons, logical_or, builtin, Vertex, ComboTree, ComboForest}
use asmoses.Combo.Order.{IsVertexOrder}
use asmoses.Combo.Denote.{
  Valuation, truth, any_true, vertex_truth, IsLogical, AreLogical, done, more, true_leaf,
  false_leaf, literal_leaf, conjunction, disjunction, negation,
}
use asmoses.Reduct.Clauses.{Nf, reduce_nf, number_of_literals}
use asmoses.Reduct.Clauses.Sorted.{IsAbsoluteOrder}
use asmoses.Reduct.Clauses.Ends.{reduce_nf_lem}
use asmoses.Reduct.Mapper.{Mapper, empty_mapper, add_dnf, extract_dnf, reduce_ors}
use asmoses.Reduct.Mapper.Items.{values, IsKnown, IsFilled}
use asmoses.Reduct.Mapper.Reading.{add_dnf-Reads}
use asmoses.Reduct.Mapper.Extract.{extract_dnf_lem}

module _ {C : Type 0} (less : Vertex C → Vertex C → Bool) (order : IsVertexOrder less)
    (before : ℤ → ℤ → Bool) (sorting : IsAbsoluteOrder before) where
  pub empty-IsFilled : (n : ℕ) → IsFilled less n empty_mapper
  unfolding asmoses.Reduct.Mapper.find_int asmoses.Reduct.Mapper.find_item
  empty-IsFilled n = record {
    items = λ i t f. absurd (ground (arith, f));
    keys = λ t i f. absurd (ground (arith, f));
  }

  -- The clauses that `add_dnf` reads from the children of a disjunction, which are logical trees, are
  -- made into a tree by `extract_dnf` again. It is logical, over as many arguments, and is true under a
  -- valuation just when one of the children is.
  pub add_dnf-extract_dnf :
      {n : ℕ} (ts : ComboForest C)
      → AreLogical n ts
      → (u : ComboTree C) × (extract_dnf
            (add_dnf less before ts empty_mapper).0
            nil
            (add_dnf less before ts empty_mapper).1
          ≡ some u)
        × IsLogical n u
        × ((ρ : Valuation) → truth ρ u ≡ any_true ρ ts)
  unfolding truth
  add_dnf-extract_dnf {n} ts l =
      let r = add_dnf less before ts empty_mapper in
      let read = add_dnf-Reads before sorting less order ts empty_mapper (empty-IsFilled n) l in
      let there = read.2 r.0 (λ i t f. f) in
      let made =
        extract_dnf_lem r.0 nil r.1 done (AllOf-weaken r.1 (λ c c_read. c_read.1) there.0) in
      (made.0, made.1, made.2, λ ρ. made.3 ρ ∙ there.1 ρ)

  -- The clauses of a disjunction, and the tree that they make in the end.
  round_trip :
      {n : ℕ} (ts : ComboForest C)
      → AreLogical n ts
      → (g : Nf) × (reduce_nf before (add_dnf less before ts empty_mapper).1 ≡ some g)
        × (u : ComboTree C) × (extract_dnf (add_dnf less before ts empty_mapper).0 nil g ≡ some u)
        × IsLogical n u
        × ((ρ : Valuation) → truth ρ u ≡ any_true ρ ts)
  unfolding truth
  round_trip {n} ts l =
      let m = (add_dnf less before ts empty_mapper).0 in
      let read = add_dnf-Reads before sorting less order ts empty_mapper (empty-IsFilled n) l in
      let there = read.2 m (λ i t f. f) in
      let reduced = reduce_nf_lem before sorting (IsKnown n m) (λ x k. k.nonzero) _ there.0 in
      let made =
        extract_dnf_lem m nil reduced.0 done
          (AllOf-weaken reduced.0 (λ c good. good.known) reduced.2) in
      (
        reduced.0,
        reduced.1,
        made.0,
        made.1,
        made.2,
        λ ρ. made.3 ρ ∙ reduced.3 (values m ρ) ∙ there.1 ρ,
      )

  -- On a logical tree, `reduce_ors` ends with a tree. It is logical, over as many arguments, and has the
  -- same truth under every valuation.
  pub reduce_ors-IsSound :
      {n : ℕ} (t : ComboTree C)
      → IsLogical n t
      → (u : ComboTree C) × (reduce_ors less before t ≡ some u)
        × IsLogical n u
        × ((ρ : Valuation) → truth ρ u ≡ truth ρ t)
  unfolding reduce_ors truth vertex_truth
  reduce_ors-IsSound t true_leaf = (_, refl, true_leaf, λ ρ. refl)
  reduce_ors-IsSound t false_leaf = (_, refl, false_leaf, λ ρ. refl)
  reduce_ors-IsSound t (literal_leaf i p q) = (_, refl, literal_leaf i p q, λ ρ. refl)
  reduce_ors-IsSound t (conjunction l ls) = (_, refl, conjunction l ls, λ ρ. refl)
  reduce_ors-IsSound t (negation l) = (_, refl, negation l, λ ρ. refl)
  reduce_ors-IsSound t (disjunction {t = v} {ts} l ls) =
      let r = round_trip (cons v ts) (more l ls) in
      let reading = add_dnf less before (cons v ts) empty_mapper in
      elim (Bool-cases (number_of_literals reading.1 == number_of_literals r.0)) [
        | inl e ↦ (
          node (builtin logical_or) (cons v ts),
          rw (reduce_ors, r.1, e) refl,
          disjunction l ls,
          λ ρ. refl,
        )
        | inr e ↦ (r.2, rw (reduce_ors, r.1, e) r.3, r.4, r.5)
      ]
