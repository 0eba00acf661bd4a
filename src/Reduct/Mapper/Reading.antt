-- ===== src/Reduct/Mapper/Reading.antt =====
-- `add_dnf` reads the children of a disjunction into clauses that have their truth.
use asmoses.Base.{
  ℕ, ◌≡◌, refl, sym, ◌∙◌, inl, inr, Bool, true, false, Bool-cases, [], if◌then◌else◌, arith, subst,
}
use asmoses.Base.Int.{ℤ}
use asmoses.Threads.{AllOf}
use asmoses.Combo.Tree.{
  node, nil, cons, logical_true, logical_false, logical_or, logical_not, argument, builtin, Vertex,
  ComboTree, ComboForest,
}
use asmoses.Combo.Order.{IsVertexOrder}
use asmoses.Combo.Denote.{
  Valuation, literal, truth, all_true, any_true, vertex_truth, IsLogical, AreLogical, done, more,
  true_leaf, false_leaf, literal_leaf, conjunction, disjunction, negation,
}
use asmoses.Reduct.Clauses.{Clause, contains, insert}
use asmoses.Reduct.Clauses.Truth.{
  flip, literal-flip, all_hold, some_clause, literal_of_holds, holds_of_literals,
}
use asmoses.Reduct.Clauses.Sorted.{
  IsAbsoluteOrder, IsSorted, insert-IsSorted, contains-insert, contains-insert_self,
  contains_of-insert,
}
use asmoses.Reduct.Clauses.Erasing.{IsRead}
use asmoses.Reduct.Mapper.{Mapper, add_item, add_items, add_child, add_dnf}
use asmoses.Reduct.Mapper.Items.{values, IsKnown, IsKept, IsFilled, add_item-Reads}

module _ (before : ℤ → ℤ → Bool) (sorting : IsAbsoluteOrder before) where
  insert-IsRead :
      {P : ℤ → Type 0} (x : ℤ) (c : Clause) → P x → IsRead P c → IsRead P (insert before x c)
  insert-IsRead {P} x c p r = (
    insert-IsSorted before sorting x c r.0,
    λ z k. elim (contains_of-insert before sorting x z c k) [
      | inl e ↦ subst P (sym e) p
      | inr e ↦ r.1 z e
    ],
  )

  all_hold-insert :
      (σ : Valuation) (x : ℤ) (c : Clause)
      → all_hold σ (insert before x c) ≡ (if literal σ x then all_hold σ c else false)
  all_hold-insert σ x c = elim (Bool-cases (all_hold σ (insert before x c))) [
    | inl t ↦
        let first = literal_of_holds σ _ x t (contains-insert_self before sorting x c) in
        let rest : all_hold σ c ≡ true =
          holds_of_literals σ c
            (λ z k. literal_of_holds σ _ z t (contains-insert before sorting x z c k)) in
        rw (t, first, rest) refl
    | inr t ↦ elim (Bool-cases (literal σ x)) [
      | inr u ↦ rw (t, u) refl
      | inl u ↦ elim (Bool-cases (all_hold σ c)) [
        | inr w ↦ rw (t, u, w) refl
        | inl w ↦
            let whole : all_hold σ (insert before x c) ≡ true =
              holds_of_literals σ (insert before x c) (λ z k.
                elim (contains_of-insert before sorting x z c k) [
                  | inl e ↦ rw e u
                  | inr e ↦ literal_of_holds σ c z w e
                ]) in
            absurd (ground (arith, whole, t))
      ]
    ]
  ]

  module _ {C : Type 0} (less : Vertex C → Vertex C → Bool) (order : IsVertexOrder less) where
    pub add_items_lem :
        {n : ℕ} (ts : ComboForest C) (m : Mapper C) (c : Clause)
        → IsFilled less n m
        → AreLogical n ts
        → IsFilled less n (add_items less before ts m c).0
          × IsKept m (add_items less before ts m c).0
          × ((k : Mapper C)
              → IsKept (add_items less before ts m c).0 k
              → IsRead (IsKnown n k) c
              → IsRead (IsKnown n k) (add_items less before ts m c).1
                × ((ρ : Valuation)
                    → all_hold (values k ρ) (add_items less before ts m c).1
                      ≡ (if all_true ρ ts then all_hold (values k ρ) c else false))
                × ((ρ : Valuation)
                    → all_hold (flip (values k ρ)) (add_items less before ts m c).1
                      ≡ (if any_true ρ ts then false else all_hold (flip (values k ρ)) c)))
    unfolding add_items all_true
    add_items_lem nil m c v done = (v, λ i t f. f, λ k s r. (r, λ ρ. refl, λ ρ. refl))
    add_items_lem (cons t ts) m c v (more l ls) =
        let first = add_item-Reads less order m t v l in
        let a = add_item less m t in
        let rest = add_items_lem ts a.0 (insert before a.1 c) first.0 ls in
        (
          rest.0,
          λ i u f. rest.1 i u (first.1 i u f),
          λ k s r.
              let reads = first.2 k (λ i u f. s i u (rest.1 i u f)) in
              let later = rest.2 k s (insert-IsRead a.1 c reads.known r) in
              (
                later.0,
                λ ρ.
                    let same = reads.same ρ in
                    let put = all_hold-insert (values k ρ) a.1 c in
                    later.1 ρ ∙ rw (put, same) (ground arith),
                λ ρ.
                    let same = reads.same ρ in
                    let turned = literal-flip (values k ρ) a.1 in
                    let put = all_hold-insert (flip (values k ρ)) a.1 c in
                    later.2 ρ ∙ rw (put, turned, same) (ground arith),
              ),
        )

    -- What a reading says of the mapper that it leaves, and of the clause in each later one.
    ReadsChild : ℕ → ComboTree C → Mapper C → Mapper C × Clause → Type 0
    ReadsChild n t m r =
        IsFilled less n r.0
        × IsKept m r.0
        × ((k : Mapper C)
            → IsKept r.0 k
            → IsRead (IsKnown n k) r.1 × ((ρ : Valuation) → all_hold (values k ρ) r.1 ≡ truth ρ t))

    whole_item :
        {n : ℕ} (t : ComboTree C) (m : Mapper C)
        → IsFilled less n m
        → IsLogical n t
        → ReadsChild n t m (add_items less before (cons t nil) m [])
    unfolding ReadsChild IsSorted contains all_hold all_true
    whole_item t m v l =
        let r = add_items_lem (cons t nil) m [] v (more l done) in
        (
          r.0,
          r.1,
          λ k s.
              let q = r.2 k s (tt, λ x e. absurd (ground arith)) in
              (q.0, λ ρ. q.1 ρ ∙ ground arith),
        )

    add_child-Reads :
        {n : ℕ} (t : ComboTree C) (m : Mapper C)
        → IsFilled less n m
        → IsLogical n t
        → ReadsChild n t m (add_child less before t m)
    unfolding ReadsChild IsSorted contains all_hold truth vertex_truth add_child
    add_child-Reads t m v (conjunction {t = u} {ts} l ls) =
        let r = add_items_lem (cons u ts) m [] v (more l ls) in
        (
          r.0,
          r.1,
          λ k s.
              let q = r.2 k s (tt, λ x e. absurd (ground arith)) in
              (q.0, λ ρ. q.1 ρ ∙ ground arith),
        )
    add_child-Reads t m v true_leaf = whole_item (node (builtin logical_true) nil) m v true_leaf
    add_child-Reads t m v false_leaf = whole_item (node (builtin logical_false) nil) m v false_leaf
    add_child-Reads t m v (literal_leaf i p q) =
        whole_item (node (argument i) nil) m v (literal_leaf i p q)
    add_child-Reads t m v (disjunction {t = u} {ts} l ls) =
        whole_item (node (builtin logical_or) (cons u ts)) m v (disjunction l ls)
    add_child-Reads t m v (negation {t = u} l) =
        whole_item (node (builtin logical_not) (cons u nil)) m v (negation l)

    pub add_dnf-Reads :
        {n : ℕ} (ts : ComboForest C) (m : Mapper C)
        → IsFilled less n m
        → AreLogical n ts
        → IsFilled less n (add_dnf less before ts m).0
          × IsKept m (add_dnf less before ts m).0
          × ((k : Mapper C)
              → IsKept (add_dnf less before ts m).0 k
              → AllOf (IsRead (IsKnown n k)) (add_dnf less before ts m).1
                × ((ρ : Valuation)
                    → some_clause (values k ρ) (add_dnf less before ts m).1 ≡ any_true ρ ts))
    unfolding add_dnf ReadsChild AllOf some_clause truth
    add_dnf-Reads nil m v done = (v, λ i t f. f, λ k s. (tt, λ ρ. refl))
    add_dnf-Reads (cons t ts) m v (more l ls) =
        let first = add_child-Reads t m v l in
        let rest = add_dnf-Reads ts (add_child less before t m).0 first.0 ls in
        (
          rest.0,
          λ i u f. rest.1 i u (first.1 i u f),
          λ k s.
              let reads = first.2 k (λ i u f. s i u (rest.1 i u f)) in
              let later = rest.2 k s in
              (
                (reads.0, later.0),
                λ ρ. let here = reads.1 ρ in let there = later.1 ρ in rw (here, there) refl,
              ),
        )
