-- ===== src/Reduct/Conjunctions/Build.antt =====
-- The tree that `reduce_ands` builds of the reduced clauses is false where one of them holds.
use asmoses.Base.{
  ℕ, ◌≤◌, ◌≡◌, refl, ap, ◌∙◌, inl, inr, Bool, false, not, [], ◌∷◌, map, arith, if◌then◌else◌,
  length, some, subst,
}
use asmoses.Base.Int.{ℤ}
use mathlib.Core.List.{Memᴰ}
use mathlib.Core.List.Memᴰ.{head}
use asmoses.Threads.{AllOf, AllOf-weaken}
use asmoses.Combo.Tree.{node, nil, logical_or, logical_false, builtin, ComboTree, count}
use asmoses.Combo.Denote.{Valuation, truth, any_true, vertex_truth, IsLogical, false_leaf}
use asmoses.Reduct.Clauses.{Clause, Nf}
use asmoses.Reduct.Clauses.Truth.{all_hold, some_clause}
use asmoses.Reduct.Clauses.Sorted.{IsAbsoluteOrder}
use asmoses.Reduct.Clauses.Implied.{IsGood}
use asmoses.Reduct.Clauses.Antichain.{Sub, NoStrict}
use asmoses.Reduct.Clauses.Ends.{AllOf-Mem}
use asmoses.Reduct.Mapper.{Mapper}
use asmoses.Reduct.Mapper.Items.{values}
use asmoses.Reduct.Mapper.Extract.{create_all_lem}
use asmoses.Reduct.Conjunctions.{
  negate_clause, erase_literals, extract_cnf, and_of, with_intersection, build_ands,
}
use asmoses.Reduct.Conjunctions.Literals.{turned-negate_clause, of-erase_literals}
use asmoses.Reduct.Conjunctions.Extract.{extract_shared_lem, or_IsLogical}
use asmoses.Reduct.Conjunctions.Shared.{some_clause-erase_literals, all_or_none, AllOf-map}
use asmoses.Reduct.Conjunctions.Made.{
  map-erase_nothing, length-map, empty_holds, and_of_lem, with_several, NegatedKnown, AreKnown,
  NegatedKnown-nonzero, HasKnown-negate_clause, negated_length, full_children, no_children,
}

module _ {C : Type 0} where
  module _ (before : ℤ → ℤ → Bool) (sorting : IsAbsoluteOrder before) (n : ℕ) (m : Mapper C) where
    AllOf-known : (f : Nf) → AllOf (IsGood (NegatedKnown n m)) f → AllOf (AreKnown n m) f
    AllOf-known f good = AllOf-weaken f (λ c g. g.known) good

    of_some :
        (f : Nf) (xs : Clause)
        → AllOf (AreKnown n m) f
        → 1 ≤ length f
        → ((c : Clause) → Memᴰ c f → Sub xs c)
        → AreKnown n m xs
    unfolding AllOf
    of_some [] xs a l sub z k = absurd (omega arith)
    of_some (c ∷ f) xs a l sub z k = a.0 z (sub c (head refl) z k)

    pub build_ands_lem :
        (f : Nf) (xs : Clause)
        → AllOf (IsGood (NegatedKnown n m)) f
        → NoStrict f
        → 1 ≤ length f
        → ((c : Clause) → Memᴰ c f → Sub xs c)
        → (1 ≤ length xs → 2 ≤ length f)
        → (u : ComboTree C) × (build_ands before m f xs ≡ some u)
          × IsLogical n u
          × ((ρ : Valuation) → truth ρ u ≡ not (some_clause (values m ρ) f))
    unfolding build_ands extract_cnf truth vertex_truth and_of with_intersection
    build_ands_lem f [] good anti some_f sub several =
        let known = AllOf-known f good in
        elim (all_or_none [] f sub (λ c i. (AllOf-Mem (IsGood (NegatedKnown n m)) f good i).sorted)
          anti) [
            | inl a ↦
                let empty = subst (AllOf (λ c. length c ≡ 0)) (map-erase_nothing f) a in
                (
                  node (builtin logical_false) nil,
                  rw (build_ands, extract_cnf, no_children before sorting n m f empty) refl,
                  false_leaf,
                  λ ρ. rw (empty_holds (values m ρ) f some_f empty) refl,
                )
            | inr a ↦
                let full = subst (AllOf (λ c. 1 ≤ length c)) (map-erase_nothing f) a in
                let r = full_children before sorting n m f known full in
                let t = and_of_lem r.0 r.2 (omega (arith, r.3, some_f)) in
                (and_of r.0, rw (build_ands, extract_cnf, r.1) refl, t.0, λ ρ. t.1 ρ ∙ r.4 ρ)
          ]
    build_ands_lem f (x ∷ xs) good anti some_f sub several =
        let known = AllOf-known f good in
        let whole = x ∷ xs in
        let g = map (erase_literals whole) f in
        let shared_known = of_some f whole known some_f sub in
        let us =
          create_all_lem m (negate_clause before whole)
            (HasKnown-negate_clause before sorting n m whole shared_known) in
        let appended =
          extract_shared_lem m (negate_clause before whole) us.0
            (HasKnown-negate_clause before sorting n m whole shared_known)
            (negated_length before sorting n m whole (omega arith)) us.1 in
        let some_us : 1 ≤ count us.0 =
          omega (arith, us.5, negated_length before sorting n m whole (omega arith)) in
        let rest_known : AllOf (AreKnown n m) g =
          AllOf-map (AreKnown n m) (erase_literals whole) f
            (λ c i z k. AllOf-Mem (AreKnown n m) f known i z (of-erase_literals whole c z k)) in
        let shared_value : (ρ : Valuation) → any_true ρ us.0 ≡ not (all_hold (values m ρ) whole) =
          λ ρ.
            us.4 ρ
            ∙ ap not (
                turned-negate_clause before sorting (values m ρ) whole
                  (λ z k. NegatedKnown-nonzero m z (shared_known z k))) in
        let value : (ρ : Valuation)
            → some_clause (values m ρ) f
              ≡ (if all_hold (values m ρ) whole then some_clause (values m ρ) g else false) =
          λ ρ. some_clause-erase_literals (values m ρ) whole f sub in
        elim (all_or_none whole f sub
          (λ c i. (AllOf-Mem (IsGood (NegatedKnown n m)) f good i).sorted) anti) [
            | inl empty ↦ (
              node (builtin logical_or) us.0,
              rw (build_ands, extract_cnf, no_children before sorting n m g empty, appended) refl,
              or_IsLogical us.0 us.2 some_us,
              λ ρ.
                  let holds =
                    empty_holds (values m ρ) g
                      (omega (arith, length-map (erase_literals whole) f, some_f)) empty in
                  let v = value ρ in let s = shared_value ρ in s ∙ rw (v, holds) (ground arith),
            )
            | inr full ↦
                let r = full_children before sorting n m g rest_known full in
                let two : 2 ≤ count r.0 =
                  omega (arith, r.3, length-map (erase_literals whole) f, several (omega arith)) in
                let t = with_several r.0 us.0 r.2 two us.2 in
                (
                  with_intersection (and_of r.0) us.0,
                  rw (build_ands, extract_cnf, r.1, appended) refl,
                  t.0,
                  λ ρ.
                      let v = value ρ in
                      let s = shared_value ρ in
                      let c = r.4 ρ in t.1 ρ ∙ rw (c, s, v) (ground arith),
                )
          ]
