-- ===== src/Reduct/Conjunctions/Extract.antt =====
-- `extract_cnf` makes a conjunction of the clauses, unless they are all empty.
use asmoses.Base.{
  ltb, true, zero, suc, ap, ◌∙◌, ℕ, ◌≤◌, ◌≡◌, refl, inl, inr, false, not, Bool-cases, [], ◌∷◌, some,
  length, arith,
}
use asmoses.Base.Int.{ℤ, negsuc, pos, eqb_ℤ, eqb_ℤ_iff}
use asmoses.Threads.{AllOf}
use asmoses.Combo.Tree.{node, nil, cons, logical_or, builtin, ComboForest, count}
use asmoses.Combo.Denote.{
  Valuation, truth, all_true, vertex_truth, IsLogical, AreLogical, done, more, disjunction,
}
use asmoses.Reduct.Clauses.{Clause, Nf, contains}
use asmoses.Reduct.Clauses.Truth.{all_hold, some_clause, flip, literal-flip}
use asmoses.Reduct.Mapper.{create, create_all, negate_top, Mapper}
use asmoses.Reduct.Mapper.Items.{values, IsKnown}
use asmoses.Reduct.Mapper.Extract.{HasKnown, create_lem, create_all_lem}
use asmoses.Reduct.Conjunctions.{
  negated_root, extract_conjunction, extract_shared, extract_children,
}

nonzero_eqb : (x : ℤ) → ¬ (x ≡ pos 0) → eqb_ℤ x (pos 0) ≡ false
nonzero_eqb x n = elim (Bool-cases (eqb_ℤ x (pos 0))) [
  | inl e ↦ absurd (n ((eqb_ℤ_iff x (pos 0)).0 e))
  | inr e ↦ e
]

module _ {C : Type 0} where
  pub or_IsLogical :
      {n : ℕ} (us : ComboForest C)
      → AreLogical n us
      → 1 ≤ count us
      → IsLogical n (node (builtin logical_or) us)
  or_IsLogical nil l h = absurd (omega arith)
  or_IsLogical (cons u us) (more l ls) h = disjunction l ls

  pub none_extracted :
      (m : Mapper C) (f : Nf) → AllOf (λ c. length c ≡ 0) f → extract_children m f ≡ some nil
  unfolding extract_children AllOf
  none_extracted m [] a = refl
  none_extracted m ([] ∷ f) a = none_extracted m f a.1
  none_extracted m ((x ∷ []) ∷ f) a = absurd (omega (arith, a.0))
  none_extracted m ((x ∷ y ∷ c) ∷ f) a = absurd (omega (arith, a.0))

  pub extract_children_lem :
      {n : ℕ} (m : Mapper C) (f : Nf)
      → AllOf (HasKnown n m) f
      → AllOf (λ c. 1 ≤ length c) f
      → (us : ComboForest C) × (extract_children m f ≡ some us)
        × AreLogical n us
        × (count us ≡ length f)
        × ((ρ : Valuation) → all_true ρ us ≡ not (some_clause (flip (values m ρ)) f))
  unfolding extract_children AllOf some_clause all_hold truth vertex_truth contains
  extract_children_lem m [] a b = (nil, refl, done, refl, λ ρ. refl)
  extract_children_lem m ([] ∷ f) a b = absurd (omega (arith, b.0))
  extract_children_lem m ((x ∷ []) ∷ f) a b =
      let known = a.0 x (ground (arith, eqb_ℤ_iff x x)) in
      let one = create_lem m x known in
      let rest = extract_children_lem m f a.1 b.1 in
      let zero_not = nonzero_eqb x known.nonzero in
      (
        cons one.0 rest.0,
        rw (extract_children, zero_not, one.1, rest.1) refl,
        more one.2 rest.2,
        omega (arith, rest.3),
        λ ρ. rw (all_true, one.3 ρ, rest.4 ρ, literal-flip (values m ρ) x) (ground arith),
      )
  extract_children_lem m ((x ∷ y ∷ c) ∷ f) a b =
      let all = create_all_lem m (x ∷ y ∷ c) a.0 in
      let rest = extract_children_lem m f a.1 b.1 in
      (
        cons (node (builtin logical_or) all.0) rest.0,
        rw (extract_children, all.1, rest.1) refl,
        more (or_IsLogical all.0 all.2 (omega (arith, all.5))) rest.2,
        omega (arith, rest.3),
        λ ρ. let here = all.4 ρ in let there = rest.4 ρ in rw (here, there) (ground arith),
      )

  one_shared :
      {n : ℕ} (m : Mapper C) (x : ℤ) → IsKnown n m x → extract_conjunction m (x ∷ []) ≡ create m x
  unfolding extract_conjunction negated_root create negate_top
  one_shared m (pos zero) k = absurd (k.nonzero refl)
  one_shared m (pos (suc i)) k =
      let zero_not = nonzero_eqb (pos (suc i)) k.nonzero in rw (extract_conjunction, zero_not) refl
  one_shared m (negsuc i) k =
      let s = k.signed refl in
      let f = k.found ∙ ap some s.1 in rw (extract_conjunction, negated_root, create, f) refl

  -- On known literals, what is appended for the intersection are the literals.
  pub extract_shared_lem :
      {n : ℕ} (m : Mapper C) (c : Clause) (us : ComboForest C)
      → HasKnown n m c
      → 1 ≤ length c
      → create_all m c ≡ some us
      → extract_shared m c ≡ some us
  unfolding extract_shared extract_conjunction create_all contains
  extract_shared_lem m [] us k h e = absurd (omega arith)
  extract_shared_lem m (x ∷ []) us k h e =
      let known = k x (ground (arith, eqb_ℤ_iff x x)) in
      let one = create_lem m x known in
      let same = one_shared m x known ∙ one.1 in
      rw (extract_shared, same) (rw (create_all, one.1) at e)
  extract_shared_lem m (x ∷ y ∷ c) us k h e =
      let several : ltb 1 (length (x ∷ y ∷ c)) ≡ true = ground arith in
      rw (extract_shared, extract_conjunction, e, several) refl
