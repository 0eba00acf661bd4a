-- ===== src/Reduct/Mapper/Extract.antt =====
-- `extract_dnf` makes a logical tree of clauses whose literals are known, with their truth.
use asmoses.Base.{
  length, ℕ, suc, ◌≡◌, refl, ap, ◌∙◌, inl, inr, true, false, not, Bool-cases, [], ◌∷◌, some,
  if◌then◌else◌, arith, subst,
}
use asmoses.Base.Int.{ℤ, pos, negsuc, neg, eqb_ℤ, eqb_ℤ_iff}
use asmoses.Threads.{AllOf}
use asmoses.Combo.Tree.{
  count, node, nil, cons, logical_and, logical_true, argument, builtin, ComboTree, ComboForest,
  append, negate_argument,
}
use asmoses.Combo.Denote.{
  Valuation, literal, truth, all_true, any_true, vertex_truth, IsLogical, AreLogical, done, more,
  true_leaf, false_leaf, literal_leaf, conjunction, disjunction,
}
use asmoses.Reduct.Clauses.{Clause, Nf, contains}
use asmoses.Reduct.Clauses.Truth.{flip, literal-flip, all_hold, some_clause, literal-neg}
use asmoses.Reduct.Mapper.{
  Mapper, find_int, negate_top, create, create_all, extract_clause, extract_dnf, or_of,
}
use asmoses.Reduct.Mapper.Items.{values, IsKnown}

module _ {C : Type 0} where
  abbrev leaf : ℤ → ComboTree C
  leaf i = node (argument i) nil

  negated-leaf :
      {n : ℕ} (i : ℤ)
      → IsLogical n (leaf i)
      → IsLogical n (leaf (neg i)) × ((ρ : Valuation) → literal ρ (neg i) ≡ not (literal ρ i))
  negated-leaf i (literal_leaf _ p q) = (
    literal_leaf (neg i) (ground (arith, p)) (ground (arith, q)),
    λ ρ. literal-neg ρ i (λ e. ground (arith, p, e)),
  )

  created :
      (m : Mapper C) (i : ℕ) (a : ℤ)
      → find_int (suc i) m.int2item ≡ some (node (argument a) nil)
      → create m (negsuc i) ≡ some (node (argument (neg a)) nil)
  unfolding create negate_top negate_argument
  created m i a f = rw (create, f) refl

  leaf-truth :
      (m : Mapper C) (i : ℕ) (a : ℤ)
      → find_int (suc i) m.int2item ≡ some (node (argument a) nil)
      → (ρ : Valuation) → literal ρ (neg a) ≡ not (literal ρ a)
      → truth ρ (leaf (neg a)) ≡ literal (values m ρ) (negsuc i)
  unfolding truth vertex_truth
  leaf-truth m i a f ρ e = rw (values, f) e

  pub create_lem :
      {n : ℕ} (m : Mapper C) (x : ℤ)
      → IsKnown n m x
      → (u : ComboTree C) × (create m x ≡ some u)
        × IsLogical n u
        × ((ρ : Valuation) → truth ρ u ≡ literal (values m ρ) x)
  unfolding create
  create_lem m (pos i) k =
      let f = k.found in (k.item, rw (create, f) refl, k.logical, λ ρ. rw (values, f) refl)
  create_lem {n} m (negsuc i) k =
      let f = k.found in
      let s = k.signed refl in
      let leaf = negated-leaf s.0 (subst (λ t. IsLogical n t) s.1 k.logical) in
      (
        node (argument (neg s.0)) nil,
        created m i s.0 (f ∙ ap some s.1),
        leaf.0,
        λ ρ. leaf-truth m i s.0 (f ∙ ap some s.1) ρ (leaf.1 ρ),
      )

  pub create_all_lem :
      {n : ℕ} (m : Mapper C) (c : Clause)
      → ((x : ℤ) → contains c x ≡ true → IsKnown n m x)
      → (us : ComboForest C) × (create_all m c ≡ some us)
        × AreLogical n us
        × ((ρ : Valuation) → all_true ρ us ≡ all_hold (values m ρ) c)
        × ((ρ : Valuation) → any_true ρ us ≡ not (all_hold (flip (values m ρ)) c))
        × (count us ≡ length c)
  unfolding create_all contains truth all_hold
  create_all_lem m [] k = (nil, refl, done, λ ρ. refl, λ ρ. refl, refl)
  create_all_lem m (x ∷ c) k =
      let first = create_lem m x (k x (ground (arith, eqb_ℤ_iff x x))) in
      let rest = create_all_lem m c (λ z h. k z (ground (arith, h))) in
      (
        cons first.0 rest.0,
        rw (create_all, first.1, rest.1) refl,
        more first.2 rest.2,
        λ ρ. rw (all_true, first.3 ρ, rest.3 ρ) refl,
        λ ρ. rw (any_true, first.3 ρ, rest.4 ρ, literal-flip (values m ρ) x) (ground arith),
        omega (arith, rest.5),
      )

  -- Each literal of the clause has an item.
  abbrev pub HasKnown : ℕ → Mapper C → Clause → Type 0
  HasKnown n m c = (x : ℤ) → contains c x ≡ true → IsKnown n m x

  extract_clause_lem :
      {n : ℕ} (m : Mapper C) (x : ℤ) (c : Clause)
      → ((z : ℤ) → contains (x ∷ c) z ≡ true → IsKnown n m z)
      → (us : ComboForest C) × (extract_clause m (x ∷ c) ≡ some us)
        × AreLogical n us
        × ((ρ : Valuation) → any_true ρ us ≡ all_hold (values m ρ) (x ∷ c))
  unfolding extract_clause contains create_all truth vertex_truth all_hold
  extract_clause_lem m x [] k =
      let known = k x (ground (arith, eqb_ℤ_iff x x)) in
      let one = create_lem m x known in
      let zero_not : eqb_ℤ x (pos 0) ≡ false = elim (Bool-cases (eqb_ℤ x (pos 0))) [
        | inl e ↦ absurd (known.nonzero ((eqb_ℤ_iff x (pos 0)).0 e))
        | inr e ↦ e
      ] in
      (
        cons one.0 nil,
        rw (extract_clause, zero_not, create_all, one.1) refl,
        more one.2 done,
        λ ρ. rw (any_true, one.3 ρ) refl,
      )
  extract_clause_lem m x (y ∷ c) k =
      let first = create_lem m x (k x (ground (arith, eqb_ℤ_iff x x))) in
      let rest = create_all_lem m (y ∷ c) (λ z h. k z (ground (arith, h))) in
      (
        cons (node (builtin logical_and) (cons first.0 rest.0)) nil,
        rw (extract_clause, create_all, first.1, rest.1) refl,
        more (conjunction first.2 rest.2) done,
        λ ρ. let here = first.3 ρ in let there = rest.3 ρ in ground (arith, here, there),
      )

  AreLogical-append :
      {n : ℕ} (ts us : ComboForest C)
      → AreLogical n ts
      → AreLogical n us
      → AreLogical n (append ts us)
  AreLogical-append nil us done l = l
  AreLogical-append (cons t ts) us (more k ks) l = more k (AreLogical-append ts us ks l)

  any_true-append :
      (ρ : Valuation) (ts us : ComboForest C)
      → any_true ρ (append ts us) ≡ (if any_true ρ ts then true else any_true ρ us)
  unfolding truth
  any_true-append ρ nil us = refl
  any_true-append ρ (cons t ts) us = rw (any_true-append ρ ts us) (ground arith)

  or_of_lem :
      {n : ℕ} (ts : ComboForest C)
      → AreLogical n ts
      → IsLogical n (or_of ts) × ((ρ : Valuation) → truth ρ (or_of ts) ≡ any_true ρ ts)
  unfolding or_of truth vertex_truth
  or_of_lem nil done = (false_leaf, λ ρ. refl)
  or_of_lem (cons t nil) (more l done) = (l, λ ρ. ground arith)
  or_of_lem (cons t (cons u us)) (more l ls) = (disjunction l ls, λ ρ. refl)

  pub extract_dnf_lem :
      {n : ℕ} (m : Mapper C) (ts : ComboForest C) (f : Nf)
      → AreLogical n ts
      → AllOf (HasKnown n m) f
      → (t : ComboTree C) × (extract_dnf m ts f ≡ some t)
        × IsLogical n t
        × ((ρ : Valuation)
            → truth ρ t ≡ (if any_true ρ ts then true else some_clause (values m ρ) f))
  unfolding extract_dnf AllOf some_clause all_hold truth vertex_truth
  extract_dnf_lem m ts [] l a =
      let r = or_of_lem ts l in (or_of ts, refl, r.0, λ ρ. r.1 ρ ∙ ground arith)
  extract_dnf_lem m ts ([] ∷ f) l a =
      (node (builtin logical_true) nil, refl, true_leaf, λ ρ. ground arith)
  extract_dnf_lem m ts ((x ∷ c) ∷ f) l a =
      let here = extract_clause_lem m x c a.0 in
      let rest =
        extract_dnf_lem m (append ts here.0) f (AreLogical-append ts here.0 l here.2) a.1 in
      (
        rest.0,
        rw (extract_dnf, here.1) rest.1,
        rest.2,
        λ ρ.
            let appended = any_true-append ρ ts here.0 in
            let clause_truth = here.3 ρ in rest.3 ρ ∙ rw (appended, clause_truth) (ground arith),
      )
