-- ===== src/Reduct/Conjunctions/Made.antt =====
-- The parts of the tree that `reduce_ands` builds of the reduced clauses.
use asmoses.Base.{
  ℕ, ◌≤◌, ◌≡◌, ◌≢◌, refl, ap, ◌∙◌, Bool, true, not, [], ◌∷◌, map, arith, if◌then◌else◌, length,
  some, subst,
}
use asmoses.Base.Int.{ℤ, pos, neg, neg-neg, eqb_ℤ_iff}
use asmoses.Threads.{AllOf}
use asmoses.Combo.Tree.{nil, cons, ComboForest, count}
use asmoses.Combo.Denote.{
  Valuation, truth, all_true, any_true, vertex_truth, IsLogical, AreLogical, done, more,
  conjunction, disjunction,
}
use asmoses.Reduct.Clauses.{Clause, Nf, contains}
use asmoses.Reduct.Clauses.Truth.{all_hold, some_clause, flip}
use asmoses.Reduct.Clauses.Sorted.{IsAbsoluteOrder}
use asmoses.Reduct.Clauses.Ends.{AllOf-Mem}
use asmoses.Reduct.Mapper.{Mapper}
use asmoses.Reduct.Mapper.Items.{values, IsKnown}
use asmoses.Reduct.Mapper.Extract.{HasKnown}
use asmoses.Reduct.Conjunctions.{
  negate_clause, erase_literals, extract_children, and_of, with_intersection,
}
use asmoses.Reduct.Conjunctions.Literals.{in-negate_clause, of-negate_clause, turned-negate_clause}
use asmoses.Reduct.Conjunctions.Extract.{none_extracted, extract_children_lem}
use asmoses.Reduct.Conjunctions.Shared.{AllOf-map}

length_of_contains : (c : Clause) (z : ℤ) → contains c z ≡ true → 1 ≤ length c
unfolding contains
length_of_contains [] z h = absurd (ground arith)
length_of_contains (x ∷ c) z h = omega arith

pub map-erase_nothing : (f : Nf) → map (erase_literals []) f ≡ f
unfolding erase_literals
map-erase_nothing [] = refl
map-erase_nothing (c ∷ f) = rw (map-erase_nothing f) refl

pub length-map : (g : Clause → Clause) (f : Nf) → length (map g f) ≡ length f
length-map g [] = refl
length-map g (c ∷ f) = omega (arith, length-map g f)

-- An empty clause holds.
pub empty_holds :
    (σ : Valuation) (f : Nf) → 1 ≤ length f → AllOf (λ c. length c ≡ 0) f → some_clause σ f ≡ true
unfolding AllOf some_clause all_hold
empty_holds σ [] l a = absurd (omega arith)
empty_holds σ ([] ∷ f) l a = refl
empty_holds σ ((x ∷ c) ∷ f) l a = absurd (omega (arith, a.0))

module _ {C : Type 0} where
  pub and_of_lem :
      {n : ℕ} (ts : ComboForest C)
      → AreLogical n ts
      → 1 ≤ count ts
      → IsLogical n (and_of ts) × ((ρ : Valuation) → truth ρ (and_of ts) ≡ all_true ρ ts)
  unfolding and_of truth vertex_truth
  and_of_lem nil l h = absurd (omega arith)
  and_of_lem (cons t nil) (more l done) h = (l, λ ρ. ground arith)
  and_of_lem (cons t (cons u us)) (more l ls) h = (conjunction l ls, λ ρ. refl)

  pub with_several :
      {n : ℕ} (ts us : ComboForest C)
      → AreLogical n ts
      → 2 ≤ count ts
      → AreLogical n us
      → IsLogical n (with_intersection (and_of ts) us)
        × ((ρ : Valuation)
            → truth ρ (with_intersection (and_of ts) us)
              ≡ (if all_true ρ ts then true else any_true ρ us))
  unfolding and_of with_intersection truth vertex_truth
  with_several nil us l h k = absurd (omega arith)
  with_several (cons t nil) us l h k = absurd (omega arith)
  with_several (cons t (cons u ts)) us (more l ls) h k =
      (disjunction (conjunction l ls) k, λ ρ. ground arith)

  -- The negated literals of the clause have items.
  abbrev pub NegatedKnown : ℕ → Mapper C → ℤ → Type 0
  NegatedKnown n m x = IsKnown n m (neg x)

  abbrev pub AreKnown : ℕ → Mapper C → Clause → Type 0
  AreKnown n m c = (x : ℤ) → contains c x ≡ true → NegatedKnown n m x

  pub NegatedKnown-nonzero : {n : ℕ} (m : Mapper C) (x : ℤ) → NegatedKnown n m x → x ≢ pos 0
  NegatedKnown-nonzero m x k e = k.nonzero (rw e refl)

  module _ (before : ℤ → ℤ → Bool) (sorting : IsAbsoluteOrder before) (n : ℕ) (m : Mapper C) where
    pub HasKnown-negate_clause :
        (c : Clause) → AreKnown n m c → HasKnown n m (negate_clause before c)
    HasKnown-negate_clause c k z h =
        subst (λ y. IsKnown n m y) (neg-neg z) (k (neg z) (of-negate_clause before sorting c z h))

    pub negated_length : (c : Clause) → 1 ≤ length c → 1 ≤ length (negate_clause before c)
    unfolding contains
    negated_length [] h = absurd (omega arith)
    negated_length (x ∷ c) h = length_of_contains _ (neg x) (
        in-negate_clause before sorting (x ∷ c) (neg x)
          (ground (arith, eqb_ℤ_iff (neg (neg x)) x, neg-neg x)))

    negated_value :
        (ρ : Valuation) (f : Nf)
        → AllOf (AreKnown n m) f
        → some_clause (flip (values m ρ)) (map (negate_clause before) f)
          ≡ some_clause (values m ρ) f
    unfolding AllOf some_clause
    negated_value ρ [] a = refl
    negated_value ρ (c ∷ f) a =
        let rest = negated_value ρ f a.1 in
        let here =
          turned-negate_clause before sorting (values m ρ) c
            (λ x k. NegatedKnown-nonzero m x (a.0 x k)) in
        rw (here, rest) refl

    pub full_children :
        (f : Nf)
        → AllOf (AreKnown n m) f
        → AllOf (λ c. 1 ≤ length c) f
        → (us : ComboForest C) × (extract_children m (map (negate_clause before) f) ≡ some us)
          × AreLogical n us
          × (count us ≡ length f)
          × ((ρ : Valuation) → all_true ρ us ≡ not (some_clause (values m ρ) f))
    full_children f a b =
        let r =
          extract_children_lem m (map (negate_clause before) f)
            (AllOf-map (HasKnown n m) (negate_clause before) f
              (λ c i. HasKnown-negate_clause c (AllOf-Mem (AreKnown n m) f a i)))
            (AllOf-map (λ c. 1 ≤ length c) (negate_clause before) f
              (λ c i. negated_length c (AllOf-Mem (λ d. 1 ≤ length d) f b i))) in
        (
          r.0,
          r.1,
          r.2,
          r.3 ∙ length-map (negate_clause before) f,
          λ ρ. let same = negated_value ρ f a in r.4 ρ ∙ ap not same,
        )

    empty_negated : (c : Clause) → length c ≡ 0 → length (negate_clause before c) ≡ 0
    unfolding negate_clause asmoses.Reduct.Clauses.insert_all
    empty_negated [] h = refl
    empty_negated (x ∷ c) h = absurd (omega (arith, h))

    pub no_children :
        (f : Nf)
        → AllOf (λ c. length c ≡ 0) f
        → extract_children m (map (negate_clause before) f) ≡ some nil
    no_children f b = none_extracted m (map (negate_clause before) f) (
        AllOf-map (λ c. length c ≡ 0) (negate_clause before) f
          (λ c i. empty_negated c (AllOf-Mem (λ d. length d ≡ 0) f b i)))
