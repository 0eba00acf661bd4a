-- ===== src/Reduct/Sound.antt =====
-- The rules and the strategies keep the truth of logical trees.
use asmoses.Base.{
  ℕ, zero, suc, ◌≡◌, refl, true, not, ◌&&◌, if◌then◌else◌, Option, List, [], ◌∷◌, arith, Bool-cases,
  inl, inr, ◌<◌,
}
use asmoses.Base.Int.{ℤ, pos, negsuc, nat_abs}
use asmoses.Combo.Tree.{
  nil, cons, Vertex, ComboTree, ComboForest, append, map_forest, negate_argument,
}
use asmoses.Combo.Denote.{
  Valuation, literal, IsLogical, AreLogical, truth, all_true, any_true, vertex_truth, true_leaf,
  false_leaf, literal_leaf, conjunction, disjunction, negation, done, more,
}
use asmoses.Reduct.Rules.{
  Rule, takes_and, insert_ands, remove_unary_junctors, reduce_nots, not_node,
}

-- Every rule of a list has a property.
abbrev pub All {ℓ κ} : {A : Type ℓ} (P : A → Type κ) (rules : List A) → Type κ
All P (r ∷ rules) = P r × All P rules
All P [] = Unit

module _ {C : Type 0} (n : ℕ) where
  -- A rule is sound if it takes each logical tree over `n` arguments to a logical tree over them
  -- that is true under the same valuations.
  abbrev pub IsSoundAt : Rule C → ComboTree C → Type 0
  IsSoundAt r t = IsLogical n (r t) × ((ρ : Valuation) → truth ρ (r t) ≡ truth ρ t)

  abbrev pub IsSound : Rule C → Type 0
  IsSound r = (t : ComboTree C) → IsLogical n t → IsSoundAt r t

module _ {C : Type 0} (ρ : Valuation) where
  all_true-not : (ts : ComboForest C) → all_true ρ (map_forest not_node ts) ≡ not (any_true ρ ts)
  unfolding truth vertex_truth
  all_true-not nil = refl
  all_true-not (cons t ts) = ground (arith, all_true-not ts)

  any_true-not : (ts : ComboForest C) → any_true ρ (map_forest not_node ts) ≡ not (all_true ρ ts)
  unfolding truth vertex_truth
  any_true-not nil = refl
  any_true-not (cons t ts) = ground (arith, any_true-not ts)

  pub all_true-append :
      (ts us : ComboForest C) → all_true ρ (append ts us) ≡ (all_true ρ ts && all_true ρ us)
  unfolding truth
  all_true-append nil us = refl
  all_true-append (cons t ts) us = ground (arith, all_true-append ts us)

  pub any_true-append :
      (ts us : ComboForest C)
      → any_true ρ (append ts us) ≡ (if any_true ρ ts then true else any_true ρ us)
  unfolding truth
  any_true-append nil us = refl
  any_true-append (cons t ts) us = ground (arith, any_true-append ts us)

literal-negate :
    (ρ : Valuation) (i : ℤ) → 0 < nat_abs i → literal ρ (negate_argument i) ≡ not (literal ρ i)
unfolding negate_argument
literal-negate ρ (pos zero) h = absurd (omega arith)
literal-negate ρ (pos (suc n)) h = refl
literal-negate ρ (negsuc n) h = ground arith

nat_abs-negate : (i : ℤ) → nat_abs (negate_argument i) ≡ nat_abs i
unfolding negate_argument
nat_abs-negate i = ground arith

module _ {C : Type 0} (n : ℕ) where
  AreLogical-not : {ts : ComboForest C} → AreLogical n ts → AreLogical n (map_forest not_node ts)
  AreLogical-not done = done
  AreLogical-not (more p ps) = more (negation p) (AreLogical-not ps)

  -- Pushing a negation inwards keeps the truth of a logical tree.
  pub reduce_nots-IsSound : IsSound {C = C} n reduce_nots
  unfolding reduce_nots truth vertex_truth
  reduce_nots-IsSound t true_leaf = (true_leaf, λ ρ. refl)
  reduce_nots-IsSound t false_leaf = (false_leaf, λ ρ. refl)
  reduce_nots-IsSound t (literal_leaf i p q) = (literal_leaf i p q, λ ρ. refl)
  reduce_nots-IsSound t (conjunction p ps) = (conjunction p ps, λ ρ. refl)
  reduce_nots-IsSound t (disjunction p ps) = (disjunction p ps, λ ρ. refl)
  reduce_nots-IsSound t (negation true_leaf) = (false_leaf, λ ρ. refl)
  reduce_nots-IsSound t (negation false_leaf) = (true_leaf, λ ρ. refl)
  reduce_nots-IsSound t (negation (literal_leaf i p q)) = (
    literal_leaf (negate_argument i) (rw nat_abs-negate p) (rw nat_abs-negate q),
    λ ρ. ground (arith, literal-negate ρ i p),
  )
  reduce_nots-IsSound t (negation (conjunction {t = u} {ts} p ps)) =
      (disjunction (negation p) (AreLogical-not ps), λ ρ. ground (arith, any_true-not ρ ts))
  reduce_nots-IsSound t (negation (disjunction {t = u} {ts} p ps)) =
      (conjunction (negation p) (AreLogical-not ps), λ ρ. ground (arith, all_true-not ρ ts))
  reduce_nots-IsSound t (negation (negation {t = u} p)) =
      let (q, same) = reduce_nots-IsSound u p in (q, λ ρ. ground (arith, same ρ))

  -- Taking a junctor of one child off keeps the truth.
  pub remove_unary_junctors-IsSound : IsSound {C = C} n remove_unary_junctors
  unfolding remove_unary_junctors truth vertex_truth
  remove_unary_junctors-IsSound t true_leaf = (true_leaf, λ ρ. refl)
  remove_unary_junctors-IsSound t false_leaf = (false_leaf, λ ρ. refl)
  remove_unary_junctors-IsSound t (literal_leaf i p q) = (literal_leaf i p q, λ ρ. refl)
  remove_unary_junctors-IsSound t (negation p) = (negation p, λ ρ. refl)
  remove_unary_junctors-IsSound t (conjunction {t = u} p done) = (p, λ ρ. ground arith)
  remove_unary_junctors-IsSound t (conjunction p (more q qs)) =
      (conjunction p (more q qs), λ ρ. refl)
  remove_unary_junctors-IsSound t (disjunction {t = u} p done) = (p, λ ρ. ground arith)
  remove_unary_junctors-IsSound t (disjunction p (more q qs)) =
      (disjunction p (more q qs), λ ρ. refl)

  -- Putting a conjunction above an argument or a disjunction keeps the truth, under any parent.
  pub insert_ands-IsSound : (parent : Option (Vertex C)) → IsSound {C = C} n (insert_ands parent)
  unfolding insert_ands truth vertex_truth
  insert_ands-IsSound parent t true_leaf = (true_leaf, λ ρ. refl)
  insert_ands-IsSound parent t false_leaf = (false_leaf, λ ρ. refl)
  insert_ands-IsSound parent t (negation p) = (negation p, λ ρ. refl)
  insert_ands-IsSound parent t (conjunction p ps) = (conjunction p ps, λ ρ. refl)
  insert_ands-IsSound parent t (literal_leaf i p q) = elim (Bool-cases (takes_and parent)) [
    | inl e ↦ rw (e, insert_ands) (conjunction (literal_leaf i p q) done, λ ρ. ground arith)
    | inr e ↦ rw (e, insert_ands) (literal_leaf i p q, λ ρ. refl)
  ]
  insert_ands-IsSound parent t (disjunction p ps) = elim (Bool-cases (takes_and parent)) [
    | inl e ↦ rw (e, insert_ands) (conjunction (disjunction p ps) done, λ ρ. ground arith)
    | inr e ↦ rw (e, insert_ands) (disjunction p ps, λ ρ. refl)
  ]

  pub append-AreLogical :
      {ts us : ComboForest C} → AreLogical n ts → AreLogical n us → AreLogical n (append ts us)
  append-AreLogical done q = q
  append-AreLogical (more p ps) q = more p (append-AreLogical ps q)
