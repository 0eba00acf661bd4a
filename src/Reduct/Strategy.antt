-- ===== src/Reduct/Strategy.antt =====
-- The strategies of opencog/asmoses/reduct/rules/meta_rules.cc keep the truth of logical trees where
-- the rule that they apply does.
use asmoses.Base.{ℕ, zero, suc, ◌≡◌, refl, ◌∙◌, ap, List, [], ◌∷◌, arith}
use asmoses.Combo.Tree.{node, nil, cons, Vertex, ComboTree, ComboForest, count, map_forest}
use asmoses.Combo.Denote.{
  Valuation, IsLogical, AreLogical, truth, all_true, any_true, true_leaf, false_leaf, literal_leaf,
  conjunction, disjunction, negation, done, more,
}
use asmoses.Reduct.Rules.{Rule, upwards, upwards_all, downwards, descend, sequential}
use asmoses.Reduct.Sound.{All, IsSound, IsSoundAt}

-- One forest may stand for another under any vertex: as many logical trees, of which all and any are
-- true as before.
record Replaces {C : Type 0} (n : ℕ) (us ts : ComboForest C) : Type 0 where
  logical : AreLogical n us
  counts : count us ≡ count ts
  all_same : (ρ : Valuation) → all_true ρ us ≡ all_true ρ ts
  any_same : (ρ : Valuation) → any_true ρ us ≡ any_true ρ ts

module _ {C : Type 0} (n : ℕ) where
  pub head-IsLogical :
      {t : ComboTree C} {ts : ComboForest C} → AreLogical n (cons t ts) → IsLogical n t
  head-IsLogical (more p ps) = p

  pub tail-IsLogical :
      {t : ComboTree C} {ts : ComboForest C} → AreLogical n (cons t ts) → AreLogical n ts
  tail-IsLogical (more p ps) = ps

  node-IsLogical :
      (v : Vertex C) (us : ComboForest C) {ts : ComboForest C}
      → IsLogical n (node v ts)
      → AreLogical n us
      → count us ≡ count ts
      → IsLogical n (node v us)
  node-IsLogical v nil true_leaf q e = true_leaf
  node-IsLogical v nil false_leaf q e = false_leaf
  node-IsLogical v nil (literal_leaf i p p') q e = literal_leaf i p p'
  node-IsLogical v nil (conjunction p ps) q e = absurd (omega arith)
  node-IsLogical v nil (disjunction p ps) q e = absurd (omega arith)
  node-IsLogical v nil (negation p) q e = absurd (omega arith)
  node-IsLogical v (cons u us) true_leaf q e = absurd (omega arith)
  node-IsLogical v (cons u us) false_leaf q e = absurd (omega arith)
  node-IsLogical v (cons u us) (literal_leaf i p p') q e = absurd (omega arith)
  node-IsLogical v (cons u us) (conjunction p ps) q e =
      conjunction (head-IsLogical q) (tail-IsLogical q)
  node-IsLogical v (cons u us) (disjunction p ps) q e =
      disjunction (head-IsLogical q) (tail-IsLogical q)
  node-IsLogical v (cons u nil) (negation p) q e = negation (head-IsLogical q)
  node-IsLogical v (cons u (cons w us)) (negation p) q e = absurd (omega arith)

  pub children-IsLogical :
      {v : Vertex C} {ts : ComboForest C} → IsLogical n (node v ts) → AreLogical n ts
  children-IsLogical true_leaf = done
  children-IsLogical false_leaf = done
  children-IsLogical (literal_leaf i p q) = done
  children-IsLogical (conjunction p ps) = more p ps
  children-IsLogical (disjunction p ps) = more p ps
  children-IsLogical (negation p) = more p done

  node_sound :
      (v : Vertex C) (us ts : ComboForest C)
      → IsLogical n (node v ts)
      → Replaces n us ts
      → IsLogical n (node v us) × ((ρ : Valuation) → truth ρ (node v us) ≡ truth ρ (node v ts))
  unfolding truth
  node_sound v us ts p r =
      (node-IsLogical v us p r.logical r.counts, λ ρ. rw (r.all_same ρ, r.any_same ρ))

  cons-Replaces :
      (u t : ComboTree C) (us ts : ComboForest C)
      → IsLogical n u
      → ((ρ : Valuation) → truth ρ u ≡ truth ρ t)
      → Replaces n us ts
      → Replaces n (cons u us) (cons t ts)
  unfolding truth
  cons-Replaces u t us ts p same r = record {
    logical = more p r.logical;
    counts = ap suc r.counts;
    all_same = λ ρ. rw (same ρ, r.all_same ρ);
    any_same = λ ρ. rw (same ρ, r.any_same ρ);
  }

  nil-Replaces : Replaces {C = C} n nil nil
  nil-Replaces = record {
    logical = done;
    counts = refl;
    all_same = λ ρ. refl;
    any_same = λ ρ. refl;
  }

  map-Replaces :
      (f : Rule C) (ts : ComboForest C)
      → IsSound n f
      → AreLogical n ts
      → Replaces n (map_forest f ts) ts
  map-Replaces f nil sound p = nil-Replaces
  map-Replaces f (cons t ts) sound p =
      let (q, same) = sound t (head-IsLogical p) in
      cons-Replaces (f t) t _ ts q same (map-Replaces f ts sound (tail-IsLogical p))

  descend-IsSound : (f : Rule C) → IsSound n f → IsSound n (descend f)
  descend-IsSound f sound (node v ts) p =
      node_sound v _ ts p (map-Replaces f ts sound (children-IsLogical p))

module _ {C : Type 0} (n : ℕ) (r : Rule C) (sound : IsSound n r) where
  mutual
    unfolding upwards

    upwards_sound : (t : ComboTree C) → IsLogical n t → IsSoundAt n (upwards r) t
    upwards_sound (node v ts) p =
        let (q, same) =
          node_sound n v (upwards_all r ts) ts p (upwards-Replaces ts (children-IsLogical n p)) in
        let (q', same') = sound (node v (upwards_all r ts)) q in (q', λ ρ. same' ρ ∙ same ρ)

    upwards-Replaces : (ts : ComboForest C) → AreLogical n ts → Replaces n (upwards_all r ts) ts
    upwards-Replaces nil p = nil-Replaces n
    upwards-Replaces (cons t ts) p =
        let (q, same) = upwards_sound t (head-IsLogical n p) in
        cons-Replaces n (upwards r t) t _ ts q same (upwards-Replaces ts (tail-IsLogical n p))

  -- From the leaves to the root, a sound rule keeps the truth.
  pub upwards-IsSound : IsSound n (upwards r)
  upwards-IsSound t p = upwards_sound t p

  -- From the root down, a sound rule keeps the truth, whatever the fuel.
  pub downwards-IsSound : (fuel : ℕ) → IsSound n (downwards r fuel)
  unfolding downwards
  downwards-IsSound zero t p = (p, λ ρ. refl)
  downwards-IsSound (suc fuel) t p =
      let (q, same) = sound t p in
      let (q', same') = descend-IsSound n (downwards r fuel) (downwards-IsSound fuel) (r t) q in
      (q', λ ρ. same' ρ ∙ same ρ)

-- Sound rules in a row are a sound rule.
pub sequential-IsSound :
    {C : Type 0} (n : ℕ) (rs : List (Rule C)) → All (IsSound n) rs → IsSound n (sequential rs)
unfolding sequential
sequential-IsSound n [] h t p = (p, λ ρ. refl)
sequential-IsSound n (r ∷ rs) h t p =
    let (q, same) = h.0 t p in
    let (q', same') = sequential-IsSound n rs h.1 (r t) q in (q', λ ρ. same' ρ ∙ same ρ)
