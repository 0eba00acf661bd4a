-- ===== src/Reduct/Nnf.antt =====
-- `downwards(reduce_nots)`, the first step of the logical reductions of
-- opencog/asmoses/reduct/reduct/logical_reduction.cc, leaves no negation.
use asmoses.Base.{ℕ, zero, suc, ◌≡◌, refl, Bool, true, false, arith, ◌<◌, ◌≤◌}
use asmoses.Combo.Tree.{
  node, nil, cons, logical_not, Vertex, builtin, ComboTree, ComboForest, map_forest,
}
use asmoses.Combo.Denote.{
  Valuation, IsLogical, AreLogical, truth, true_leaf, false_leaf, literal_leaf, conjunction,
  disjunction, negation,
}
use asmoses.Combo.Tree.{height, height_forest, root}
use asmoses.Reduct.Rules.{Rule, reduce_nots, not_node, downwards, descend}
use asmoses.Reduct.Sound.{reduce_nots-IsSound}
use asmoses.Reduct.Strategy.{downwards-IsSound, head-IsLogical, tail-IsLogical, children-IsLogical}

abbrev pub is_not : {C : Type 0} → Vertex C → Bool
is_not (builtin logical_not) = true
is_not _ = false

-- No negation stands at any node (an argument carries its own sign).
mutual
  pub data IsNnf {C : Type 0} : ComboTree C → Type 0 where
    no_not : {v : Vertex C} {ts : ComboForest C} → is_not v ≡ false → AreNnf ts → IsNnf (node v ts)

  pub data AreNnf {C : Type 0} : ComboForest C → Type 0 where
    empty : AreNnf nil
    each : {t : ComboTree C} {ts : ComboForest C} → IsNnf t → AreNnf ts → AreNnf (cons t ts)

module _ {C : Type 0} where
  height_pos : (t : ComboTree C) → 0 < height t
  unfolding height
  height_pos (node v ts) = omega arith

  height-not :
      (ts : ComboForest C) → height_forest (map_forest not_node ts) ≤ suc (height_forest ts)
  unfolding height
  height-not nil = omega arith
  height-not (cons t ts) = omega (arith, height-not ts)

  height-reduce_nots : {n : ℕ} (t : ComboTree C) → IsLogical n t → height (reduce_nots t) ≤ height t
  unfolding reduce_nots height
  height-reduce_nots t true_leaf = omega arith
  height-reduce_nots t false_leaf = omega arith
  height-reduce_nots t (literal_leaf i p q) = omega arith
  height-reduce_nots t (conjunction p ps) = omega arith
  height-reduce_nots t (disjunction p ps) = omega arith
  height-reduce_nots t (negation true_leaf) = omega arith
  height-reduce_nots t (negation false_leaf) = omega arith
  height-reduce_nots t (negation (literal_leaf i p q)) = omega arith
  height-reduce_nots t (negation (conjunction {t = u} {ts} p ps)) = omega (arith, height-not ts)
  height-reduce_nots t (negation (disjunction {t = u} {ts} p ps)) = omega (arith, height-not ts)
  height-reduce_nots t (negation (negation {t = u} p)) = omega (arith, height-reduce_nots u p)

  root-reduce_nots :
      {n : ℕ} (t : ComboTree C) → IsLogical n t → is_not (root (reduce_nots t)) ≡ false
  unfolding reduce_nots
  root-reduce_nots t true_leaf = refl
  root-reduce_nots t false_leaf = refl
  root-reduce_nots t (literal_leaf i p q) = refl
  root-reduce_nots t (conjunction p ps) = refl
  root-reduce_nots t (disjunction p ps) = refl
  root-reduce_nots t (negation true_leaf) = refl
  root-reduce_nots t (negation false_leaf) = refl
  root-reduce_nots t (negation (literal_leaf i p q)) = refl
  root-reduce_nots t (negation (conjunction p ps)) = refl
  root-reduce_nots t (negation (disjunction p ps)) = refl
  root-reduce_nots t (negation (negation {t = u} p)) = root-reduce_nots u p

module _ {C : Type 0} (n : ℕ) where
  map-IsNnf :
      (f : Rule C) (fuel : ℕ) (ts : ComboForest C)
      → ((t : ComboTree C) → IsLogical n t → height t ≤ fuel → IsNnf (f t))
      → AreLogical n ts
      → height_forest ts ≤ fuel
      → AreNnf (map_forest f ts)
  unfolding height
  map-IsNnf f fuel nil rule p h = empty
  map-IsNnf f fuel (cons t ts) rule p h =
      each (rule t (head-IsLogical n p) (omega arith))
        (map-IsNnf f fuel ts rule (tail-IsLogical n p) (omega arith))

  descend-IsNnf :
      (f : Rule C) (fuel : ℕ) (t : ComboTree C)
      → ((u : ComboTree C) → IsLogical n u → height u ≤ fuel → IsNnf (f u))
      → IsLogical n t
      → is_not (root t) ≡ false
      → height t ≤ suc fuel
      → IsNnf (descend f t)
  unfolding height
  descend-IsNnf f fuel (node v ts) rule p e h =
      no_not e (map-IsNnf f fuel ts rule (children-IsLogical n p) (omega arith))

  nnf :
      (fuel : ℕ) (t : ComboTree C)
      → IsLogical n t
      → height t ≤ fuel
      → IsNnf (downwards reduce_nots fuel t)
  unfolding downwards
  nnf zero t p h = absurd (omega (arith, height_pos t))
  nnf (suc fuel) t p h =
      descend-IsNnf (downwards reduce_nots fuel) fuel (reduce_nots t) (nnf fuel)
        (reduce_nots-IsSound n t p).0 (root-reduce_nots t p) (omega (arith, height-reduce_nots t p))

  -- With fuel for its height, `downwards(reduce_nots)` turns a logical tree into one without
  -- negations, over the same arguments and true under the same valuations.
  pub downwards-reduce_nots :
      (fuel : ℕ) (t : ComboTree C)
      → IsLogical n t
      → height t ≤ fuel
      → IsNnf (downwards reduce_nots fuel t)
        × IsLogical n (downwards reduce_nots fuel t)
        × ((ρ : Valuation) → truth ρ (downwards reduce_nots fuel t) ≡ truth ρ t)
  downwards-reduce_nots fuel t p h =
      let (q, same) = downwards-IsSound n reduce_nots (reduce_nots-IsSound n) fuel t p in
      (nnf fuel t p h, q, same)
