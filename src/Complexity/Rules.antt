-- ===== src/Complexity/Rules.antt =====
-- Reductions of logical trees that keep the complexity.
use native.Mathlib.Nat.{mod-add-mod, add-mod-mod}
use asmoses.Base.{
  ℕ, zero, suc, ◌+◌, ◌%◌, ◌≡◌, refl, ◌∙◌, Bool, true, false, arith, inl, inr, Bool-cases,
}
use asmoses.Combo.Tree.{
  node, nil, cons, logical_and, logical_or, Vertex, builtin, ComboTree, ComboForest, map_forest,
  append,
}
use asmoses.Combo.Denote.{
  IsLogical, AreLogical, true_leaf, false_leaf, literal_leaf, conjunction, disjunction, negation,
  done, more,
}
use asmoses.Reduct.Rules.{
  reduce_nots, not_node, downwards, descend, level, flatten, flatten_all, same_associative,
}
use asmoses.Reduct.Sound.{reduce_nots-IsSound}
use asmoses.Complexity.{
  unsigned_range, is_free, is_unit, weight, is_contin_knob, tree_complexity, complexity_from,
}

module _ {C : Type 0} (is_zero : C → Bool) (is_result : ℕ → Bool) where
  -- The complexity where no stopper is given.
  abbrev pub complexity : ComboTree C → ℕ
  complexity = tree_complexity is_zero is_result (λ t. false)

  abbrev from : ℕ → ComboForest C → ℕ
  from = complexity_from is_zero is_result (λ t. false)

  from-not : (ts : ComboForest C) (c : ℕ) → from c (map_forest not_node ts) ≡ from c ts
  unfolding tree_complexity is_free is_unit is_contin_knob
  from-not nil c = refl
  from-not (cons t ts) c = from-not ts _

  complexity-reduce_nots :
      (n : ℕ) (t : ComboTree C) → IsLogical n t → complexity (reduce_nots t) ≡ complexity t
  unfolding reduce_nots tree_complexity is_free is_unit is_contin_knob weight
  complexity-reduce_nots n t true_leaf = refl
  complexity-reduce_nots n t false_leaf = refl
  complexity-reduce_nots n t (literal_leaf i p q) = refl
  complexity-reduce_nots n t (conjunction p ps) = refl
  complexity-reduce_nots n t (disjunction p ps) = refl
  complexity-reduce_nots n t (negation true_leaf) = refl
  complexity-reduce_nots n t (negation false_leaf) = refl
  complexity-reduce_nots n t (negation (literal_leaf i p q)) = refl
  complexity-reduce_nots n t (negation (conjunction {t = u} {ts} p ps)) = from-not ts _
  complexity-reduce_nots n t (negation (disjunction {t = u} {ts} p ps)) = from-not ts _
  complexity-reduce_nots n t (negation (negation {t = u} p)) = complexity-reduce_nots n u p

  module _ (n : ℕ) (f : ComboTree C → ComboTree C)
      (same : (t : ComboTree C) → IsLogical n t → complexity (f t) ≡ complexity t) where
    from-map : (ts : ComboForest C) (c : ℕ) → AreLogical n ts → from c (map_forest f ts) ≡ from c ts
    unfolding tree_complexity
    from-map nil c done = refl
    from-map (cons t ts) c (more p ps) = rw (complexity_from, same t p) (from-map ts _ ps)

    complexity-descend : (t : ComboTree C) → IsLogical n t → complexity (descend f t) ≡ complexity t
    unfolding tree_complexity is_free is_unit is_contin_knob weight
    complexity-descend t true_leaf = refl
    complexity-descend t false_leaf = refl
    complexity-descend t (literal_leaf i p q) = refl
    complexity-descend t (conjunction {t = u} {ts} p ps) = from-map (cons u ts) 0 (more p ps)
    complexity-descend t (disjunction {t = u} {ts} p ps) = from-map (cons u ts) 0 (more p ps)
    complexity-descend t (negation {t = u} p) = same u p

  -- `downwards(reduce_nots)` keeps the complexity of a logical tree, however deep it goes.
  pub complexity-downwards :
      (n fuel : ℕ) (t : ComboTree C)
      → IsLogical n t
      → complexity (downwards reduce_nots fuel t) ≡ complexity t
  unfolding downwards
  complexity-downwards n zero t p = refl
  complexity-downwards n (suc fuel) t p =
      let q = reduce_nots-IsSound n t p in
      complexity-descend n (downwards reduce_nots fuel) (complexity-downwards n fuel)
        (reduce_nots t) (q.0)
      ∙ complexity-reduce_nots n t p

  -- Adding what is left to a sum, wherever the sum wraps.
  from-add :
      (ts : ComboForest C) (c : ℕ) → from (c % unsigned_range) ts ≡ (c + from 0 ts) % unsigned_range
  unfolding tree_complexity
  from-add nil c = let z : c + 0 ≡ c = omega arith in rw z refl
  from-add (cons t ts) c =
      let x = complexity t in
      let rest = from 0 ts in
      let left = from-add ts (c % unsigned_range + x) in
      let right = from-add ts (0 + x) in
      let a : c % unsigned_range + x + rest ≡ c % unsigned_range + (0 + x + rest) = omega arith in
      rw (left, right, add-mod-mod c (0 + x + rest) unsigned_range, a) (mod-add-mod _ _ _)

  from-append : (ts us : ComboForest C) (c : ℕ) → from c (append ts us) ≡ from (from c ts) us
  unfolding tree_complexity
  from-append nil us c = refl
  from-append (cons t ts) us c = from-append ts us _

  -- An operator that adds nothing of its own.
  module _ (v : Vertex C)
      (free : (w : Vertex C) (ts : ComboForest C)
        → same_associative v w ≡ true
        → complexity (node w ts) ≡ from 0 ts) where
    mutual
      unfolding flatten complexity_from

      from-flatten :
          (t : ComboTree C) (c : ℕ)
          → from (c % unsigned_range) (flatten v t) ≡ (c + complexity t) % unsigned_range
      from-flatten (node w ts) c = elim (Bool-cases (same_associative v w)) [
        | inl e ↦ rw (flatten, e, free w ts e) (from-flatten_all ts c ∙ from-add ts c)
        | inr e ↦ rw (flatten, e) (mod-add-mod c unsigned_range (complexity (node w ts)))
      ]

      from-flatten_all :
          (ts : ComboForest C) (c : ℕ)
          → from (c % unsigned_range) (flatten_all v ts) ≡ from (c % unsigned_range) ts
      from-flatten_all nil c = refl
      from-flatten_all (cons t ts) c =
          let m = mod-add-mod c unsigned_range (complexity t) in
          rw (from-append (flatten v t) (flatten_all v ts) (c % unsigned_range), from-flatten t c)
            (rw m (from-flatten_all ts (c + complexity t)))

  and_free :
      (w : Vertex C) (ts : ComboForest C)
      → same_associative (builtin logical_and) w ≡ true
      → complexity (node w ts) ≡ from 0 ts
  unfolding same_associative tree_complexity is_free is_unit is_contin_knob weight
  and_free (builtin logical_and) ts e = refl
  and_free w ts e = absurd (ground arith)

  or_free :
      (w : Vertex C) (ts : ComboForest C)
      → same_associative (builtin logical_or) w ≡ true
      → complexity (node w ts) ≡ from 0 ts
  unfolding same_associative tree_complexity is_free is_unit is_contin_knob weight
  or_free (builtin logical_or) ts e = refl
  or_free w ts e = absurd (ground arith)

  -- `level` keeps the complexity of a logical tree.
  pub complexity-level :
      (n : ℕ) (t : ComboTree C) → IsLogical n t → complexity (level t) ≡ complexity t
  unfolding level same_associative tree_complexity is_free is_unit is_contin_knob weight
  complexity-level n t true_leaf = refl
  complexity-level n t false_leaf = refl
  complexity-level n t (literal_leaf i p q) = refl
  complexity-level n t (conjunction {t = u} {ts} p ps) =
      from-flatten_all (builtin logical_and) and_free (cons u ts) 0
  complexity-level n t (disjunction {t = u} {ts} p ps) =
      from-flatten_all (builtin logical_or) or_free (cons u ts) 0
  complexity-level n t (negation p) = refl
