-- ===== src/Reduct/Identities.antt =====
-- `eval_logical_identities` at the root of a logical tree keeps the truth, unless it leaves a junctor without
-- children.
use asmoses.Base.{false, Bool, Option, none, if◌then◌else◌, ◌≢◌, ℕ, ◌≡◌, refl, true, some, arith}
use asmoses.Combo.Tree.{node, nil, cons, logical_and, logical_or, builtin, ComboTree, ComboForest}
use asmoses.Combo.Denote.{
  Valuation, IsLogical, AreLogical, truth, all_true, any_true, vertex_truth, true_leaf, false_leaf,
  literal_leaf, conjunction, disjunction, negation, done, more,
}
use asmoses.Reduct.Rules.{
  is_true_node, is_false_node, and_identities, or_identities, and_node, or_node,
  eval_logical_identities,
}

module _ {C : Type 0} (n : ℕ) (ρ : Valuation) where
  -- What the loop leaves of the children of a conjunction has the truth of all of them.
  truth-and_identities :
      {ts : ComboForest C}
      → AreLogical n ts
      → truth ρ (and_node (and_identities ts)) ≡ all_true ρ ts
  unfolding and_identities and_node truth vertex_truth
  truth-and_identities done = refl
  truth-and_identities (more {ts = us} true_leaf ps) = truth-and_identities ps
  truth-and_identities (more {ts = us} false_leaf ps) = refl
  truth-and_identities (more {ts = us} (literal_leaf i p q) ps) =
      ground (arith, truth-and_identities ps)
  truth-and_identities (more {ts = us} (conjunction p qs) ps) =
      ground (arith, truth-and_identities ps)
  truth-and_identities (more {ts = us} (disjunction p qs) ps) =
      ground (arith, truth-and_identities ps)
  truth-and_identities (more {ts = us} (negation p) ps) = ground (arith, truth-and_identities ps)

  truth-or_identities :
      {ts : ComboForest C} → AreLogical n ts → truth ρ (or_node (or_identities ts)) ≡ any_true ρ ts
  unfolding or_identities or_node truth vertex_truth
  truth-or_identities done = refl
  truth-or_identities (more {ts = us} true_leaf ps) = refl
  truth-or_identities (more {ts = us} false_leaf ps) = truth-or_identities ps
  truth-or_identities (more {ts = us} (literal_leaf i p q) ps) =
      ground (arith, truth-or_identities ps)
  truth-or_identities (more {ts = us} (conjunction p qs) ps) =
      ground (arith, truth-or_identities ps)
  truth-or_identities (more {ts = us} (disjunction p qs) ps) =
      ground (arith, truth-or_identities ps)
  truth-or_identities (more {ts = us} (negation p) ps) = ground (arith, truth-or_identities ps)

module _ {C : Type 0} where
  -- All the trees are the constant true, or all are the constant false.
  abbrev pub all_true_leaves : ComboForest C → Bool
  all_true_leaves nil = true
  all_true_leaves (cons t ts) =
      let rest = all_true_leaves ts in if is_true_node t then rest else false

  abbrev pub all_false_leaves : ComboForest C → Bool
  all_false_leaves nil = true
  all_false_leaves (cons t ts) =
      let rest = all_false_leaves ts in if is_false_node t then rest else false

  -- A conjunction of the constant true alone, or a disjunction of two or more of the constant false.
  unfoldable pub only_units : ComboTree C → Bool
  only_units (node (builtin logical_and) ts) = all_true_leaves ts
  only_units (node (builtin logical_or) (cons t nil)) = false
  only_units (node (builtin logical_or) ts) = all_false_leaves ts
  only_units t = false

  unfoldable LogicalIf : ℕ → Option (ComboForest C) → Type 0
  LogicalIf n none = Unit
  LogicalIf n (some ts) = AreLogical n ts

  abbrev keep : ComboTree C → Option (ComboForest C) → Option (ComboForest C)
  keep t rest = elim rest [ none ↦ none | some us ↦ some (cons t us) ]

  kept_more :
      {n : ℕ} {t : ComboTree C}
      → IsLogical n t
      → (rest : Option (ComboForest C)) → LogicalIf n rest
      → LogicalIf n (keep t rest)
  unfolding LogicalIf
  kept_more p none ls = tt
  kept_more p (some us) ls = more p ls

  kept_one : (t : ComboTree C) (rest : Option (ComboForest C)) → keep t rest ≢ some nil
  kept_one t none e = ground (arith, e)
  kept_one t (some us) e = ground (arith, e)

  and_made :
      {n : ℕ} (r : Option (ComboForest C)) → LogicalIf n r → r ≢ some nil → IsLogical n (and_node r)
  unfolding and_node LogicalIf
  and_made none l ne = false_leaf
  and_made (some nil) l ne = absurd (ne refl)
  and_made (some (cons t ts)) (more p ps) ne = conjunction p ps

  or_made :
      {n : ℕ} (r : Option (ComboForest C)) → LogicalIf n r → r ≢ some nil → IsLogical n (or_node r)
  unfolding or_node LogicalIf
  or_made none l ne = true_leaf
  or_made (some nil) l ne = absurd (ne refl)
  or_made (some (cons t ts)) (more p ps) ne = disjunction p ps

  and_kept : {n : ℕ} {ts : ComboForest C} → AreLogical n ts → LogicalIf n (and_identities ts)
  unfolding and_identities LogicalIf
  and_kept done = done
  and_kept (more {ts = us} true_leaf ps) = and_kept ps
  and_kept (more {ts = us} false_leaf ps) = tt
  and_kept (more {ts = us} (literal_leaf i p q) ps) =
      kept_more (literal_leaf i p q) (and_identities us) (and_kept ps)
  and_kept (more {ts = us} (conjunction p qs) ps) =
      kept_more (conjunction p qs) (and_identities us) (and_kept ps)
  and_kept (more {ts = us} (disjunction p qs) ps) =
      kept_more (disjunction p qs) (and_identities us) (and_kept ps)
  and_kept (more {ts = us} (negation p) ps) =
      kept_more (negation p) (and_identities us) (and_kept ps)

  and_units :
      {n : ℕ} {ts : ComboForest C}
      → AreLogical n ts
      → and_identities ts ≡ some nil
      → all_true_leaves ts ≡ true
  unfolding and_identities
  and_units done e = refl
  and_units (more {ts = us} true_leaf ps) e = and_units ps e
  and_units (more {ts = us} false_leaf ps) e = absurd (ground (arith, e))
  and_units (more {ts = us} (literal_leaf i p q) ps) e = absurd (kept_one _ (and_identities us) e)
  and_units (more {ts = us} (conjunction p qs) ps) e = absurd (kept_one _ (and_identities us) e)
  and_units (more {ts = us} (disjunction p qs) ps) e = absurd (kept_one _ (and_identities us) e)
  and_units (more {ts = us} (negation p) ps) e = absurd (kept_one _ (and_identities us) e)

  and_node-IsLogical :
      {n : ℕ} {ts : ComboForest C}
      → AreLogical n ts
      → all_true_leaves ts ≡ false
      → IsLogical n (and_node (and_identities ts))
  unfolding and_node
  and_node-IsLogical {ts} ls h =
      and_made (and_identities ts) (and_kept ls) (λ e. ground (arith, h, and_units ls e))

  or_kept : {n : ℕ} {ts : ComboForest C} → AreLogical n ts → LogicalIf n (or_identities ts)
  unfolding or_identities LogicalIf
  or_kept done = done
  or_kept (more {ts = us} true_leaf ps) = tt
  or_kept (more {ts = us} false_leaf ps) = or_kept ps
  or_kept (more {ts = us} (literal_leaf i p q) ps) =
      kept_more (literal_leaf i p q) (or_identities us) (or_kept ps)
  or_kept (more {ts = us} (conjunction p qs) ps) =
      kept_more (conjunction p qs) (or_identities us) (or_kept ps)
  or_kept (more {ts = us} (disjunction p qs) ps) =
      kept_more (disjunction p qs) (or_identities us) (or_kept ps)
  or_kept (more {ts = us} (negation p) ps) = kept_more (negation p) (or_identities us) (or_kept ps)

  or_units :
      {n : ℕ} {ts : ComboForest C}
      → AreLogical n ts
      → or_identities ts ≡ some nil
      → all_false_leaves ts ≡ true
  unfolding or_identities
  or_units done e = refl
  or_units (more {ts = us} true_leaf ps) e = absurd (ground (arith, e))
  or_units (more {ts = us} false_leaf ps) e = or_units ps e
  or_units (more {ts = us} (literal_leaf i p q) ps) e = absurd (kept_one _ (or_identities us) e)
  or_units (more {ts = us} (conjunction p qs) ps) e = absurd (kept_one _ (or_identities us) e)
  or_units (more {ts = us} (disjunction p qs) ps) e = absurd (kept_one _ (or_identities us) e)
  or_units (more {ts = us} (negation p) ps) e = absurd (kept_one _ (or_identities us) e)

  or_node-IsLogical :
      {n : ℕ} {ts : ComboForest C}
      → AreLogical n ts
      → all_false_leaves ts ≡ false
      → IsLogical n (or_node (or_identities ts))
  unfolding or_node
  or_node-IsLogical {ts} ls h =
      or_made (or_identities ts) (or_kept ls) (λ e. ground (arith, h, or_units ls e))

module _ {C : Type 0} (n : ℕ) where
  -- At the root of a logical tree that is neither a conjunction of the constant true alone nor a disjunction
  -- of two or more of the constant false, the identities leave a logical tree over as many arguments, with
  -- the same truth under every valuation.
  pub eval_logical_identities-IsSound :
      (t : ComboTree C)
      → IsLogical n t
      → only_units t ≡ false
      → IsLogical n (eval_logical_identities t)
        × ((ρ : Valuation) → truth ρ (eval_logical_identities t) ≡ truth ρ t)
  unfolding eval_logical_identities only_units truth vertex_truth
  eval_logical_identities-IsSound t true_leaf h = (true_leaf, λ ρ. refl)
  eval_logical_identities-IsSound t false_leaf h = (false_leaf, λ ρ. refl)
  eval_logical_identities-IsSound t (literal_leaf i p q) h = (literal_leaf i p q, λ ρ. refl)
  eval_logical_identities-IsSound t (negation p) h = (negation p, λ ρ. refl)
  eval_logical_identities-IsSound t (conjunction p ps) h =
      (and_node-IsLogical (more p ps) h, λ ρ. truth-and_identities n ρ (more p ps))
  eval_logical_identities-IsSound t (disjunction p done) h = (p, λ ρ. ground arith)
  eval_logical_identities-IsSound t (disjunction p (more q qs)) h =
      (or_node-IsLogical (more p (more q qs)) h, λ ρ. truth-or_identities n ρ (more p (more q qs)))
