-- ===== src/Reduct/Level.antt =====
-- `level` of opencog/asmoses/reduct/rules/general_rules.cc.
use asmoses.Base.{ℕ, ◌≡◌, refl, ◌∙◌, true, false, arith, Bool-cases, inl, inr, ◌<◌, ◌+◌}
use asmoses.Base.Int.{ℤ}
use asmoses.Combo.Tree.{
  node, nil, cons, Builtin, logical_true, logical_false, logical_and, logical_or, logical_not,
  Vertex, builtin, argument, ComboTree, ComboForest, append, count,
}
use asmoses.Combo.Denote.{
  Valuation, IsLogical, AreLogical, truth, all_true, any_true, vertex_truth, true_leaf, false_leaf,
  literal_leaf, conjunction, disjunction, negation, done, more,
}
use asmoses.Reduct.Rules.{same_associative, flatten, flatten_all, level}
use asmoses.Reduct.Sound.{IsSound, append-AreLogical, all_true-append, any_true-append}

module _ {C : Type 0} where
  -- No child is the operator of its parent.
  abbrev pub NoneSame : Vertex C → ComboForest C → Type 0
  NoneSame v nil = Unit
  NoneSame v (cons (node w us) ts) = (same_associative v w ≡ false) × NoneSame v ts

  NoneSame-append :
      (v : Vertex C) (ts us : ComboForest C)
      → NoneSame v ts
      → NoneSame v us
      → NoneSame v (append ts us)
  NoneSame-append v nil us p q = q
  NoneSame-append v (cons (node w ws) ts) us p q = (p.0, NoneSame-append v ts us p.1 q)

  mutual
    unfolding flatten

    flatten-NoneSame : (v : Vertex C) (t : ComboTree C) → NoneSame v (flatten v t)
    flatten-NoneSame v (node w ts) =
        let inner = flatten_all-NoneSame v ts in
        elim (Bool-cases (same_associative v w)) [ inl e ↦ rw e inner | inr e ↦ rw e (e, tt) ]

    flatten_all-NoneSame : (v : Vertex C) (ts : ComboForest C) → NoneSame v (flatten_all v ts)
    flatten_all-NoneSame v nil = tt
    flatten_all-NoneSame v (cons t ts) =
        NoneSame-append v (flatten v t) (flatten_all v ts) (flatten-NoneSame v t)
          (flatten_all-NoneSame v ts)

  -- After `level` at an associative operator no child is that operator, at any depth of nesting.
  pub level-NoneSame :
      (v : Vertex C) (ts : ComboForest C)
      → same_associative v v ≡ true
      → (us : ComboForest C) × (level (node v ts) ≡ node v us) × NoneSame v us
  unfolding level
  level-NoneSame v ts e = (flatten_all v ts, rw e, flatten_all-NoneSame v ts)

module _ {C : Type 0} (ρ : Valuation) where
  mutual
    unfolding flatten same_associative truth vertex_truth

    flatten-all_true : (t : ComboTree C) → all_true ρ (flatten (builtin logical_and) t) ≡ truth ρ t
    flatten-all_true (node (builtin logical_and) ts) = flatten_all-all_true ts
    flatten-all_true (node w ts) = ground arith

    flatten_all-all_true :
        (ts : ComboForest C) → all_true ρ (flatten_all (builtin logical_and) ts) ≡ all_true ρ ts
    flatten_all-all_true nil = refl
    flatten_all-all_true (cons t ts) =
        all_true-append ρ (flatten (builtin logical_and) t) (flatten_all (builtin logical_and) ts)
        ∙ ground (arith, flatten-all_true t, flatten_all-all_true ts)

  mutual
    unfolding flatten same_associative truth vertex_truth

    flatten-any_true : (t : ComboTree C) → any_true ρ (flatten (builtin logical_or) t) ≡ truth ρ t
    flatten-any_true (node (builtin logical_or) ts) = flatten_all-any_true ts
    flatten-any_true (node w ts) = ground arith

    flatten_all-any_true :
        (ts : ComboForest C) → any_true ρ (flatten_all (builtin logical_or) ts) ≡ any_true ρ ts
    flatten_all-any_true nil = refl
    flatten_all-any_true (cons t ts) =
        any_true-append ρ (flatten (builtin logical_or) t) (flatten_all (builtin logical_or) ts)
        ∙ ground (arith, flatten-any_true t, flatten_all-any_true ts)

module _ {C : Type 0} (n : ℕ) where
  first-IsLogical :
      (b : Builtin) (us : ComboForest C)
      → ((t : ComboTree C) (ts : ComboForest C)
          → IsLogical n t
          → AreLogical n ts
          → IsLogical n (node (builtin b) (cons t ts)))
      → AreLogical n us
      → 0 < count us
      → IsLogical n (node (builtin b) us)
  first-IsLogical b nil rule p h = absurd (omega arith)
  first-IsLogical b (cons t ts) rule (more p ps) h = rule t ts p ps

  -- The vertices of logical trees that are not associative.
  never_same :
      (v : Vertex C)
      → (same_associative v (builtin logical_true) ≡ false)
        × (same_associative v (builtin logical_false) ≡ false)
        × (same_associative v (builtin logical_not) ≡ false)
  unfolding same_associative
  never_same v = ground arith

  never_same_argument : (v : Vertex C) (i : ℤ) → same_associative v (argument i) ≡ false
  unfolding same_associative
  never_same_argument v i = ground arith

  one : {t : ComboTree C} → IsLogical n t → AreLogical n (cons t nil) × (0 < count (cons t nil))
  one p = (more p done, omega arith)

  count-append : (ts us : ComboForest C) → count (append ts us) ≡ count ts + count us
  count-append nil us = omega arith
  count-append (cons t ts) us = omega (arith, count-append ts us)

  join :
      {us ws : ComboForest C}
      → AreLogical n us × (0 < count us)
      → AreLogical n ws
      → AreLogical n (append us ws) × (0 < count (append us ws))
  join {us} {ws} p ps = (append-AreLogical n p.0 ps, omega (arith, count-append us ws, p.1))

  mutual
    unfolding flatten

    flatten_logical :
        (v : Vertex C) {t : ComboTree C}
        → IsLogical n t
        → AreLogical n (flatten v t) × (0 < count (flatten v t))
    flatten_logical v true_leaf = rw (never_same v).0 (one true_leaf)
    flatten_logical v false_leaf = rw (never_same v).1 (one false_leaf)
    flatten_logical v (literal_leaf i p q) = rw (never_same_argument v i) (one (literal_leaf i p q))
    flatten_logical v (negation p) = rw (never_same v).2 (one (negation p))
    flatten_logical v (conjunction {t} {ts} p ps) =
        let inner = join (flatten_logical v p) (flatten_all_logical v ps) in
        elim (Bool-cases (same_associative v (builtin logical_and))) [
          | inl e ↦ rw e inner
          | inr e ↦ rw e (one (conjunction p ps))
        ]
    flatten_logical v (disjunction {t} {ts} p ps) =
        let inner = join (flatten_logical v p) (flatten_all_logical v ps) in
        elim (Bool-cases (same_associative v (builtin logical_or))) [
          | inl e ↦ rw e inner
          | inr e ↦ rw e (one (disjunction p ps))
        ]

    flatten_all_logical :
        (v : Vertex C) {ts : ComboForest C} → AreLogical n ts → AreLogical n (flatten_all v ts)
    flatten_all_logical v done = done
    flatten_all_logical v (more p ps) =
        append-AreLogical n (flatten_logical v p).0 (flatten_all_logical v ps)

  inside :
      (v : Vertex C) {t : ComboTree C} {ts : ComboForest C}
      → IsLogical n t
      → AreLogical n ts
      → AreLogical n (append (flatten v t) (flatten_all v ts))
        × (0 < count (append (flatten v t) (flatten_all v ts)))
  inside v p ps = join (flatten_logical v p) (flatten_all_logical v ps)

  -- Levelling keeps the truth of a logical tree.
  pub level-IsSound : IsSound {C = C} n level
  unfolding level flatten same_associative truth vertex_truth
  level-IsSound t true_leaf = (true_leaf, λ ρ. refl)
  level-IsSound t false_leaf = (false_leaf, λ ρ. refl)
  level-IsSound t (literal_leaf i p q) = (literal_leaf i p q, λ ρ. refl)
  level-IsSound t (negation p) = (negation p, λ ρ. refl)
  level-IsSound t (conjunction {t = u} {ts} p ps) =
      let (q, some_left) = inside (builtin logical_and) p ps in
      (
        first-IsLogical logical_and _ (λ w ws. conjunction) q some_left,
        λ ρ. flatten_all-all_true ρ (cons u ts),
      )
  level-IsSound t (disjunction {t = u} {ts} p ps) =
      let (q, some_left) = inside (builtin logical_or) p ps in
      (
        first-IsLogical logical_or _ (λ w ws. disjunction) q some_left,
        λ ρ. flatten_all-any_true ρ (cons u ts),
      )
