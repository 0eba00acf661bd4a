-- ===== src/Reduct/Cond/Sound.antt =====
-- The rules on `cond` keep what it chooses, as long as no predicate is the constant true.
use asmoses.Base.{
  ◌≡◌, refl, sym, Bool, true, ◌||◌, false, Bool-cases, inl, inr, if◌then◌else◌, none, some, arith,
}
use asmoses.Combo.Tree.{node, nil, cons, logical_or, cond, Vertex, builtin, ComboTree, ComboForest}
use asmoses.Combo.Denote.{Valuation, truth, vertex_truth}
use asmoses.Reduct.Rules.{is_true_node, is_false_node}
use asmoses.Reduct.Cond.{truncate, const_clauses, reduce_cond_const, equal_subtree, join_adjacent}
use asmoses.Reduct.Cond.Chosen.{chosen, AreClauses, last, clause, false-truth, clause-chosen}
use asmoses.Reduct.Cond.Same.{IsSame, equal_subtree-same}

module _ {C : Type 0} where
  -- A predicate, which a consequent follows, is the constant true.
  unfoldable pub some_true : ComboForest C → Bool
  some_true nil = false
  some_true (cons x nil) = false
  some_true (cons p (cons x ts)) = is_true_node p || some_true ts

  unfoldable pub some_false : ComboForest C → Bool
  some_false nil = false
  some_false (cons x nil) = false
  some_false (cons p (cons x ts)) = is_false_node p || some_false ts

  abbrev Reduces : ComboForest C → Type 0
  Reduces ts =
      (us : ComboForest C) × (const_clauses ts ≡ some us)
      × AreClauses us
      × (some_true us ≡ false)
      × (some_false us ≡ false)
      × ((ρ : Valuation) → chosen ρ us ≡ chosen ρ ts)

  -- A clause whose predicate is not the constant true is dropped, or stays in front.
  clause-reduced :
      (p x : ComboTree C) (us vs : ComboForest C)
      → AreClauses us
      → is_true_node p ≡ false
      → const_clauses us ≡ some vs
      → AreClauses vs
      → some_true vs ≡ false
      → some_false vs ≡ false
      → ((ρ : Valuation) → chosen ρ vs ≡ chosen ρ us)
      → Reduces (cons p (cons x us))
  unfolding const_clauses some_true some_false
  clause-reduced p x us vs c no_true runs d t f same = elim (Bool-cases (is_false_node p)) [
    | inl g ↦ (
      vs,
      rw (no_true, g) runs,
      d,
      t,
      f,
      λ ρ. rw (clause-chosen ρ p x c, false-truth ρ p g) (same ρ),
    )
    | inr g ↦ (
      cons p (cons x vs),
      rw (no_true, g, runs) refl,
      clause p x d,
      rw (some_true, no_true, t) refl,
      rw (some_false, g, f) refl,
      λ ρ. rw (clause-chosen ρ p x d, clause-chosen ρ p x c, same ρ) refl,
    )
  ]

  -- On the clauses of a `cond` of which no predicate is the constant true, the loop of `reduce_cond_const`
  -- ends with clauses that choose the same consequent under every valuation, and of which no predicate
  -- is the constant true or false.
  pub const_clauses-chosen :
      (ts : ComboForest C)
      → AreClauses ts
      → some_true ts ≡ false
      → (us : ComboForest C) × (const_clauses ts ≡ some us)
        × AreClauses us
        × (some_true us ≡ false)
        × (some_false us ≡ false)
        × ((ρ : Valuation) → chosen ρ us ≡ chosen ρ ts)
  unfolding const_clauses chosen some_true some_false
  const_clauses-chosen ts (last x) h = (cons x nil, refl, last x, refl, refl, λ ρ. refl)
  const_clauses-chosen ts (clause p x {ts = us} c) h =
      let (vs, runs, d, t, f, same) = const_clauses-chosen us c (ground (arith, h)) in
      clause-reduced p x us vs c (ground (arith, h)) runs d t f same

  truncate-clauses : (ts : ComboForest C) → AreClauses ts → truncate ts ≡ none
  unfolding truncate
  truncate-clauses ts (last x) = refl
  truncate-clauses ts (clause p x c) = refl

  true-undefined :
      (ts : ComboForest C) → AreClauses ts → some_true ts ≡ true → const_clauses ts ≡ none
  unfolding const_clauses some_true
  true-undefined ts (last x) h = absurd (ground (arith, h))
  true-undefined ts (clause p x {ts = us} c) h = elim (Bool-cases (is_true_node p)) [
    | inl e ↦ rw (e, truncate-clauses us c) refl
    | inr e ↦ let rest = true-undefined us c (ground (arith, h, e)) in rw (e, rest) (ground arith)
  ]

module _ {C : Type 0} (same : Vertex C → Vertex C → Bool) where
  abbrev either : ComboTree C → ComboTree C → ComboTree C
  either p q = node (builtin logical_or) (cons p (cons q nil))

  truth-either :
      (ρ : Valuation) (p q : ComboTree C)
      → truth ρ (either p q) ≡ (if truth ρ p then true else truth ρ q)
  unfolding truth vertex_truth
  truth-either ρ p q = ground arith

  join-one : (x : ComboTree C) → join_adjacent same (cons x nil) ≡ cons x nil
  unfolding join_adjacent
  join-one x = refl

  join-three :
      (p x y : ComboTree C)
      → join_adjacent same (cons p (cons x (cons y nil))) ≡ cons p (cons x (cons y nil))
  unfolding join_adjacent
  join-three p x y = refl

  joined-chosen :
      (ρ : Valuation) (p x q : ComboTree C) {ts us : ComboForest C}
      → AreClauses ts
      → AreClauses us
      → chosen ρ us ≡ chosen ρ ts
      → chosen ρ (cons (either p q) (cons x us)) ≡ chosen ρ (cons p (cons x (cons q (cons x ts))))
  joined-chosen ρ p x q c d e =
      rw
        (
          clause-chosen ρ (either p q) x d,
          clause-chosen ρ p x (clause q x c),
          clause-chosen ρ q x c,
          e,
          truth-either ρ p q,
        )
        (ground arith)

  join-clauses :
      (p x q y : ComboTree C) {ts : ComboForest C}
      → AreClauses ts
      → join_adjacent same (cons p (cons x (cons q (cons y ts)))) ≡ (
          if equal_subtree same x y
          then cons (either p q) (cons x (join_adjacent same ts))
          else cons p (cons x (join_adjacent same (cons q (cons y ts)))))
  unfolding join_adjacent
  join-clauses p x q y (last z) = refl
  join-clauses p x q y (clause r z c) = refl

  -- `reduce_cond_adjacent` on the clauses of a `cond` leaves clauses that choose the same consequent
  -- under every valuation.
  pub join_adjacent-chosen :
      IsSame same
      → (ts : ComboForest C) → AreClauses ts
      → AreClauses (join_adjacent same ts)
        × ((ρ : Valuation) → chosen ρ (join_adjacent same ts) ≡ chosen ρ ts)
  join_adjacent-chosen law ts (last x) = rw (join-one x) ((last x, λ ρ. refl))
  join_adjacent-chosen law ts (clause p x (last y)) =
      rw (join-three p x y) ((clause p x (last y), λ ρ. refl))
  join_adjacent-chosen law ts (clause p x (clause q y {ts = us} c)) =
      let joined = join_adjacent-chosen law us c in
      let kept = join_adjacent-chosen law (cons q (cons y us)) (clause q y c) in
      elim (Bool-cases (equal_subtree same x y)) [
        | inl e ↦
            let xy = equal_subtree-same same law x y e in
            rw (join-clauses p x q y c, e)
              ((
                clause (either p q) x joined.0,
                λ ρ. rw (sym xy) (joined-chosen ρ p x q c joined.0 (joined.1 ρ)),
              ))
        | inr e ↦
            rw (join-clauses p x q y c, e)
              ((
                clause p x kept.0,
                λ ρ.
                    rw (clause-chosen ρ p x kept.0, clause-chosen ρ p x (clause q y c), kept.1 ρ)
                      refl,
              ))
      ]

module _ {C : Type 0} where
  -- Where a predicate of a `cond` is the constant true, whatever stands before it, `reduce_cond_const` is
  -- undefined.
  pub reduce_cond_const-undefined :
      (ts : ComboForest C)
      → AreClauses ts
      → some_true ts ≡ true
      → reduce_cond_const (node (builtin cond) ts) ≡ none
  unfolding reduce_cond_const
  reduce_cond_const-undefined ts a h = let u = true-undefined ts a h in rw u refl
