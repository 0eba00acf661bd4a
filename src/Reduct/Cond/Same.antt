-- ===== src/Reduct/Cond/Same.antt =====
-- `equal_subtree` holds of equal trees alone.
use asmoses.Base.{◌≡◌, refl, Bool, true, Bool-cases, inl, inr, arith}
use asmoses.Combo.Tree.{Tree, Forest, node, nil, cons}
use asmoses.Reduct.Cond.{equal_subtree, equal_forest}

-- Equal vertices are the same.
abbrev pub IsSame : {A : Type 0} → (A → A → Bool) → Type 0
IsSame {A} same = (v w : A) → same v w ≡ true → v ≡ w

module _ {A : Type 0} (same : A → A → Bool) (law : IsSame same) where
  mutual
    unfolding equal_subtree

    pub equal_subtree-same : (t u : Tree A) → equal_subtree same t u ≡ true → t ≡ u
    equal_subtree-same (node v ts) (node w us) h = elim (Bool-cases (same v w)) [
      | inl e ↦ rw (law v w e, equal_forest-same ts us (ground (arith, h, e))) refl
      | inr e ↦ absurd (ground (arith, h, e))
    ]

    equal_forest-same : (ts us : Forest A) → equal_forest same ts us ≡ true → ts ≡ us
    equal_forest-same nil nil h = refl
    equal_forest-same nil (cons u us) h = absurd (ground arith)
    equal_forest-same (cons t ts) nil h = absurd (ground arith)
    equal_forest-same (cons t ts) (cons u us) h = elim (Bool-cases (equal_subtree same t u)) [
      | inl e ↦ rw (equal_subtree-same t u e, equal_forest-same ts us (ground (arith, h, e))) refl
      | inr e ↦ absurd (ground (arith, h, e))
    ]
