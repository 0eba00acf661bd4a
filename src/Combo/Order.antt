-- ===== src/Combo/Order.antt =====
-- `lexicographic_subtree_order` of opencog/asmoses/utils/tree.h, the order of the keys of a map of
-- trees. The order of vertices is the parameter `less`: that of a variant, from a library.
use asmoses.Base.{
  zero, suc, ◌≡◌, refl, sym, inl, inr, Bool, true, false, not, Bool-cases, if◌then◌else◌, arith,
}
use asmoses.Base.Int.{ℤ, pos, negsuc, neg, eqb_ℤ, eqb_ℤ_iff}
use asmoses.Combo.Tree.{Tree, Forest, node, nil, cons}

-- The test `> 0`
abbrev pub is_positive : ℤ → Bool
is_positive (pos zero) = false
is_positive (pos (suc n)) = true
is_positive (negsuc n) = false

module _ {A : Type 0} (less : A → A → Bool) where
  -- A tree that comes first gives 1.
  unfoldable mutual
    pub cmp : Tree A → Tree A → ℤ
    cmp (node v ts) (node w us) =
        let below = cmp_children ts us in
        if less v w then pos 1 else (if less w v then negsuc 0 else below)

    pub cmp_children : Forest A → Forest A → ℤ
    cmp_children nil nil = pos 0
    cmp_children nil (cons u us) = pos 1
    cmp_children (cons t ts) nil = negsuc 0
    cmp_children (cons t ts) (cons u us) =
        let res = cmp t u in
        let rest = cmp_children ts us in if eqb_ℤ res (pos 0) then rest else res

  unfoldable pub lexicographic_subtree_order : Tree A → Tree A → Bool
  lexicographic_subtree_order t u = is_positive (cmp t u)

  -- Two keys of a map are the same key where neither comes before the other.
  unfoldable pub is_same_key : Tree A → Tree A → Bool
  is_same_key t u =
      if lexicographic_subtree_order t u then false else not (lexicographic_subtree_order u t)

-- The order of vertices: of two vertices, one at most comes first, and one does unless they are equal.
pub record IsVertexOrder {A : Type 0} (less : A → A → Bool) : Type 0 where
  pub asym : (v w : A) → less v w ≡ true → less w v ≡ false
  pub total : (v w : A) → less v w ≡ false → less w v ≡ false → v ≡ w

unsigned : (x : ℤ) → is_positive x ≡ false → is_positive (neg x) ≡ false → x ≡ pos 0
unsigned (pos zero) h k = refl
unsigned (pos (suc n)) h k = absurd (ground arith)
unsigned (negsuc n) h k = absurd (ground arith)

module _ {A : Type 0} (less : A → A → Bool) (order : IsVertexOrder less) where
  mutual
    unfolding cmp

    pub cmp-neg : (t u : Tree A) → cmp less u t ≡ neg (cmp less t u)
    cmp-neg (node v ts) (node w us) =
        let below = cmp_children-neg ts us in
        elim (Bool-cases (less v w)) [
          | inl e ↦ rw (e, order.asym v w e) refl
          | inr e ↦ elim (Bool-cases (less w v)) [
            | inl g ↦ rw (e, g) refl
            | inr g ↦ rw (e, g) below
          ]
        ]

    pub cmp_children-neg :
        (ts us : Forest A) → cmp_children less us ts ≡ neg (cmp_children less ts us)
    cmp_children-neg nil nil = refl
    cmp_children-neg nil (cons u us) = refl
    cmp_children-neg (cons t ts) nil = refl
    cmp_children-neg (cons t ts) (cons u us) =
        let first = cmp-neg t u in let rest = cmp_children-neg ts us in ground (arith, first, rest)

  mutual
    unfolding cmp

    cmp_same : (t u : Tree A) → cmp less t u ≡ pos 0 → t ≡ u
    cmp_same (node v ts) (node w us) h = elim (Bool-cases (less v w)) [
      | inl e ↦ absurd (ground (arith, h, e))
      | inr e ↦ elim (Bool-cases (less w v)) [
        | inl g ↦ absurd (ground (arith, h, e, g))
        | inr g ↦ rw (order.total v w e g, cmp_children_same ts us (ground (arith, h, e, g))) refl
      ]
    ]

    cmp_children_same : (ts us : Forest A) → cmp_children less ts us ≡ pos 0 → ts ≡ us
    cmp_children_same nil nil h = refl
    cmp_children_same nil (cons u us) h = absurd (ground arith)
    cmp_children_same (cons t ts) nil h = absurd (ground arith)
    cmp_children_same (cons t ts) (cons u us) h = elim (Bool-cases (eqb_ℤ (cmp less t u) (pos 0))) [
      | inl e ↦
          rw (cmp_same t u ((eqb_ℤ_iff _ _).0 e), cmp_children_same ts us (ground (arith, h, e)))
            refl
      | inr e ↦ absurd (ground (arith, h, e))
    ]

  -- Trees that are the same key are equal.
  pub same_key_lem : (t u : Tree A) → is_same_key less t u ≡ true → t ≡ u
  unfolding is_same_key lexicographic_subtree_order
  same_key_lem t u h =
      let first : is_positive (cmp less t u) ≡ false = ground (arith, h) in
      let second : is_positive (cmp less u t) ≡ false = ground (arith, h) in
      cmp_same t u (unsigned (cmp less t u) first (rw (sym (cmp-neg t u)) second))
