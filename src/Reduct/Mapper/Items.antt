-- ===== src/Reduct/Mapper/Items.antt =====
-- What a literal of the mapper stands for: reading an item gives a literal that has its truth, in this
-- mapper and in each that it grows into.
use asmoses.Base.{
  some-injective, subst, ℕ, zero, suc, ◌+◌, ◌≤◌, ◌<◌, ◌≡◌, ◌≢◌, refl, sym, inl, inr, Bool, true,
  false, Bool-cases, ◌∷◌, none, some, Option-cases, length, ◌==◌, arith,
}
use asmoses.Base.Int.{ℤ, pos, neg, nat_abs, is_neg}
use asmoses.Combo.Tree.{negate_argument, node, nil, Vertex, argument, ComboTree}
use asmoses.Combo.Order.{is_same_key, IsVertexOrder, same_key_lem}
use asmoses.Combo.Denote.{
  Valuation, literal, truth, vertex_truth, IsLogical, literal_leaf, true_leaf, false_leaf,
  conjunction, disjunction, negation,
}
use asmoses.Reduct.Clauses.Truth.{literal-neg}
use asmoses.Reduct.Mapper.{
  Mapper, find_int, insert_int, negate_top, find_item, find_negated, add_new, add_item,
}

module _ {C : Type 0} where
  -- An integer has the truth of its item.
  abbrev pub values : Mapper C → Valuation → Valuation
  values m ρ = λ i. elim (find_int i m.int2item) [ none ↦ false | some t ↦ truth ρ t ]

  -- The literal has an item, which is an argument if the literal is negative.
  pub record IsKnown (n : ℕ) (m : Mapper C) (x : ℤ) : Type 0 where
    pub nonzero : x ≢ pos 0
    pub item : ComboTree C
    pub found : find_int (nat_abs x) m.int2item ≡ some item
    pub logical : IsLogical n item
    pub signed : is_neg x ≡ true → (i : ℤ) × (item ≡ node (argument i) nil)

  pub record Reads (n : ℕ) (m : Mapper C) (x : ℤ) (t : ComboTree C) : Type 0 where
    pub known : IsKnown n m x
    pub same : (ρ : Valuation) → literal (values m ρ) x ≡ truth ρ t

  abbrev pub IsKept : Mapper C → Mapper C → Type 0
  IsKept m k =
      (i : ℕ) (t : ComboTree C) → find_int i m.int2item ≡ some t → find_int i k.int2item ≡ some t

  module _ (less : Vertex C → Vertex C → Bool) where
    pub record IsFilled (n : ℕ) (m : Mapper C) : Type 0 where
      pub items :
          (i : ℕ) (t : ComboTree C)
          → find_int i m.int2item ≡ some t
          → IsLogical n t × (0 < i) × (i ≤ length m.int2item)
      pub keys :
          (t : ComboTree C) (i : ℕ)
          → find_item less t m.item2int ≡ some i
          → find_int i m.int2item ≡ some t

  positive_Reads :
      {n : ℕ} (m : Mapper C) (i : ℕ) (t : ComboTree C)
      → find_int i m.int2item ≡ some t
      → IsLogical n t
      → 0 < i
      → Reads n m (pos i) t
  positive_Reads m zero t f l p = absurd (omega arith)
  positive_Reads m (suc i) t f l p = record {
    known = record {
      nonzero = λ e. ground arith;
      item = t;
      found = f;
      logical = l;
      signed = λ e. absurd (ground arith);
    };
    same = λ ρ. rw (values, f) refl;
  }

  negative_Reads :
      {n : ℕ} (m : Mapper C) (i : ℕ) (t u : ComboTree C)
      → negate_top t ≡ some u
      → IsLogical n t
      → find_int i m.int2item ≡ some u
      → IsLogical n u
      → 0 < i
      → Reads n m (neg (pos i)) t
  unfolding negate_top truth vertex_truth negate_argument
  negative_Reads m zero t u e lt f lu p = absurd (omega arith)
  negative_Reads m (suc i) t u e (literal_leaf a q r) f lu p =
      let shape : u ≡ node (argument (neg a)) nil = some-injective _ _ (sym e) in
      record {
        known = record {
          nonzero = λ h. ground arith;
          item = u;
          found = f;
          logical = lu;
          signed = λ h. (neg a, shape);
        };
        same = λ ρ.
            let opposite = literal-neg ρ a (λ h. ground (arith, q, h)) in
            rw (values, f, shape) (ground (arith, opposite));
      }
  negative_Reads m (suc i) t u e (true_leaf) f lu p = absurd (ground arith)
  negative_Reads m (suc i) t u e (false_leaf) f lu p = absurd (ground arith)
  negative_Reads m (suc i) t u e (conjunction a b) f lu p = absurd (ground arith)
  negative_Reads m (suc i) t u e (disjunction a b) f lu p = absurd (ground arith)
  negative_Reads m (suc i) t u e (negation a) f lu p = absurd (ground arith)

  module _ (less : Vertex C → Vertex C → Bool) (order : IsVertexOrder less) where
    find_new :
        (m : Mapper C) {n : ℕ}
        → IsFilled less n m
        → find_int (length m.int2item + 1) m.int2item ≡ none
    find_new m v = elim (Option-cases (find_int (length m.int2item + 1) m.int2item)) [
      | inl e ↦ e
      | inr (u, e) ↦ absurd (omega (arith, (v.items _ u e).2))
    ]

    -- A new item stands before the others.
    new_items :
        (m : Mapper C) (t : ComboTree C) {n : ℕ}
        → IsFilled less n m
        → (add_new m t).0.int2item ≡ (length m.int2item + 1, t) ∷ m.int2item
    unfolding add_new insert_int
    new_items m t v = rw (insert_int, find_new m v) refl

    add_new-IsKept :
        (m : Mapper C) (t : ComboTree C) {n : ℕ} → IsFilled less n m → IsKept m (add_new m t).0
    unfolding find_int
    add_new-IsKept m t v i u f =
        let low = (v.items i u f).2 in
        let other : (i == (length m.int2item + 1)) ≡ false = ground (arith, low) in
        rw (new_items m t v, find_int, other) f

    add_new-found :
        (m : Mapper C) (t : ComboTree C) {n : ℕ}
        → IsFilled less n m
        → find_int (length m.int2item + 1) (add_new m t).0.int2item ≡ some t
    unfolding find_int
    add_new-found m t v =
        let k = length m.int2item + 1 in
        let itself : (k == k) ≡ true = ground arith in rw (new_items m t v, find_int, itself) refl

    new_item-logical :
        (m : Mapper C) (t u : ComboTree C) (i : ℕ) {n : ℕ}
        → IsFilled less n m
        → IsLogical n t
        → find_int i ((length m.int2item + 1, t) ∷ m.int2item) ≡ some u
        → IsLogical n u × (0 < i) × (i ≤ length m.int2item + 1)
    unfolding find_int
    new_item-logical m t u i {n} v l f = elim (Bool-cases (i == (length m.int2item + 1))) [
      | inl e ↦
          let ik : i ≡ length m.int2item + 1 = ground (arith, e) in
          let tu = some-injective _ _ (rw (find_int, e) at f) in
          (subst (λ w. IsLogical n w) tu l, omega (arith, ik), omega (arith, ik))
      | inr e ↦
          let old = v.items i u (rw (find_int, e) at f) in (old.0, old.1, omega (arith, old.2))
    ]

    add_new-IsFilled :
        (m : Mapper C) (t : ComboTree C) {n : ℕ}
        → IsFilled less n m
        → IsLogical n t
        → IsFilled less n (add_new m t).0
    unfolding find_item add_new
    add_new-IsFilled m t {n} v l = record {
      items = λ i u f.
          let r = new_item-logical m t u i v l (rw (new_items m t v) at f) in
          (r.0, r.1, rw (new_items m t v) (omega (arith, r.2)));
      keys = λ u i f. elim (Bool-cases (is_same_key less u t)) [
        | inl e ↦
            let ut = same_key_lem less order u t e in
            let ik = some-injective _ _ (rw (find_item, e) at f) in
            rw (ut, sym ik) (add_new-found m t v)
        | inr e ↦ add_new-IsKept m t v i u (v.keys u i (rw (find_item, e) at f))
      ];
    }

    -- An item that is read is known, and its literal has its truth, in each later mapper.
    pub add_item-Reads :
        {n : ℕ} (m : Mapper C) (t : ComboTree C)
        → IsFilled less n m
        → IsLogical n t
        → IsFilled less n (add_item less m t).0
          × IsKept m (add_item less m t).0
          × ((k : Mapper C) → IsKept (add_item less m t).0 k → Reads n k (add_item less m t).1 t)
    unfolding add_item find_negated add_new
    add_item-Reads m t v l = elim (Option-cases (find_item less t m.item2int)) [
      | inr (i, e) ↦
          let f = v.keys t i e in
          rw (add_item, e)
            ((v, λ j u h. h, λ k s. positive_Reads k i t (s i t f) l (v.items i t f).1))
      | inl e ↦ elim (Option-cases (find_negated less t m.item2int)) [
        | inl g ↦
            rw (add_item, find_negated, e, g)
              ((
                add_new-IsFilled m t v l,
                add_new-IsKept m t v,
                λ k s. positive_Reads k _ t (s _ t (add_new-found m t v)) l (omega arith),
              ))
        | inr (i, g) ↦ elim (Option-cases (negate_top t)) [
          | inl h ↦ absurd (ground (arith, rw (find_negated, h) at g))
          | inr (u, h) ↦
              let f = v.keys u i (rw (find_negated, h) at g) in
              rw (add_item, find_negated, e, g)
                ((
                  v,
                  λ j w p. p,
                  λ k s. negative_Reads k i t u h l (s i u f) (v.items i u f).0 (v.items i u f).1,
                ))
        ]
      ]
    ]
