-- ===== src/Domination/Sets/Merge.antt =====
-- What is left of a set of candidates, and of a metapopulation after a merge.
use asmoses.Base.{
  ℕ, ◌≡◌, ◌≢◌, ◌↔◌, ◌⊎◌, refl, sym, ◌∙◌, inl, inr, Bool, true, Bool-cases, List, [], ◌∷◌, some,
  length, arith,
}
use mathlib.Core.List.{Memᴰ}
use mathlib.Core.List.Memᴰ.{head, tail}
use asmoses.Domination.{Tribool}
use asmoses.Domination.Disjoint.{IsDomination, NoneDominates, IsFront}
use asmoses.Domination.Joined.{IsMeet, disjoint_rec_lem}
use asmoses.Domination.Front.{get_nondominated_rec_lem}
use asmoses.Domination.Sets.{
  erase, erase_each, is_in, insert_each, remove_dominated, merge_nondominated,
}

-- The members of a `set_difference`.
abbrev pub IsMinus : {A : Type 0} → (List A → List A → List A) → Type 0
IsMinus {A} minus = (l m : List A) (y : A) → Memᴰ y (minus l m) ↔ (Memᴰ y l × ¬ Memᴰ y m)

abbrev pub IsSameKey : {A : Type 0} → (A → A → Bool) → Type 0
IsSameKey {A} same = (x y : A) → (same x y ≡ true) ↔ (x ≡ y)

module _ {A : Type 0} (same : A → A → Bool) (key : IsSameKey same) where
  in_or_not : (x : A) (ys : List A) → Memᴰ x ys ⊎ (¬ Memᴰ x ys)
  in_or_not x [] = inr (λ m. elim m [ ])
  in_or_not x (y ∷ ys) = elim (Bool-cases (same x y)) [
    | inl e ↦ inl (head ((key x y).0 e))
    | inr e ↦ elim (in_or_not x ys) [
      | inl m ↦ inl (tail m)
      | inr n ↦ inr (λ m. elim m [ head p ↦ ground (arith, e, (key x y).1 p) | tail k ↦ n k ])
    ]
  ]

  Mem-erase : (x : A) (ys : List A) (z : A) → Memᴰ z (erase same x ys) ↔ (Memᴰ z ys × (z ≢ x))
  unfolding erase
  Mem-erase x [] z = (λ m. elim m [ ], λ m. m.0)
  Mem-erase x (y ∷ ys) z =
      let rest = Mem-erase x ys z in
      elim (Bool-cases (same x y)) [
        | inl e ↦
            let xy = (key x y).0 e in
            rw (erase, e)
              ((
                λ m. let k = rest.0 m in (tail k.0, k.1),
                λ m. elim m.0 [ head p ↦ absurd (m.1 (p ∙ sym xy)) | tail k ↦ rest.1 (k, m.1) ],
              ))
        | inr e ↦
            rw (erase, e)
              ((
                λ m. elim m [
                  | head p ↦ (head p, λ q. ground (arith, e, (key x y).1 (sym q ∙ p)))
                  | tail k ↦ let j = rest.0 k in (tail j.0, j.1)
                ],
                λ m. elim m.0 [ head p ↦ head p | tail k ↦ tail (rest.1 (k, m.1)) ],
              ))
      ]

  Mem-erase_each :
      (xs ys : List A) (z : A) → Memᴰ z (erase_each same xs ys) ↔ (Memᴰ z ys × ¬ Memᴰ z xs)
  unfolding erase_each
  Mem-erase_each [] ys z = (λ m. (m, λ k. elim k [ ]), λ m. m.0)
  Mem-erase_each (x ∷ xs) ys z =
      let rest = Mem-erase_each xs (erase same x ys) z in
      let one = Mem-erase x ys z in
      (
        λ m.
            let k = rest.0 m in
            let j = one.0 k.0 in (j.0, λ i. elim i [ head p ↦ j.1 p | tail h ↦ k.1 h ]),
        λ m. rest.1 (one.1 (m.0, λ p. m.1 (head p)), λ h. m.1 (tail h)),
      )

  is_in-Mem : (x : A) (ys : List A) → is_in same x ys ≡ true → Memᴰ x ys
  unfolding is_in
  is_in-Mem x [] h = absurd (ground arith)
  is_in-Mem x (y ∷ ys) h = elim (Bool-cases (same x y)) [
    | inl e ↦ head ((key x y).0 e)
    | inr e ↦ tail (is_in-Mem x ys (rw (is_in, e) at h))
  ]

  Mem-insert_each :
      (xs ys : List A) (z : A) → Memᴰ z (insert_each same xs ys) ↔ (Memᴰ z xs ⊎ Memᴰ z ys)
  unfolding insert_each
  Mem-insert_each [] ys z = (inr, λ m. elim m [ inl k ↦ elim k [ ] | inr k ↦ k ])
  Mem-insert_each (x ∷ xs) ys z = elim (Bool-cases (is_in same x ys)) [
    | inl e ↦
        let rest = Mem-insert_each xs ys z in
        rw (insert_each, e)
          ((
            λ m. elim (rest.0 m) [ inl k ↦ inl (tail k) | inr k ↦ inr k ],
            λ m. elim m [
              | inl i ↦ elim i [
                | head p ↦ rest.1 (inr (rw p (is_in-Mem x ys e)))
                | tail k ↦ rest.1 (inl k)
              ]
              | inr k ↦ rest.1 (inr k)
            ],
          ))
    | inr e ↦
        let rest = Mem-insert_each xs (x ∷ ys) z in
        rw (insert_each, e)
          ((
            λ m. elim (rest.0 m) [
              | inl k ↦ inl (tail k)
              | inr i ↦ elim i [ head p ↦ inl (head p) | tail k ↦ inr k ]
            ],
            λ m. elim m [
              | inl i ↦ elim i [ head p ↦ rest.1 (inr (head p)) | tail k ↦ rest.1 (inl k) ]
              | inr k ↦ rest.1 (inr (tail k))
            ],
          ))
  ]

  -- Erasing the difference of a list and some of its members leaves these.
  module _ (minus : List A → List A → List A) (law : IsMinus minus) where
    Mem-left :
        (ys kept : List A) (z : A)
        → Memᴰ z (erase_each same (minus ys kept) ys) ↔ (Memᴰ z ys × Memᴰ z kept)
    Mem-left ys kept z =
        let r = Mem-erase_each (minus ys kept) ys z in
        (
          λ m.
              let k = r.0 m in
              elim (in_or_not z kept) [
                | inl i ↦ (k.0, i)
                | inr n ↦ absurd (k.1 ((law ys kept z).1 (k.0, n)))
              ],
          λ m. r.1 (m.0, λ i. ((law ys kept z).0 i).1 m.1),
        )

    module _ (dom : A → A → Tribool) (laws : IsDomination dom) (meet : List A → List A → List A)
        (split_jobs : ℕ → ℕ × ℕ) (meets : IsMeet meet) where
      -- `remove_dominated` ends, with whatever number of jobs, with just the candidates of the set that no
      -- candidate of the set dominates.
      pub remove_dominated_lem :
          (bcs : List A) (jobs : ℕ)
          → (r : List A) × (remove_dominated same dom meet minus split_jobs bcs jobs ≡ some r)
            × ((x : A) → Memᴰ x r ↔ (Memᴰ x bcs × NoneDominates dom bcs x))
      unfolding remove_dominated
      remove_dominated_lem bcs jobs =
          let best = get_nondominated_rec_lem dom laws meet split_jobs meets bcs jobs in
          (
            _,
            rw (remove_dominated, best.1) refl,
            λ x. (
              λ m. (best.2 x).0 ((Mem-left bcs best.0 x).0 m).1,
              λ m. (Mem-left bcs best.0 x).1 (m.0, (best.2 x).1 m),
            ),
          )

      -- Where domination is a strict order and `meet` and `minus` are the intersection and the difference,
      -- merge candidates into a metapopulation, in each of which no candidate dominates another. The merge
      -- ends, with whatever number of jobs, with the old candidates that no new one dominates and the new
      -- ones that no old one dominates, and again none of them dominates another.
      pub merge_nondominated-IsFront :
          (scored_trees bcs : List A) (jobs : ℕ)
          → IsFront dom scored_trees
          → IsFront dom bcs
          → (r : List A) × (merge_nondominated same dom meet minus split_jobs scored_trees bcs jobs
              ≡ some r)
            × ((x : A)
                → Memᴰ x r ↔ (
                    (Memᴰ x bcs × NoneDominates dom scored_trees x)
                    ⊎ (Memᴰ x scored_trees × NoneDominates dom bcs x)))
            × IsFront dom r
      unfolding merge_nondominated
      merge_nondominated-IsFront scored_trees bcs jobs old new =
          let d =
            disjoint_rec_lem dom laws meet split_jobs meets (length bcs) bcs scored_trees jobs
              (omega arith) new old in
          let left = erase_each same (minus scored_trees d.0.1) scored_trees in
          let r = insert_each same d.0.0 left in
          let parts : (x : A)
              → Memᴰ x r ↔ (
                  (Memᴰ x bcs × NoneDominates dom scored_trees x)
                  ⊎ (Memᴰ x scored_trees × NoneDominates dom bcs x)) =
            λ x. (
              λ m. elim ((Mem-insert_each d.0.0 left x).0 m) [
                | inl k ↦ inl ((d.2.first x).0 k)
                | inr k ↦ inr ((d.2.second x).0 ((Mem-left scored_trees d.0.1 x).0 k).1)
              ],
              λ m. (Mem-insert_each d.0.0 left x).1 (elim m [
                | inl k ↦ inl ((d.2.first x).1 k)
                | inr k ↦ inr ((Mem-left scored_trees d.0.1 x).1 (k.0, (d.2.second x).1 k))
              ]),
            ) in
          (
            r,
            rw (merge_nondominated, d.1) refl,
            parts,
            λ x mx z mz. elim ((parts x).0 mx) [
              | inl a ↦ elim ((parts z).0 mz) [ inl b ↦ new x a.0 z b.0 | inr b ↦ a.1 z b.0 ]
              | inr a ↦ elim ((parts z).0 mz) [ inl b ↦ a.1 z b.0 | inr b ↦ old x a.0 z b.0 ]
            ],
          )
