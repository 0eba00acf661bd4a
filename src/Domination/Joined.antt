-- ===== src/Domination/Joined.antt =====
-- Both ways in which `get_nondominated_disjoint_rec` joins the results of two halves, and the function.
use asmoses.Base.{
  ℕ, zero, suc, ◌-◌, ◌/◌, ◌≤◌, ◌≡◌, ◌↔◌, refl, inl, inr, List, [], ◌∷◌, ◌++◌, some, length, ltb,
  Bool-cases, arith,
}
use Prim.Native.Nat.{max}
use mathlib.Core.List.{Memᴰ}
use mathlib.Core.List.Memᴰ.{append_left, append_right, append_cases}
use asmoses.Domination.{Tribool, split, get_nondominated_disjoint_rec}
use asmoses.Domination.Halves.{AreHalves, split-AreHalves, length-split}
use asmoses.Domination.Disjoint.{
  IsDomination, NoneDominates, IsFront, IsDisjoint, against_lem, nothing_first, nothing_second,
  one_first,
}

-- The members of a `set_intersection`.
abbrev pub IsMeet : {A : Type 0} → (List A → List A → List A) → Type 0
IsMeet {A} meet = (l m : List A) (y : A) → Memᴰ y (meet l m) ↔ (Memᴰ y l × Memᴰ y m)

module _ {A : Type 0} (dom : A → A → Tribool) (laws : IsDomination dom) where
  -- The two halves of the first list, one after the other, or each against the whole second list.
  module _ (xs hs ks ys : List A) (halves : AreHalves xs hs ks) (front : IsFront dom xs) where
    none_of_halves :
        (y : A) → NoneDominates dom hs y → NoneDominates dom ks y → NoneDominates dom xs y
    none_of_halves y nh nk z m = elim ((halves z).0 m) [ inl a ↦ nh z a | inr b ↦ nk z b ]

    in_turn :
        (m1 m2 : List A × List A)
        → IsDisjoint dom hs ys m1
        → IsDisjoint dom ks m1.1 m2
        → IsDisjoint dom xs ys (m1.0 ++ m2.0, m2.1)
    in_turn m1 m2 d1 d2 = record {
      first = λ x. (
        λ m. elim (append_cases m1.0 m) [
          | inl a ↦ let k = (d1.first x).0 a in ((halves x).1 (inl k.0), k.1)
          | inr b ↦
              let k = (d2.first x).0 b in
              let mx = (halves x).1 (inr k.0) in
              (
                mx,
                λ z mz h.
                    k.1 z
                      ((d1.second z).1
                        (mz, λ u mu g. front x mx u ((halves u).1 (inl mu)) (laws.trans u z x g h)))
                      h,
              )
        ],
        λ m. elim ((halves x).0 m.0) [
          | inl a ↦ append_left m2.0 ((d1.first x).1 (a, m.1))
          | inr b ↦ append_right m1.0 ((d2.first x).1 (b, λ z mz. m.1 z ((d1.second z).0 mz).0))
        ],
      );
      second = λ y. (
        λ m.
            let k = (d2.second y).0 m in
            let j = (d1.second y).0 k.0 in (j.0, none_of_halves y j.1 k.1),
        λ m. (d2.second y).1 (
          (d1.second y).1 (m.0, λ z a. m.1 z ((halves z).1 (inl a))),
          λ z b. m.1 z ((halves z).1 (inr b)),
        ),
      );
    }

    apart :
        (m1 m2 : List A × List A) (both : List A)
        → IsDisjoint dom hs ys m1
        → IsDisjoint dom ks ys m2
        → ((y : A) → Memᴰ y both ↔ (Memᴰ y m1.1 × Memᴰ y m2.1))
        → IsDisjoint dom xs ys (m1.0 ++ m2.0, both)
    apart m1 m2 both d1 d2 meets = record {
      first = λ x. (
        λ m. elim (append_cases m1.0 m) [
          | inl a ↦ let k = (d1.first x).0 a in ((halves x).1 (inl k.0), k.1)
          | inr b ↦ let k = (d2.first x).0 b in ((halves x).1 (inr k.0), k.1)
        ],
        λ m. elim ((halves x).0 m.0) [
          | inl a ↦ append_left m2.0 ((d1.first x).1 (a, m.1))
          | inr b ↦ append_right m1.0 ((d2.first x).1 (b, m.1))
        ],
      );
      second = λ y. (
        λ m.
            let k = (meets y).0 m in
            let i = (d1.second y).0 k.0 in
            let j = (d2.second y).0 k.1 in (i.0, none_of_halves y i.1 j.1),
        λ m. (meets y).1 (
          (d1.second y).1 (m.0, λ z a. m.1 z ((halves z).1 (inl a))),
          (d2.second y).1 (m.0, λ z b. m.1 z ((halves z).1 (inr b))),
        ),
      );
    }

  module _ (meet : List A → List A → List A) (split_jobs : ℕ → ℕ × ℕ) (meets : IsMeet meet) where
    -- Of two lists in each of which no candidate dominates another, `get_nondominated_disjoint_rec` keeps
    -- the candidates of each that no one of the other dominates, with whatever number of jobs. Fuel for
    -- the length of the first list is enough.
    pub disjoint_rec_lem :
        (fuel : ℕ) (xs ys : List A) (jobs : ℕ)
        → length xs ≤ fuel
        → IsFront dom xs
        → IsFront dom ys
        → (r : List A × List A) × (get_nondominated_disjoint_rec dom meet split_jobs fuel xs ys jobs
            ≡ some r)
          × IsDisjoint dom xs ys r
    unfolding get_nondominated_disjoint_rec
    disjoint_rec_lem zero [] ys jobs e fx fy = (([], ys), refl, nothing_first dom laws ys)
    disjoint_rec_lem (suc fuel) [] ys jobs e fx fy = (([], ys), refl, nothing_first dom laws ys)
    disjoint_rec_lem zero (x ∷ xs) ys jobs e fx fy = absurd (omega arith)
    disjoint_rec_lem (suc fuel) (x ∷ []) [] jobs e fx fy =
        (_, refl, nothing_second dom laws (x ∷ []))
    disjoint_rec_lem (suc fuel) (x ∷ []) (y ∷ ys) jobs e fx fy =
        (_, refl, one_first dom laws x (y ∷ ys) _ (against_lem dom laws x (y ∷ ys) fy))
    disjoint_rec_lem (suc fuel) (x ∷ x' ∷ xs) [] jobs e fx fy =
        (_, refl, nothing_second dom laws (x ∷ x' ∷ xs))
    disjoint_rec_lem (suc fuel) (x ∷ x' ∷ xs) (y ∷ ys) jobs e fx fy =
        let whole = x ∷ x' ∷ xs in
        let h = split whole in
        let halves = split-AreHalves whole in
        let short = length-split whole fuel (omega arith) e in
        let f0 : IsFront dom h.0 =
          λ z m w k. fx z ((halves z).1 (inl m)) w ((halves w).1 (inl k)) in
        let f1 : IsFront dom h.1 =
          λ z m w k. fx z ((halves z).1 (inr m)) w ((halves w).1 (inr k)) in
        elim (Bool-cases (ltb 1 jobs)) [
          | inl j ↦
              let m1 = disjoint_rec_lem fuel h.0 (y ∷ ys) (jobs / 2) short.0 f0 fy in
              let m2 = disjoint_rec_lem fuel h.1 (y ∷ ys) (max 1 (jobs - jobs / 2)) short.1 f1 fy in
              (
                _,
                rw (get_nondominated_disjoint_rec, m1.1, m2.1, j) refl,
                apart whole h.0 h.1 (y ∷ ys) halves fx m1.0 m2.0 (meet m1.0.1 m2.0.1) m1.2 m2.2
                    (meets m1.0.1 m2.0.1),
              )
          | inr j ↦
              let m1 = disjoint_rec_lem fuel h.0 (y ∷ ys) 1 short.0 f0 fy in
              let below : IsFront dom m1.0.1 =
                λ z m w k. fy z ((m1.2.second z).0 m).0 w ((m1.2.second w).0 k).0 in
              let m2 = disjoint_rec_lem fuel h.1 m1.0.1 1 short.1 f1 below in
              (
                _,
                rw (get_nondominated_disjoint_rec, m1.1, m2.1, j) refl,
                in_turn whole h.0 h.1 (y ∷ ys) halves fx m1.0 m2.0 m1.2 m2.2,
              )
        ]
