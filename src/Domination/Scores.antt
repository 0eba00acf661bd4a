-- ===== src/Domination/Scores.antt =====
-- `dominates` compares two behavioral scores of one length in every place.
use asmoses.Base.{
  ◌≡◌, refl, sym, ◌∙◌, inl, inr, Bool, true, false, Bool-cases, List, [], ◌∷◌, some, some-injective,
  length, if◌then◌else◌, arith,
}
use asmoses.Domination.{Tribool, holds, fails, indeterminate, compare_scores, dominates}
use asmoses.Domination.Disjoint.{IsDomination}

-- What two lists say of each other, from whether each is at least the other.
abbrev pub verdict : Bool → Bool → Tribool
verdict true false = holds
verdict false true = fails
verdict _ _ = indeterminate

module _ {S : Type 0} (greater : S → S → Bool) where
  -- Scores are compared like numbers: none is greater than one that is greater, and what is not greater
  -- is at most as large.
  pub record IsScoreOrder : Type 0 where
    pub asym : (a b : S) → greater a b ≡ true → greater b a ≡ false
    pub at_most : (a b c : S) → greater a b ≡ false → greater b c ≡ false → greater a c ≡ false

  -- No score of the second list is greater than the one in its place in the first.
  unfoldable pub at_least : List S → List S → Bool
  at_least [] ys = true
  at_least (x ∷ xs) [] = true
  at_least (x ∷ xs) (y ∷ ys) = let rest = at_least xs ys in if greater y x then false else rest

module _ {S : Type 0} (greater : S → S → Bool) (order : IsScoreOrder greater) where
  -- The loop, from each of its states.
  compare_holds :
      (xs ys : List S)
      → length xs ≡ length ys
      → compare_scores greater xs ys holds
        ≡ some (if at_least greater xs ys then holds else indeterminate)
  unfolding compare_scores at_least
  compare_holds [] ys e = refl
  compare_holds (x ∷ xs) [] e = absurd (omega arith)
  compare_holds (x ∷ xs) (y ∷ ys) e =
      let rest = compare_holds xs ys (omega (arith, e)) in ground (arith, rest, order.asym x y)

  compare_fails :
      (xs ys : List S)
      → length xs ≡ length ys
      → compare_scores greater xs ys fails
        ≡ some (if at_least greater ys xs then fails else indeterminate)
  unfolding compare_scores at_least
  compare_fails [] [] e = refl
  compare_fails [] (y ∷ ys) e = absurd (omega arith)
  compare_fails (x ∷ xs) [] e = absurd (omega arith)
  compare_fails (x ∷ xs) (y ∷ ys) e =
      let rest = compare_fails xs ys (omega (arith, e)) in ground (arith, rest, order.asym x y)

  compare_indeterminate :
      (xs ys : List S)
      → length xs ≡ length ys
      → compare_scores greater xs ys indeterminate
        ≡ some (verdict (at_least greater xs ys) (at_least greater ys xs))
  unfolding compare_scores at_least
  compare_indeterminate [] [] e = refl
  compare_indeterminate [] (y ∷ ys) e = absurd (omega arith)
  compare_indeterminate (x ∷ xs) [] e = absurd (omega arith)
  compare_indeterminate (x ∷ xs) (y ∷ ys) e =
      let n : length xs ≡ length ys = omega (arith, e) in
      let rest = compare_indeterminate xs ys n in
      let up = compare_holds xs ys n in
      let down = compare_fails xs ys n in
      let apart = order.asym x y in
      elim (Bool-cases (greater x y)) [
        | inl g ↦ rw (compare_scores, at_least, g, apart g, up) (ground arith)
        | inr g ↦ elim (Bool-cases (greater y x)) [
          | inl h ↦ rw (compare_scores, at_least, g, h, down) (ground arith)
          | inr h ↦ rw (compare_scores, at_least, g, h, rest) refl
        ]
      ]

  -- On two scores of one length, `dominates` reads no further than their ends. It holds where no place of
  -- the first is below that of the second and some place of the second is below that of the first, it
  -- fails where that is so the other way round, and else it is indeterminate.
  pub dominates_lem :
      (xs ys : List S)
      → length xs ≡ length ys
      → dominates greater xs ys ≡ some (verdict (at_least greater xs ys) (at_least greater ys xs))
  unfolding dominates at_least
  dominates_lem [] [] e = refl
  dominates_lem [] (y ∷ ys) e = absurd (omega arith)
  dominates_lem (x ∷ xs) [] e = absurd (omega arith)
  dominates_lem (x ∷ xs) (y ∷ ys) e = compare_indeterminate (x ∷ xs) (y ∷ ys) e

  at_least_trans :
      (xs ys zs : List S)
      → length xs ≡ length ys
      → length ys ≡ length zs
      → at_least greater xs ys ≡ true
      → at_least greater ys zs ≡ true
      → at_least greater xs zs ≡ true
  unfolding at_least
  at_least_trans [] ys zs e f h k = refl
  at_least_trans (x ∷ xs) [] zs e f h k = absurd (omega arith)
  at_least_trans (x ∷ xs) (y ∷ ys) [] e f h k = absurd (omega arith)
  at_least_trans (x ∷ xs) (y ∷ ys) (z ∷ zs) e f h k =
      let rest = at_least_trans xs ys zs (omega (arith, e)) (omega (arith, f)) in
      ground (arith, rest, order.at_most z y x, h, k)

  module _ {A : Type 0} (dom : A → A → Tribool) (bscore : A → List S)
      (says : (x y : A) → dominates greater (bscore x) (bscore y) ≡ some (dom x y))
      (even : (x y : A) → length (bscore x) ≡ length (bscore y)) where
    dom-verdict :
        (x y : A)
        → dom x y
          ≡ verdict
              (at_least greater (bscore x) (bscore y))
              (at_least greater (bscore y) (bscore x))
    dom-verdict x y =
        some-injective _ _ (sym (says x y) ∙ dominates_lem (bscore x) (bscore y) (even x y))

    -- Scores of one length dominate each other in a strict order.
    pub dominates-IsDomination : IsDomination dom
    dominates-IsDomination = record {
      turned = λ x y h. ground (arith, dom-verdict x y, dom-verdict y x, h);
      turned_back = λ x y h. ground (arith, dom-verdict x y, dom-verdict y x, h);
      trans = λ x y z h k.
          let up = at_least_trans (bscore x) (bscore y) (bscore z) (even x y) (even y z) in
          let down = at_least_trans (bscore y) (bscore z) (bscore x) (even y z) (even z x) in
          ground (arith, dom-verdict x y, dom-verdict y z, dom-verdict x z, up, down, h, k);
    }
