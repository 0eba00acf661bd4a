-- ===== src/Domination.antt =====
-- The candidates that no other one dominates: opencog/asmoses/moses/metapopulation/domination.cc and
-- `split` of metapopulation.h. Candidates are of a type `A`, pointers to them are compared by what they
-- point to. The loops read the scores of two candidates side by side; `none` is a read behind the end
-- of the shorter one, or no fuel left.
use asmoses.Base.{
  ℕ, zero, suc, ◌-◌, ◌/◌, Bool, true, false, List, [], ◌∷◌, ◌++◌, Option, none, some, length, take,
  drop, ltb, if◌then◌else◌,
}
use Prim.Native.Nat.{max}
pub mod Scores
pub mod Halves
pub mod Disjoint
pub mod Joined
pub mod Front
pub mod Best
pub mod Sets
mod Tests

-- `boost::logic::tribool`
pub data Tribool : Type 0 where
  holds fails indeterminate : Tribool

module _ {S : Type 0} (greater : S → S → Bool) where
  -- The loop of `dominates`, with `res` so far.
  unfoldable pub compare_scores : List S → List S → Tribool → Option Tribool
  compare_scores [] ys res = some res
  compare_scores (x ∷ xs) [] res = none
  compare_scores (x ∷ xs) (y ∷ ys) res =
      let above : Option Tribool = elim res [
        | fails ↦ some indeterminate
        | _ ↦ compare_scores xs ys holds
      ] in
      let below : Option Tribool = elim res [
        | holds ↦ some indeterminate
        | _ ↦ compare_scores xs ys fails
      ] in
      let even = compare_scores xs ys res in
      if greater x y then above else (if greater y x then below else even)

  unfoldable pub dominates : List S → List S → Option Tribool
  dominates [] [] = some indeterminate
  dominates [] (y ∷ ys) = some fails
  dominates (x ∷ xs) [] = some holds
  dominates (x ∷ xs) (y ∷ ys) = compare_scores (x ∷ xs) (y ∷ ys) indeterminate

unfoldable pub split : {A : Type 0} → List A → List A × List A
split bcv = (take (length bcv / 2) bcv, drop (length bcv / 2) bcv)

abbrev keep : {A : Type 0} → A → Option (List A) → Option (List A)
keep x none = none
keep x (some xs) = some (x ∷ xs)

-- `dom` is what `dominates` says of the scores of two candidates.
module _ {A : Type 0} (dom : A → A → Tribool) where
  -- The loop of the base case: whether the one candidate stays, and which others do.
  unfoldable pub against : A → List A → Bool × List A
  against x [] = (true, [])
  against x (y ∷ ys) =
      let rest = against x ys in
      elim (dom x y) [
        | fails ↦ (false, y ∷ ys)
        | indeterminate ↦ (rest.0, y ∷ rest.1)
        | holds ↦ rest
      ]

  -- The loop of `get_nondominated_iter` from `it1` on. Where `it1` is erased, it is moved on once more
  -- behind the candidate that it has come to.
  unfoldable pub nondominated_from : ℕ → List A → Option (List A)
  nondominated_from fuel [] = some []
  nondominated_from zero (x ∷ xs) = none
  nondominated_from (suc fuel) (x ∷ xs) =
      let r = against x xs in
      let stays = keep x (nondominated_from fuel r.1) in
      let erased : Option (List A) = elim r.1 [
        | [] ↦ some []
        | y ∷ ys ↦ keep y (nondominated_from fuel ys)
      ] in
      if r.0 then stays else erased

  unfoldable pub get_nondominated_iter : List A → Option (List A)
  get_nondominated_iter bcs = nondominated_from (length bcs) bcs

-- `meet` is `set_intersection` of
-- another repository on the two lists after `boost::sort`, and `split_jobs` is of another repository.
module _ {A : Type 0} (dom : A → A → Tribool) (meet : List A → List A → List A)
    (split_jobs : ℕ → ℕ × ℕ) where
  unfoldable pub get_nondominated_disjoint_rec : ℕ → List A → List A → ℕ → Option (List A × List A)
  get_nondominated_disjoint_rec fuel [] bcv2 jobs = some ([], bcv2)
  get_nondominated_disjoint_rec fuel (x ∷ []) [] jobs = some (x ∷ [], [])
  get_nondominated_disjoint_rec fuel (x ∷ []) (y ∷ ys) jobs =
      let r = against dom x (y ∷ ys) in some (if r.0 then x ∷ [] else [], r.1)
  get_nondominated_disjoint_rec fuel (x ∷ x' ∷ xs) [] jobs = some (x ∷ x' ∷ xs, [])
  get_nondominated_disjoint_rec zero (x ∷ x' ∷ xs) (y ∷ ys) jobs = none
  get_nondominated_disjoint_rec (suc fuel) (x ∷ x' ∷ xs) (y ∷ ys) jobs =
      let h = split (x ∷ x' ∷ xs) in
      let jobs1 = jobs / 2 in
      let jobs2 = max 1 (jobs - jobs1) in
      let threaded : Option (List A × List A) =
        elim (get_nondominated_disjoint_rec fuel h.0 (y ∷ ys) jobs1) [
          | none ↦ none
          | some m1 ↦ elim (get_nondominated_disjoint_rec fuel h.1 (y ∷ ys) jobs2) [
            | none ↦ none
            | some m2 ↦ some (m1.0 ++ m2.0, meet m1.1 m2.1)
          ]
        ] in
      let single : Option (List A × List A) =
        elim (get_nondominated_disjoint_rec fuel h.0 (y ∷ ys) 1) [
          | none ↦ none
          | some m1 ↦ elim (get_nondominated_disjoint_rec fuel h.1 m1.1 1) [
            | none ↦ none
            | some m2 ↦ some (m1.0 ++ m2.0, m2.1)
          ]
        ] in
      if ltb 1 jobs then threaded else single

  unfoldable pub get_nondominated_rec : ℕ → List A → ℕ → Option (List A)
  get_nondominated_rec fuel [] jobs = some []
  get_nondominated_rec fuel (x ∷ []) jobs = some (x ∷ [])
  get_nondominated_rec zero (x ∷ x' ∷ xs) jobs = none
  get_nondominated_rec (suc fuel) (x ∷ x' ∷ xs) jobs =
      let h = split (x ∷ x' ∷ xs) in
      let s_jobs = if ltb 1 jobs then split_jobs jobs else (1, 1) in
      let disjoint_jobs = if ltb 1 jobs then jobs else 1 in
      elim (get_nondominated_rec fuel h.0 s_jobs.0) [
        | none ↦ none
        | some bcv1_nd ↦ elim (get_nondominated_rec fuel h.1 s_jobs.1) [
          | none ↦ none
          | some bcv2_nd ↦
              elim (get_nondominated_disjoint_rec (length bcv1_nd) bcv1_nd bcv2_nd disjoint_jobs) [
                | none ↦ none
                | some res_p ↦ some (res_p.0 ++ res_p.1)
              ]
        ]
      ]
