-- ===== src/Domination/Sets.antt =====
-- `remove_dominated` and `merge_nondominated` of opencog/asmoses/moses/metapopulation/domination.cc on
-- sets of candidates, lists here. `same` says whether two candidates are one key of the set, and `minus`
-- is `set_difference` of another repository on the two lists after `boost::sort`.
use asmoses.Base.{ℕ, Bool, true, false, List, [], ◌∷◌, Option, none, some, length, if◌then◌else◌}
use asmoses.Domination.{Tribool, get_nondominated_rec, get_nondominated_disjoint_rec}
pub mod Merge

module _ {A : Type 0} (same : A → A → Bool) where
  unfoldable pub erase : A → List A → List A
  erase x [] = []
  erase x (y ∷ ys) = let rest = erase x ys in if same x y then rest else y ∷ rest

  unfoldable pub erase_each : List A → List A → List A
  erase_each [] ys = ys
  erase_each (x ∷ xs) ys = erase_each xs (erase x ys)

  unfoldable pub is_in : A → List A → Bool
  is_in x [] = false
  is_in x (y ∷ ys) = let rest = is_in x ys in if same x y then true else rest

  unfoldable pub insert_each : List A → List A → List A
  insert_each [] ys = ys
  insert_each (x ∷ xs) ys = insert_each xs (if is_in x ys then ys else x ∷ ys)

module _ {A : Type 0} (same : A → A → Bool) (dom : A → A → Tribool)
    (meet minus : List A → List A → List A) (split_jobs : ℕ → ℕ × ℕ) where
  unfoldable pub remove_dominated : List A → ℕ → Option (List A)
  remove_dominated bcs jobs =
      elim (get_nondominated_rec dom meet split_jobs (length bcs) bcs jobs) [
        | none ↦ none
        | some res ↦ some (erase_each same (minus bcs res) bcs)
      ]

  -- The metapopulation after the candidates `bcs` are merged into it.
  unfoldable pub merge_nondominated : List A → List A → ℕ → Option (List A)
  merge_nondominated scored_trees bcs jobs =
      elim (get_nondominated_disjoint_rec dom meet split_jobs (length bcs) bcs scored_trees jobs) [
        | none ↦ none
        | some bcv_p ↦
            let left = erase_each same (minus scored_trees bcv_p.1) scored_trees in
            some (insert_each same bcv_p.0 left)
      ]
