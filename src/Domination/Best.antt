-- ===== src/Domination/Best.antt =====
-- What `get_nondominated_rec` and `get_nondominated_iter` find among candidates with scores of one length.
use asmoses.Base.{ℕ, ◌≡◌, ◌↔◌, refl, Bool, false, List, [], ◌∷◌, some, length}
use mathlib.Core.List.{Memᴰ}
use mathlib.Core.List.Memᴰ.{head, tail}
use asmoses.Domination.{
  Tribool, holds, fails, dominates, against, nondominated_from, get_nondominated_iter,
  get_nondominated_rec,
}
use asmoses.Domination.Scores.{IsScoreOrder, dominates-IsDomination}
use asmoses.Domination.Disjoint.{NoneDominates, IsFront}
use asmoses.Domination.Joined.{IsMeet}
use asmoses.Domination.Front.{get_nondominated_rec_lem}

module _ {S A : Type 0} (greater : S → S → Bool) (order : IsScoreOrder greater)
    (dom : A → A → Tribool) (bscore : A → List S)
    (says : (x y : A) → dominates greater (bscore x) (bscore y) ≡ some (dom x y))
    (even : (x y : A) → length (bscore x) ≡ length (bscore y)) (meet : List A → List A → List A)
    (split_jobs : ℕ → ℕ × ℕ) (meets : IsMeet meet) where
  -- Among candidates with scores of one length, ordered like numbers, `get_nondominated_rec` ends within
  -- fuel for the number of candidates, with whatever number of jobs, if `meet` is the intersection. What
  -- it gives are just the candidates that no candidate of the list dominates.
  pub get_nondominated_rec-best :
      (xs : List A) (jobs : ℕ)
      → (r : List A) × (get_nondominated_rec dom meet split_jobs (length xs) xs jobs ≡ some r)
        × ((x : A) → Memᴰ x r ↔ (Memᴰ x xs × NoneDominates dom xs x))
  get_nondominated_rec-best =
      get_nondominated_rec_lem dom (dominates-IsDomination greater order dom bscore says even) meet
        split_jobs meets

against_better :
    {A : Type 0} (dom : A → A → Tribool) (a b c : A)
    → dom a b ≡ fails
    → against dom a (b ∷ c ∷ []) ≡ (false, b ∷ c ∷ [])
unfolding against
against_better dom a b c e = rw (against, e) refl

-- Where the second of three candidates dominates the first and the third, `get_nondominated_iter` ends
-- with candidates of which one dominates another.
pub get_nondominated_iter_skips :
    {A : Type 0} (dom : A → A → Tribool) (a b c : A)
    → dom a b ≡ fails
    → dom b c ≡ holds
    → (r : List A) × (get_nondominated_iter dom (a ∷ b ∷ c ∷ []) ≡ some r) × ¬ IsFront dom r
unfolding get_nondominated_iter nondominated_from against
get_nondominated_iter_skips dom a b c e h = (
  b ∷ c ∷ [],
  rw (nondominated_from, against_better dom a b c e) refl,
  λ f. f c (tail (head refl)) b (head refl) h,
)
