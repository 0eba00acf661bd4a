-- ===== src/Domination/Tests.antt =====
-- Candidates with two scores each.
use asmoses.Base.{
  ◌⊎◌, ℕ, ◌≡◌, ◌↔◌, refl, inl, inr, Bool, true, false, List, [], ◌∷◌, some, ltb, ◌==◌,
  if◌then◌else◌, arith, Bool-cases,
}
use mathlib.Core.List.{Memᴰ}
use mathlib.Core.List.Memᴰ.{head, tail}
use asmoses.Domination.{
  Tribool, dominates, split, against, get_nondominated_disjoint_rec, get_nondominated_rec,
  get_nondominated_iter,
}
use asmoses.Domination.Scores.{
  IsScoreOrder, verdict, at_least, dominates_lem, dominates-IsDomination,
}
use asmoses.Domination.Disjoint.{IsDomination, NoneDominates, IsFront}
use asmoses.Domination.Joined.{IsMeet}
use asmoses.Domination.Sets.{erase, erase_each, remove_dominated, merge_nondominated}
use asmoses.Domination.Sets.Merge.{
  IsMinus, IsSameKey, remove_dominated_lem, merge_nondominated-IsFront,
}
use asmoses.Domination.Best.{get_nondominated_rec-best, get_nondominated_iter_skips}

abbrev Candidate : Type 0
Candidate = ℕ × ℕ

abbrev greater : ℕ → ℕ → Bool
greater a b = ltb b a

greater-IsScoreOrder : IsScoreOrder greater
greater-IsScoreOrder = record { asym = λ a b h. ground arith; at_most = λ a b c h k. ground arith }

abbrev bscore : Candidate → List ℕ
bscore c = c.0 ∷ c.1 ∷ []

abbrev dom : Candidate → Candidate → Tribool
dom x y = verdict (at_least greater (bscore x) (bscore y)) (at_least greater (bscore y) (bscore x))

says : (x y : Candidate) → dominates greater (bscore x) (bscore y) ≡ some (dom x y)
says x y = dominates_lem greater greater-IsScoreOrder (bscore x) (bscore y) refl

-- An intersection of lists.
abbrev same : Candidate → Candidate → Bool
same x y = if x.0 == y.0 then x.1 == y.1 else false

abbrev is_listed : Candidate → List Candidate → Bool
is_listed x [] = false
is_listed x (y ∷ ys) = if same x y then true else is_listed x ys

abbrev meet : List Candidate → List Candidate → List Candidate
meet [] ys = []
meet (x ∷ xs) ys = if is_listed x ys then x ∷ meet xs ys else meet xs ys

same_eq : (x y : Candidate) → same x y ≡ true → x ≡ y
same_eq (a, b) (c, d) h =
    let left : a ≡ c = ground (arith, h) in
    let right : b ≡ d = ground (arith, h) in rw (left, right) refl

same_self : (x : Candidate) → same x x ≡ true
same_self (a, b) = ground arith

is_listed_Mem : (x : Candidate) (ys : List Candidate) → is_listed x ys ≡ true → Memᴰ x ys
is_listed_Mem x [] h = absurd (ground arith)
is_listed_Mem x (y ∷ ys) h = elim (Bool-cases (same x y)) [
  | inl e ↦ head (same_eq x y e)
  | inr e ↦ tail (is_listed_Mem x ys (rw e at h))
]

Mem_is_listed : (x : Candidate) (ys : List Candidate) → Memᴰ x ys → is_listed x ys ≡ true
Mem_is_listed x [] m = elim m [ ]
Mem_is_listed x (y ∷ ys) (head e) = rw (e, same_self y) refl
Mem_is_listed x (y ∷ ys) (tail m) = let r = Mem_is_listed x ys m in rw r (ground arith)

meet-IsMeet : IsMeet meet
meet-IsMeet [] ys y = (λ m. elim m [ ], λ m. m.0)
meet-IsMeet (x ∷ xs) ys y = elim (Bool-cases (is_listed x ys)) [
  | inl e ↦ rw e (
      (
        λ m. elim m [
          | head p ↦ (head p, rw p (is_listed_Mem x ys e))
          | tail k ↦ let r = (meet-IsMeet xs ys y).0 k in (tail r.0, r.1)
        ],
        λ m. elim m.0 [ head p ↦ head p | tail k ↦ tail ((meet-IsMeet xs ys y).1 (k, m.1)) ],
      ))
  | inr e ↦ rw e (
      (
        λ m. let r = (meet-IsMeet xs ys y).0 m in (tail r.0, r.1),
        λ m. elim m.0 [
          | head p ↦ absurd (ground (arith, e, Mem_is_listed x ys (rw p at m.1)))
          | tail k ↦ (meet-IsMeet xs ys y).1 (k, m.1)
        ],
      ))
]

abbrev halve_jobs : ℕ → ℕ × ℕ
halve_jobs j = (j, j)

abbrev candidates : List Candidate
candidates = (1, 3) ∷ (2, 4) ∷ (3, 1) ∷ (2, 0) ∷ []

best : get_nondominated_rec dom meet halve_jobs 4 candidates 2 ≡ some ((2, 4) ∷ (3, 1) ∷ [])
unfolding get_nondominated_rec get_nondominated_disjoint_rec split against at_least
best = refl

get_nondominated_rec-best_example :
    (r : List Candidate) × (get_nondominated_rec dom meet halve_jobs 4 candidates 2 ≡ some r)
    × ((x : Candidate) → Memᴰ x r ↔ (Memᴰ x candidates × NoneDominates dom candidates x))
get_nondominated_rec-best_example =
    get_nondominated_rec-best greater greater-IsScoreOrder dom bscore says (λ x y. refl) meet
      halve_jobs meet-IsMeet candidates 2

get_nondominated_iter_skips_example :
    (r : List Candidate) × (get_nondominated_iter dom ((1, 3) ∷ (2, 4) ∷ (2, 0) ∷ []) ≡ some r)
    × ¬ IsFront dom r
unfolding at_least
get_nondominated_iter_skips_example = get_nondominated_iter_skips dom (1, 3) (2, 4) (2, 0) refl refl

dominates_lem_example :
    dominates greater (1 ∷ 5 ∷ []) (1 ∷ 4 ∷ [])
    ≡ some (
        verdict
          (at_least greater (1 ∷ 5 ∷ []) (1 ∷ 4 ∷ []))
          (at_least greater (1 ∷ 4 ∷ []) (1 ∷ 5 ∷ [])))
dominates_lem_example = dominates_lem greater greater-IsScoreOrder (1 ∷ 5 ∷ []) (1 ∷ 4 ∷ []) refl

dom-IsDomination : IsDomination dom
dom-IsDomination = dominates-IsDomination greater greater-IsScoreOrder dom bscore says (λ x y. refl)

apart-IsFront : IsFront dom ((1, 3) ∷ (3, 1) ∷ [])
unfolding at_least
apart-IsFront x (head p) z (head q) = rw (p, q) (λ h. ground (arith, h))
apart-IsFront x (head p) z (tail (head q)) = rw (p, q) (λ h. ground (arith, h))
apart-IsFront x (tail (head p)) z (head q) = rw (p, q) (λ h. ground (arith, h))
apart-IsFront x (tail (head p)) z (tail (head q)) = rw (p, q) (λ h. ground (arith, h))
apart-IsFront x (tail (tail m)) z k = elim m [ ]
apart-IsFront x (head p) z (tail (tail m)) = elim m [ ]
apart-IsFront x (tail (head p)) z (tail (tail m)) = elim m [ ]

one-IsFront : IsFront dom ((2, 4) ∷ [])
unfolding at_least
one-IsFront x (head p) z (head q) = rw (p, q) (λ h. ground (arith, h))
one-IsFront x (tail m) z k = elim m [ ]
one-IsFront x (head p) z (tail m) = elim m [ ]

same-IsSameKey : IsSameKey same
same-IsSameKey x y = (same_eq x y, λ p. rw (p, same_self y) refl)

abbrev minus : List Candidate → List Candidate → List Candidate
minus [] ys = []
minus (x ∷ xs) ys = if is_listed x ys then minus xs ys else x ∷ minus xs ys

minus-IsMinus : IsMinus minus
minus-IsMinus [] ys y = (λ m. elim m [ ], λ m. m.0)
minus-IsMinus (x ∷ xs) ys y = elim (Bool-cases (is_listed x ys)) [
  | inl e ↦ rw e (
      (
        λ m. let r = (minus-IsMinus xs ys y).0 m in (tail r.0, r.1),
        λ m. elim m.0 [
          | head p ↦ absurd (m.1 (rw p (is_listed_Mem x ys e)))
          | tail k ↦ (minus-IsMinus xs ys y).1 (k, m.1)
        ],
      ))
  | inr e ↦ rw e (
      (
        λ m. elim m [
          | head p ↦ (head p, λ k. ground (arith, e, Mem_is_listed x ys (rw p at k)))
          | tail k ↦ let r = (minus-IsMinus xs ys y).0 k in (tail r.0, r.1)
        ],
        λ m. elim m.0 [ head p ↦ head p | tail k ↦ tail ((minus-IsMinus xs ys y).1 (k, m.1)) ],
      ))
]

left_over :
    remove_dominated same dom meet minus halve_jobs candidates 1 ≡ some ((2, 4) ∷ (3, 1) ∷ [])
unfolding remove_dominated erase erase_each get_nondominated_rec get_nondominated_disjoint_rec split
    against at_least
left_over = refl

remove_dominated_lem_example :
    (r : List Candidate) × (remove_dominated same dom meet minus halve_jobs candidates 1 ≡ some r)
    × ((x : Candidate) → Memᴰ x r ↔ (Memᴰ x candidates × NoneDominates dom candidates x))
remove_dominated_lem_example =
    remove_dominated_lem same same-IsSameKey minus minus-IsMinus dom dom-IsDomination meet
      halve_jobs meet-IsMeet candidates 1

merge_nondominated-IsFront_example :
    (r : List Candidate) × (merge_nondominated same dom meet minus halve_jobs
        ((1, 3) ∷ (3, 1) ∷ [])
        ((2, 4) ∷ [])
        1
      ≡ some r)
    × ((x : Candidate)
        → Memᴰ x r ↔ (
            (Memᴰ x ((2, 4) ∷ []) × NoneDominates dom ((1, 3) ∷ (3, 1) ∷ []) x)
            ⊎ (Memᴰ x ((1, 3) ∷ (3, 1) ∷ []) × NoneDominates dom ((2, 4) ∷ []) x)))
    × IsFront dom r
merge_nondominated-IsFront_example =
    merge_nondominated-IsFront same same-IsSameKey minus minus-IsMinus dom dom-IsDomination meet
      halve_jobs meet-IsMeet ((1, 3) ∷ (3, 1) ∷ []) ((2, 4) ∷ []) 1 apart-IsFront one-IsFront
