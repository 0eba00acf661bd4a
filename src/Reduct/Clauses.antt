-- ===== src/Reduct/Clauses.antt =====
-- Normal forms as lists of clauses: opencog/asmoses/reduct/reduct/flat_normal_form.h and
-- flat_normal_form.cc, and the loop of `reduce_ors` and `reduce_ands` in
-- opencog/asmoses/reduct/rules/logical_rules.cc that adds implied clauses. A clause is a set of
-- literals in the order `absolute_value_order` of another repository: the parameter `before`.
use asmoses.Base.{
  ℕ, zero, suc, ◌+◌, Bool, true, false, not, ◌&&◌, ◌||◌, List, [], ◌∷◌, ◌++◌, Option, none, some,
  length, ltb, leb, if◌then◌else◌,
}
use asmoses.Base.Int.{ℤ, neg, eqb_ℤ}
pub mod Truth
pub mod Sorted
pub mod Consistent
pub mod Implied
pub mod Loops
pub mod Erasing
pub mod Antichain
pub mod Steps
pub mod Ends

abbrev pub Clause : Type 0
Clause = List ℤ

abbrev pub Nf : Type 0
Nf = List Clause

unfoldable pub contains : Clause → ℤ → Bool
contains [] x = false
contains (y ∷ c) x = let rest = contains c x in if eqb_ℤ x y then true else rest

unfoldable pub erase : ℤ → Clause → Clause
erase x [] = []
erase x (y ∷ c) = let rest = erase x c in if eqb_ℤ x y then c else y ∷ rest

-- `std::includes`: each literal of the first clause is one of the second.
unfoldable pub is_included : Clause → Clause → Bool
is_included [] d = true
is_included (x ∷ c) d = let rest = is_included c d in if contains d x then rest else false

unfoldable pub subset_eq : Clause → Clause → Bool
subset_eq c d = if leb (length c) (length d) then is_included c d else false

unfoldable pub subset : Clause → Clause → Bool
subset c d = if ltb (length c) (length d) then is_included c d else false

-- `std::adjacent_find` of a literal and its negation.
unfoldable pub tautology : Clause → Bool
tautology [] = false
tautology (x ∷ []) = false
tautology (x ∷ y ∷ c) = let rest = tautology (y ∷ c) in if eqb_ℤ x (neg y) then true else rest

unfoldable pub number_of_literals : Nf → ℕ
number_of_literals [] = 0
number_of_literals (c ∷ f) = length c + number_of_literals f

-- `list::remove_if(tautology)`
unfoldable pub remove_tautologies : Nf → Nf
remove_tautologies [] = []
remove_tautologies (c ∷ f) =
    let rest = remove_tautologies f in if tautology c then rest else c ∷ rest

-- The inner loop of `pairwise_erase_if(f, subset_eq)`: the clauses before `c`, and whether `c` stays.
unfoldable pub erase_among : Clause → Nf → Nf × Bool
erase_among c [] = ([], true)
erase_among c (d ∷ f) =
    let rest = erase_among c f in
    if subset_eq c d then rest else (if subset_eq d c then (d ∷ f, false) else (d ∷ rest.0, rest.1))

unfoldable pub erase_pairs : Nf → Nf → Nf
erase_pairs kept [] = kept
erase_pairs kept (c ∷ f) =
    let r = erase_among c kept in
    let with_c = erase_pairs (r.0 ++ (c ∷ [])) f in
    let without_c = erase_pairs r.0 f in if r.1 then with_c else without_c

-- Clauses that a literal list is part of are erased.
unfoldable pub erase_supersets : Clause → Nf → Nf
erase_supersets impl [] = []
erase_supersets impl (c ∷ f) =
    let rest = erase_supersets impl f in if subset_eq impl c then rest else c ∷ rest

-- The clauses around the two that the loop has in hand: `c2` stands behind `front` and before
-- `between`, `c1` behind that and before `behind`.
pub record Hand : Type 0 where
  pub front : Nf
  pub c2 : Clause
  pub between : Nf
  pub c1 : Clause
  pub behind : Nf

-- The body of the loop over the implied clauses.
unfoldable pub absorb : Clause → Hand → Hand
absorb impl h = record {
  front = erase_supersets impl h.front;
  c2 = if subset impl h.c2 then impl else h.c2;
  between = erase_supersets impl h.between;
  c1 = if subset impl h.c1 then impl else h.c1;
  behind = erase_supersets impl h.behind;
}

unfoldable pub absorb_all : Nf → Hand → Hand
absorb_all [] h = h
absorb_all (impl ∷ impls) h = absorb_all impls (absorb impl h)

module _ (before : ℤ → ℤ → Bool) where
  -- `std::set::insert`
  unfoldable pub insert : ℤ → Clause → Clause
  insert x [] = x ∷ []
  insert x (y ∷ c) =
      let later = insert x c in
      if before x y then x ∷ y ∷ c else (if before y x then y ∷ later else y ∷ c)

  unfoldable pub insert_all : Clause → Clause → Clause
  insert_all [] c = c
  insert_all (x ∷ xs) c = insert_all xs (insert x c)

  -- The merge of two clauses into a new set, less a literal and its negation.
  unfoldable pub resolvent : Clause → Clause → ℤ → ℤ → Clause
  resolvent c d x y = erase y (erase x (insert_all d (insert_all c [])))

  -- `implications`: the loop over the second clause, and the loop over the first.
  unfoldable pub implications_of : Clause → Clause → ℤ → Clause → Nf
  implications_of c d x [] = []
  implications_of c d x (y ∷ ys) =
      let rest = implications_of c d x ys in
      let r = resolvent c d x y in
      if eqb_ℤ x (neg y) then (if tautology r then rest else r ∷ rest) else rest

  unfoldable pub implications : Clause → Clause → Clause → Nf
  implications c d [] = []
  implications c d (x ∷ xs) = implications_of c d x d ++ implications c d xs

  -- The loop over `c2`; `none` is no fuel left. It ends with what stands before `c1`, `c1` and what
  -- stands behind it.
  unfoldable pub walk : ℕ → Nf → Nf → Clause → Nf → Option (Nf × Clause × Nf)
  walk fuel front [] c1 behind = some (front, c1, behind)
  walk zero front (c2 ∷ between) c1 behind = none
  walk (suc fuel) front (c2 ∷ between) c1 behind =
      let h =
        absorb_all (implications c1 c2 c1)
          (record { front = front; c2 = c2; between = between; c1 = c1; behind = behind }) in
      walk fuel (h.front ++ (h.c2 ∷ [])) h.between h.c1 h.behind

  -- The loop over `c1`.
  unfoldable pub add_implied : ℕ → Nf → Nf → Option Nf
  add_implied fuel done [] = some done
  add_implied zero done (c1 ∷ behind) = none
  add_implied (suc fuel) done (c1 ∷ behind) = elim (walk (length done) [] done c1 behind) [
    | none ↦ none
    | some (done', c1', behind') ↦ add_implied fuel (done' ++ (c1' ∷ [])) behind'
  ]

  -- The clauses that `reduce_ors` ends with.
  unfoldable pub reduce_nf : Nf → Option Nf
  reduce_nf f = let g = erase_pairs [] (remove_tautologies f) in add_implied (length g) [] g
