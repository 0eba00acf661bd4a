-- ===== src/Base/Lists.antt =====
-- Lists measured and indexed by native numbers, under the library's names.
use Prim.Native.Nat.{ℕ, zero, suc, ◌+◌, ◌-◌, ◌≤◌}
use mathlib.Core.Path.{◌≡◌, refl}
use mathlib.Core.Logic.{◌⊎◌, inl, inr}
use mathlib.Core.List.{List, [], ◌∷◌, ◌++◌, map}
use mathlib.Core.Option.{Option, none, some}
use native.Mathlib.Omega.{arith}

module _ {ℓ} {A : Type ℓ} where
  abbrev pub length : List A → ℕ
  length [] = 0
  length (_ ∷ rest) = suc (length rest)

  abbrev pub get_elem? : List A → ℕ → Option A
  get_elem? [] i = none
  get_elem? (a ∷ rest) zero = some a
  get_elem? (a ∷ rest) (suc i) = get_elem? rest i

  abbrev pub drop : ℕ → List A → List A
  drop zero l = l
  drop (suc k) [] = []
  drop (suc k) (_ ∷ rest) = drop k rest

  abbrev pub take : ℕ → List A → List A
  take zero l = []
  take (suc k) [] = []
  take (suc k) (a ∷ rest) = a ∷ take k rest

  abbrev pub replicate : ℕ → A → List A
  replicate zero a = []
  replicate (suc k) a = a ∷ replicate k a

  pub List-cases : (xs : List A) → (xs ≡ []) ⊎ ((y : A) × (ys : List A) × (xs ≡ y ∷ ys))
  List-cases [] = inl refl
  List-cases (y ∷ ys) = inr (y, ys, refl)

  pub length-append : (l m : List A) → length (l ++ m) ≡ length l + length m
  length-append (_ ∷ rest) m = omega (arith, length-append rest m)
  length-append [] m = omega arith

  pub eq-nil_of_length : (l : List A) → length l ≤ 0 → l ≡ []
  eq-nil_of_length (_ ∷ rest) h = absurd (omega arith)
  eq-nil_of_length [] h = refl

  pub take_of_length-le : (k : ℕ) (l : List A) → length l ≤ k → take k l ≡ l
  take_of_length-le zero l h = rw (eq-nil_of_length l h)
  take_of_length-le (suc k) [] h = refl
  take_of_length-le (suc k) (a ∷ rest) h =
      let shorter = take_of_length-le k rest (omega arith) in rw shorter

  pub length-drop : (k : ℕ) (l : List A) → length (drop k l) ≡ length l - k
  length-drop (suc k) (_ ∷ rest) = omega (arith, length-drop k rest)
  length-drop (suc k) [] = omega arith
  length-drop zero l = omega arith

  pub drop-length_le : (k : ℕ) (l : List A) → length l ≤ k → drop (length l - k) l ≡ l
  drop-length_le k l h = let e : length l - k ≡ 0 = omega arith in rw e

  pub length-replicate : (k : ℕ) (a : A) → length (replicate k a) ≡ k
  length-replicate zero a = refl
  length-replicate (suc k) a = omega (arith, length-replicate k a)

pub length-map {ℓ κ} :
    {A : Type ℓ} {B : Type κ} (f : A → B) (l : List A) → length (map f l) ≡ length l
length-map f [] = refl
length-map f (_ ∷ rest) = omega (arith, length-map f rest)
