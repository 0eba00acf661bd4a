-- ===== src/Neighborhood/Numbers.antt =====
-- How many instances there are at a distance: the recurrence that both functions follow on discs and
-- bits, by Pascal's triangle for the bits.
use asmoses.Base.{
  ℕ, zero, suc, ◌+◌, ◌-◌, ◌*◌, ◌≤◌, ◌<◌, ◌≡◌, refl, List, [], ◌∷◌, some, length, drop, get_elem?,
  arith,
}

unfoldable pub choose : ℕ → ℕ → ℕ
choose n zero = 1
choose zero (suc k) = 0
choose (suc n) (suc k) = choose n k + choose n (suc k)

-- The ways to change `dist` of some discs, each to one of its other values, and some bits.
unfoldable pub neighbors : List ℕ → ℕ → ℕ → ℕ
neighbors ms bits zero = 1
neighbors [] bits (suc d) = choose bits (suc d)
neighbors (m ∷ ms) bits (suc d) = neighbors ms bits (suc d) + (m - 1) * neighbors ms bits d

unfoldable pub other_values : List ℕ → ℕ
other_values [] = 0
other_values (m ∷ ms) = (m - 1) + other_values ms

unfoldable pub AllMulti : List ℕ → Type 0
AllMulti [] = Unit
AllMulti (m ∷ ms) = (2 ≤ m) × AllMulti ms

pub choose-one : (n : ℕ) → choose n 1 ≡ n
unfolding choose
choose-one zero = refl
choose-one (suc n) = omega (arith, choose-one n)

pub neighbors-one : (ms : List ℕ) (bits : ℕ) → neighbors ms bits 1 ≡ bits + other_values ms
unfolding neighbors other_values
neighbors-one [] bits = omega (arith, choose-one bits)
neighbors-one (m ∷ ms) bits = omega (arith, neighbors-one ms bits)

pub choose-small : (n k : ℕ) → n < k → choose n k ≡ 0
unfolding choose
choose-small n zero h = absurd (omega arith)
choose-small zero (suc k) h = refl
choose-small (suc n) (suc k) h =
    omega (arith, choose-small n k (omega (arith, h)), choose-small n (suc k) (omega (arith, h)))

pub get-drop :
    (i : ℕ) (ms : List ℕ) (m : ℕ) (rest : List ℕ) → drop i ms ≡ m ∷ rest → get_elem? ms i ≡ some m
get-drop zero [] m rest e = ground arith
get-drop (suc i) [] m rest e = ground arith
get-drop zero (k ∷ ms) m rest e = ground arith
get-drop (suc i) (k ∷ ms) m rest e = get-drop i ms m rest e

pub drop-suc :
    (i : ℕ) (ms : List ℕ) (m : ℕ) (rest : List ℕ) → drop i ms ≡ m ∷ rest → drop (suc i) ms ≡ rest
drop-suc zero [] m rest e = ground arith
drop-suc (suc i) [] m rest e = ground arith
drop-suc zero (k ∷ ms) m rest e = ground arith
drop-suc (suc i) (k ∷ ms) m rest e = drop-suc i ms m rest e

pub drop-all : (i : ℕ) (ms : List ℕ) → length ms ≤ i → drop i ms ≡ []
drop-all zero [] h = refl
drop-all zero (k ∷ ms) h = absurd (omega arith)
drop-all (suc i) [] h = refl
drop-all (suc i) (k ∷ ms) h = drop-all i ms (omega arith)

pub drop-AllMulti : (i : ℕ) (ms : List ℕ) → AllMulti ms → AllMulti (drop i ms)
unfolding AllMulti
drop-AllMulti zero ms a = a
drop-AllMulti (suc i) [] a = tt
drop-AllMulti (suc i) (m ∷ ms) a = drop-AllMulti i ms a.1

pub drop-cons :
    (i : ℕ) (ms : List ℕ) → i < length ms → (m : ℕ) × (rest : List ℕ) × (drop i ms ≡ m ∷ rest)
drop-cons zero [] h = absurd (omega arith)
drop-cons zero (m ∷ ms) h = (m, ms, refl)
drop-cons (suc i) [] h = absurd (omega arith)
drop-cons (suc i) (m ∷ ms) h = drop-cons i ms (omega arith)
