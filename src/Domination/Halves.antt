-- ===== src/Domination/Halves.antt =====
-- `split` cuts a list into two halves that are shorter where it has at least two members.
use asmoses.Base.{
  ℕ, zero, suc, ◌+◌, ◌/◌, ◌≤◌, ◌≡◌, ◌↔◌, ◌⊎◌, inl, inr, List, [], ◌∷◌, length, take, drop, arith,
}
use mathlib.Core.List.{Memᴰ}
use mathlib.Core.List.Memᴰ.{head, tail}
use asmoses.Domination.{split}

-- The members of a list are those of its two halves.
abbrev pub AreHalves : {A : Type 0} → List A → List A → List A → Type 0
AreHalves {A} xs hs ks = (x : A) → Memᴰ x xs ↔ (Memᴰ x hs ⊎ Memᴰ x ks)

take_or_drop :
    {A : Type 0} (n : ℕ) (xs : List A) (x : A) → Memᴰ x xs → Memᴰ x (take n xs) ⊎ Memᴰ x (drop n xs)
take_or_drop zero xs x m = inr m
take_or_drop (suc n) [] x m = elim m [ ]
take_or_drop (suc n) (y ∷ xs) x (head e) = inl (head e)
take_or_drop (suc n) (y ∷ xs) x (tail m) = elim (take_or_drop n xs x m) [
  | inl k ↦ inl (tail k)
  | inr k ↦ inr k
]

take_in : {A : Type 0} (n : ℕ) (xs : List A) (x : A) → Memᴰ x (take n xs) → Memᴰ x xs
take_in zero xs x m = elim m [ ]
take_in (suc n) [] x m = elim m [ ]
take_in (suc n) (y ∷ xs) x (head e) = head e
take_in (suc n) (y ∷ xs) x (tail m) = tail (take_in n xs x m)

drop_in : {A : Type 0} (n : ℕ) (xs : List A) (x : A) → Memᴰ x (drop n xs) → Memᴰ x xs
drop_in zero xs x m = m
drop_in (suc n) [] x m = elim m [ ]
drop_in (suc n) (y ∷ xs) x m = tail (drop_in n xs x m)

pub split-AreHalves : {A : Type 0} (xs : List A) → AreHalves xs (split xs).0 (split xs).1
unfolding split
split-AreHalves xs x = (
  take_or_drop (length xs / 2) xs x,
  λ m. elim m [ inl k ↦ take_in _ xs x k | inr k ↦ drop_in _ xs x k ],
)

length-take : {A : Type 0} (n : ℕ) (xs : List A) → length (take n xs) ≤ n
length-take zero xs = omega arith
length-take (suc n) [] = omega arith
length-take (suc n) (y ∷ xs) = omega (arith, length-take n xs)

length-drop :
    {A : Type 0} (n : ℕ) (xs : List A) → n ≤ length xs → length (drop n xs) + n ≡ length xs
length-drop zero xs h = omega arith
length-drop (suc n) [] h = absurd (omega arith)
length-drop (suc n) (y ∷ xs) h = omega (arith, length-drop n xs (omega (arith, h)))

-- Both halves of a list of at least two are shorter.
pub length-split :
    {A : Type 0} (xs : List A) (k : ℕ)
    → 2 ≤ length xs
    → length xs ≤ suc k
    → (length (split xs).0 ≤ k) × (length (split xs).1 ≤ k)
unfolding split
length-split xs k h e =
    let first = length-take (length xs / 2) xs in
    let second = length-drop (length xs / 2) xs (omega arith) in
    (omega (arith, first, h, e), omega (arith, second, h, e))
