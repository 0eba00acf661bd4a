-- ===== src/LruCache/Keys.antt =====
-- The list operations of the cache over keys that occur once, and the map's keys.
use mathlib.Core.List.{lookup}
use asmoses.Base.{
  ℕ, zero, suc, take, ap, ◌+◌, ◌<◌, ◌≡◌, refl, ◌≢◌, Bool, true, false, List, [], ◌∷◌, map, none,
  some, ite, length, arith, if_pos, if_neg, ◌∙◌,
}
use asmoses.LruCache.{pop_back, back, erase, table_erase}

module _ {K : Type 0} (dec : Discrete K) where
  unfoldable pub contains : K → List K → Bool
  contains k [] = false
  contains k (x ∷ xs) = ite (dec k x) true (contains k xs)

  abbrev pub Distinct : List K → Type 0
  Distinct [] = Unit
  Distinct (x ∷ xs) = (contains x xs ≡ false) × Distinct xs

  pub contains-erase_self :
      (k : K) (xs : List K) → Distinct xs → contains k (erase dec k xs) ≡ false
  unfolding contains erase
  contains-erase_self k [] d = refl
  contains-erase_self k (x ∷ xs) d = elim (dec k x) [
    | yes p ↦ rw (if_pos _ p, p) d.0
    | no p ↦ rw (if_neg _ p, if_neg _ p) (contains-erase_self k xs d.1)
  ]

  pub contains-erase_ne :
      (k j : K) (xs : List K) → k ≢ j → contains j (erase dec k xs) ≡ contains j xs
  unfolding contains erase
  contains-erase_ne k j [] h = refl
  contains-erase_ne k j (x ∷ xs) h = ground (arith, contains-erase_ne k j xs h)

  pub erase-Distinct : (k : K) (xs : List K) → Distinct xs → Distinct (erase dec k xs)
  unfolding contains erase
  erase-Distinct k [] d = tt
  erase-Distinct k (x ∷ xs) d = elim (dec k x) [
    | yes p ↦ rw (if_pos _ p) d.1
    | no p ↦ rw (if_neg _ p) ((contains-erase_ne k x xs p ∙ d.0, erase-Distinct k xs d.1))
  ]

  pub length-erase :
      (k : K) (xs : List K) → contains k xs ≡ true → length (erase dec k xs) + 1 ≡ length xs
  unfolding contains erase
  length-erase k [] h = ground arith
  length-erase k (x ∷ xs) h = ground (arith, length-erase k xs)

  pub back-contains : (xs : List K) {b : K} → back xs ≡ some b → contains b xs ≡ true
  unfolding contains back
  back-contains [] h = ground arith
  back-contains (x ∷ []) h = ground arith
  back-contains (x ∷ y ∷ xs) h = ground (arith, back-contains (y ∷ xs) h)

  pub back-ne-none : (xs : List K) → 0 < length xs → back xs ≢ none
  unfolding back
  back-ne-none [] h = absurd (omega arith)
  back-ne-none (x ∷ []) h = ground arith
  back-ne-none (x ∷ y ∷ xs) h = back-ne-none (y ∷ xs) (omega arith)

  -- The last key is the only one of its kind, so taking it off the end erases it.
  pub pop_back-erase :
      (xs : List K) {b : K} → Distinct xs → back xs ≡ some b → pop_back xs ≡ erase dec b xs
  unfolding contains back pop_back erase
  pop_back-erase [] d h = refl
  pop_back-erase (x ∷ []) d h = ground arith
  pop_back-erase (x ∷ y ∷ xs) d h =
      ground (arith, pop_back-erase (y ∷ xs) d.1 h, back-contains (y ∷ xs) h)

  pub erase_absent : (k : K) (xs : List K) → contains k xs ≡ false → erase dec k xs ≡ xs
  unfolding contains erase
  erase_absent k [] h = refl
  erase_absent k (x ∷ xs) h = ground (arith, erase_absent k xs)

pub pop_back-take : {K : Type 0} (n : ℕ) (xs : List K) → length xs ≡ suc n → pop_back xs ≡ take n xs
unfolding pop_back
pop_back-take zero (x ∷ []) h = refl
pop_back-take (suc n) (x ∷ y ∷ xs) h = ap (◌∷◌ x) (pop_back-take n (y ∷ xs) (omega arith))
pop_back-take n xs h = absurd (omega arith)

module _ {K V : Type 0} where
  abbrev pub keys : List (K × V) → List K
  keys = map (λ entry. entry.0)

module _ {K V : Type 0} (dec : Discrete K) where
  pub keys-table_erase :
      (k : K) (m : List (K × V)) → keys (table_erase dec k m) ≡ erase dec k (keys m)
  unfolding table_erase erase
  keys-table_erase k [] = refl
  keys-table_erase k (e ∷ m) = ground (arith, keys-table_erase k m)

  pub lookup-none :
      (k : K) (m : List (K × V)) → lookup dec k m ≡ none → contains dec k (keys m) ≡ false
  unfolding contains lookup
  lookup-none k [] h = refl
  lookup-none k (e ∷ m) h = ground (arith, lookup-none k m)

  pub lookup-some :
      (k : K) (v : V) (m : List (K × V)) → lookup dec k m ≡ some v → contains dec k (keys m) ≡ true
  unfolding contains lookup
  lookup-some k v [] h = ground arith
  lookup-some k v (e ∷ m) h = ground (arith, lookup-some k v m)

  pub lookup-table_erase_ne :
      (k j : K) (m : List (K × V)) → k ≢ j → lookup dec j (table_erase dec k m) ≡ lookup dec j m
  unfolding lookup table_erase
  lookup-table_erase_ne k j [] h = refl
  lookup-table_erase_ne k j (e ∷ m) h = ground (arith, lookup-table_erase_ne k j m h)

  pub lookup-contains-false :
      (k : K) (m : List (K × V)) → contains dec k (keys m) ≡ false → lookup dec k m ≡ none
  unfolding contains lookup
  lookup-contains-false k [] h = refl
  lookup-contains-false k (e ∷ m) h = ground (arith, lookup-contains-false k m)

  pub length-table_erase :
      (k : K) (m : List (K × V))
      → contains dec k (keys m) ≡ true
      → length (table_erase dec k m) + 1 ≡ length m
  unfolding contains table_erase
  length-table_erase k [] h = ground arith
  length-table_erase k (e ∷ m) h = ground (arith, length-table_erase k m)

  pub lookup-table_erase_self :
      (k : K) (m : List (K × V)) → Distinct dec (keys m) → lookup dec k (table_erase dec k m) ≡ none
  lookup-table_erase_self k m d =
      lookup-contains-false k _ (rw keys-table_erase (contains-erase_self dec k (keys m) d))

  pub lookup_pos : (k : K) (v : V) (m : List (K × V)) → lookup dec k m ≡ some v → 0 < length m
  unfolding lookup
  lookup_pos k v [] h = ground arith
  lookup_pos k v (e ∷ m) h = omega arith
