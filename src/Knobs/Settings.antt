-- ===== src/Knobs/Settings.antt =====
-- The setting that an index of a knob stands for.
use asmoses.Base.{
  ℕ, zero, suc, ◌+◌, ◌≤◌, ◌<◌, ◌≡◌, ◌≢◌, refl, Bool, true, false, List, [], ◌∷◌, some, length, take,
  get_elem?, ◌==◌, if◌then◌else◌, arith,
}
use asmoses.Knobs.{
  DiscreteKnob, count_bits_set, set_bit, disallow, multiplicity, count_shifted, map_idx,
}

-- No setting is disallowed.
abbrev pub AllAllowed : DiscreteKnob → Type 0
AllAllowed k = count_bits_set k.disallowed ≡ 0

count-take : (i : ℕ) (bits : List Bool) → count_bits_set (take i bits) ≤ count_bits_set bits
unfolding count_bits_set
count-take zero bits = omega arith
count-take (suc i) [] = omega arith
count-take (suc i) (b ∷ bits) = ground (arith, count-take i bits)

none_shifted : (i : ℕ) (bits : List Bool) → count_bits_set bits ≡ 0 → count_shifted i bits ≡ 0
unfolding count_shifted
none_shifted i bits h = ground (arith, count-take i bits, h)

-- The default setting and 0 in each other's place.
abbrev pub exchanged : ℕ → ℕ → ℕ
exchanged d i = if i == d then 0 else (if i == 0 then d else i)

pub map_idx-AllAllowed :
    (k : DiscreteKnob) (i : ℕ) → AllAllowed k → map_idx k i ≡ exchanged k.default i
unfolding map_idx
map_idx-AllAllowed k i h = omega (arith, none_shifted (exchanged k.default i) k.disallowed h)

length-set_bit : (i : ℕ) (b : Bool) (bits : List Bool) → length (set_bit i b bits) ≡ length bits
unfolding set_bit
length-set_bit i b [] = refl
length-set_bit zero b (c ∷ bits) = refl
length-set_bit (suc i) b (c ∷ bits) = omega (arith, length-set_bit i b bits)

take-set_bit : (i : ℕ) (b : Bool) (bits : List Bool) → take i (set_bit i b bits) ≡ take i bits
unfolding set_bit
take-set_bit zero b bits = refl
take-set_bit (suc i) b [] = refl
take-set_bit (suc i) b (c ∷ bits) = rw (take-set_bit i b bits) refl

get-set_bit :
    (i : ℕ) (b : Bool) (bits : List Bool)
    → i < length bits
    → get_elem? (set_bit i b bits) i ≡ some b
unfolding set_bit
get-set_bit i b [] h = absurd (omega arith)
get-set_bit zero b (c ∷ bits) h = refl
get-set_bit (suc i) b (c ∷ bits) h = get-set_bit i b bits (omega (arith, h))

count-set_bit :
    (i : ℕ) (bits : List Bool)
    → i < length bits
    → count_bits_set bits ≡ 0
    → count_bits_set (set_bit i true bits) ≡ 1
unfolding set_bit count_bits_set
count-set_bit i [] h e = absurd (omega arith)
count-set_bit zero (c ∷ bits) h e = ground (arith, e)
count-set_bit (suc i) (c ∷ bits) h e = ground (arith, count-set_bit i bits, h, e)

-- Of a knob with nothing disallowed, disallow a setting that is neither 0 nor the default one. Then there
-- is one index less, but the index of that number still stands for the disallowed setting.
pub map_idx-disallow :
    (k : DiscreteKnob) (i : ℕ)
    → AllAllowed k
    → i < length k.disallowed
    → i ≢ 0
    → i ≢ k.default
    → (multiplicity (disallow i k) + 1 ≡ multiplicity k)
      × (map_idx (disallow i k) i ≡ i)
      × (get_elem? (disallow i k).disallowed i ≡ some true)
unfolding multiplicity disallow map_idx count_shifted
map_idx-disallow k i h l n d =
    let one = count-set_bit i k.disallowed l h in
    let same = length-set_bit i true k.disallowed in
    let not_default : (i == k.default) ≡ false = ground (arith, d) in
    let not_zero : (i == 0) ≡ false = ground (arith, n) in
    let none_below = none_shifted i k.disallowed h in
    (
      omega (arith, one, same, h, l),
      rw (map_idx, not_default, not_zero, take-set_bit i true k.disallowed)
          (ground (arith, same, l, count-take i k.disallowed, h)),
      get-set_bit i true k.disallowed l,
    )
