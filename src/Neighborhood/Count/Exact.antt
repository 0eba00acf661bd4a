-- ===== src/Neighborhood/Count/Exact.antt =====
-- `count_neighborhood_size` gives the number of neighbours up to its maximum, and
-- `generate_all_in_neighborhood` writes that many instances: for field sets of discs and bits.
use native.Mathlib.Nat.{mod-eq_of_lt}
use asmoses.Base.{
  ℕ, zero, suc, ◌+◌, ◌-◌, ◌*◌, ◌%◌, ◌^◌, ◌≤◌, ◌<◌, ◌≡◌, refl, inl, inr, false, Bool-cases, List,
  ◌∷◌, length, drop, arith, ltb, leb, Option, some, ap,
}
use asmoses.FieldSet.{FieldSet, Instance, end_bit_raw_idx}
use asmoses.Neighborhood.{Deme, generate_all_in_neighborhood}
use asmoses.Neighborhood.Numbers.{
  choose, neighbors, AllMulti, choose-small, drop-all, drop-AllMulti, drop-cons,
}
use asmoses.Neighborhood.Loops.{Writes}
use asmoses.Neighborhood.Fields.{
  discs_and_bits, knob_disc, knob_bit, knob_past, multy_disc, end_bit, past_none, disc_step,
  neighbors_from,
}
use asmoses.Neighborhood.Room.{generate-Writes}
use asmoses.Neighborhood.Count.{
  size_range, Doubles, safe_binomial_coefficient, count_disc, count_bits, count_from_index,
  count_neighborhood_size,
}

-- Below this, a relative error of up to 2 ^ 18 units in the last of the 53 places of a double is less than a
-- half, so that a coefficient that is rounded to an integer is exact.
abbrev pub exact_range : ℕ
exact_range = 2 ^ 32

-- The doubles give the binomial coefficients, as far as these are that small. Nothing is said of the
-- larger ones, which a double need not hold.
abbrev pub IsBinomial : Doubles → Type 0
IsBinomial b =
    (n k : ℕ)
    → k ≤ n
    → choose n k < exact_range
    → b.numeric_cast (b.binomial_coefficient n k) ≡ some (choose n k)

times_le : (k n : ℕ) → 1 ≤ k → n ≤ k * n
times_le zero n h = absurd (omega arith)
times_le (suc k) n h = let eq : suc k * n ≡ n + k * n = omega arith in omega (arith, eq)

module _ (db : Doubles) (ms : List ℕ) (bits max_count : ℕ) (inst : Instance) where
  abbrev fs : FieldSet
  fs = discs_and_bits ms bits

  abbrev Counts : (ℕ → ℕ → Option ℕ) → ℕ → ℕ → Type 0
  Counts rec dist idx =
      neighbors_from ms bits dist idx ≤ max_count
      → rec dist idx ≡ some (neighbors_from ms bits dist idx)

  count_disc-Counts :
      (rec : ℕ → ℕ → Option ℕ) (near idx m : ℕ) (rest : List ℕ)
      → max_count < exact_range
      → drop idx ms ≡ m ∷ rest
      → idx < length ms
      → 2 ≤ m
      → Counts rec (suc near) (idx + 1)
      → Counts rec near (idx + 1)
      → Counts (count_disc db fs inst max_count rec) (suc near) idx
  unfolding count_disc
  count_disc-Counts rec near idx m rest mx e l t r s small =
      let step = disc_step ms bits near idx m rest e l in
      let a = neighbors_from ms bits (suc near) (idx + 1) in
      let c = neighbors_from ms bits near (idx + 1) in
      let le = times_le (m - 1) c (omega (arith, t)) in
      let p : suc near - 1 ≡ near = omega arith in
      let my = multy_disc ms bits idx m rest e in
      let ra = r (omega (arith, step, small)) in
      let rb = s (omega (arith, step, small, le)) in
      let under : ltb max_count a ≡ false = ground (arith, step, small) in
      let exact : (a + (m - 1) * c) % size_range ≡ a + (m - 1) * c =
        mod-eq_of_lt (omega (arith, step, small, mx)) in
      rw (count_disc, ra, p, rb, under, my, exact, step) refl

  bits_from-Counts :
      (near idx : ℕ)
      → IsBinomial db
      → max_count < exact_range
      → length ms ≤ idx
      → idx < length ms + bits
      → neighbors_from ms bits (suc near) idx ≤ max_count
      → count_bits db fs inst max_count (suc near) idx ≡ neighbors_from ms bits (suc near) idx
  unfolding count_bits safe_binomial_coefficient neighbors
  bits_from-Counts near idx b mx h l small =
      let rb : length ms + bits - idx ≡ bits - (idx - length ms) = omega (arith, h, l) in
      let n = bits - (idx - length ms) in
      let val : neighbors_from ms bits (suc near) idx ≡ choose n (suc near) =
        let e0 = drop-all idx ms h in rw e0 refl in
      elim (Bool-cases (leb (suc near) n)) [
        | inl q ↦
            let v = b n (suc near) (ground (arith, q)) (omega (arith, val, small, mx)) in
            rw (count_bits, end_bit ms bits, rb, q, safe_binomial_coefficient, v, val) refl
        | inr q ↦
            let none_left = choose-small n (suc near) (ground (arith, q)) in
            rw (count_bits, end_bit ms bits, rb, q, val, none_left) refl
      ]

  count_from_index-Counts :
      (fuel dist idx : ℕ)
      → IsBinomial db
      → max_count < exact_range
      → AllMulti ms
      → 1 ≤ fuel
      → length ms + bits < fuel + idx
      → Counts (count_from_index db fs inst max_count fuel) dist idx
  unfolding count_from_index neighbors AllMulti
  count_from_index-Counts zero dist idx b mx a f g small = absurd (omega (arith, f))
  count_from_index-Counts (suc fuel) zero idx b mx a f g small = refl
  count_from_index-Counts (suc fuel) (suc near) idx b mx a f g small =
      elim (Bool-cases (ltb idx (length ms))) [
        | inl p ↦
            let l : idx < length ms = ground (arith, p) in
            let e = drop-cons idx ms l in
            let t = rw (e.2) at (drop-AllMulti idx ms a) in
            rw (count_from_index, knob_disc ms bits idx l)
              (count_disc-Counts (count_from_index db fs inst max_count fuel) near idx e.0 e.1 mx
                e.2 l t.0
                (count_from_index-Counts fuel (suc near) (idx + 1) b mx a (omega (arith, g, l))
                  (omega (arith, g)))
                (count_from_index-Counts fuel near (idx + 1) b mx a (omega (arith, g, l))
                  (omega (arith, g)))
                small)
        | inr p ↦ elim (Bool-cases (ltb idx (length ms + bits))) [
          | inl q ↦
              let h : length ms ≤ idx = ground (arith, p) in
              let l : idx < length ms + bits = ground (arith, q) in
              rw (count_from_index, knob_bit ms bits idx h l)
                (ap some (bits_from-Counts near idx b mx h l small))
          | inr q ↦
              let h : length ms + bits ≤ idx = ground (arith, q) in
              rw (count_from_index, knob_past ms bits idx h, past_none ms bits idx near h) refl
        ]
      ]

  -- For discs of at least two values and bits, `count_neighborhood_size` is the number of instances
  -- that `generate_all_in_neighborhood` writes, as long as the number is at most `max_count`, this is below
  -- 2 ^ 32, the binomial coefficients below 2 ^ 32 are exact, and the deme has room for as many.
  pub count-generate :
      (dist : ℕ) (d : Deme)
      → IsBinomial db
      → max_count < exact_range
      → AllMulti ms
      → neighbors ms bits dist ≤ max_count
      → neighbors ms bits dist ≤ d.room
      → (n : ℕ) × (count_neighborhood_size db fs inst max_count dist ≡ some n)
        × Writes (generate_all_in_neighborhood fs inst dist d) d n
  unfolding count_neighborhood_size
  count-generate dist d b mx a small room =
      let z : bits - (0 - length ms) ≡ bits = omega arith in
      let c =
        count_from_index-Counts (end_bit_raw_idx fs + 1) dist 0 b mx a (omega arith)
          (omega (arith, end_bit ms bits)) in
      (neighbors ms bits dist, (rw z at c) small, generate-Writes ms bits inst dist d a room)
