-- ===== src/Neighborhood/Count.antt =====
-- `count_neighborhood_size_from_index` of opencog/asmoses/moses/moses/neighborhood_sampling.cc. The
-- binomial coefficients of boost, as doubles, and what becomes of a double are parameters. `none` is a
-- failed assertion, or no fuel left.
use asmoses.Base.{
  ℕ, zero, suc, ◌+◌, ◌-◌, ◌*◌, ◌%◌, ◌^◌, true, false, Option, none, some, ltb, leb, ◌==◌,
  if◌then◌else◌,
}
use asmoses.FieldSet.{
  FieldSet, Instance, end_term_raw_idx, end_bit_raw_idx, contin_to_raw_idx, raw_to_contin_idx,
  depth, multy, contin_length,
}
use asmoses.Neighborhood.{Knob, term_knob, contin_knob, disc_knob, bit_knob, past_end, knob_at}
pub mod Exact

-- The largest `size_t` and one more.
abbrev pub size_range : ℕ
size_range = 2 ^ 64

unfoldable pub min_of : ℕ → ℕ → ℕ
min_of a b = if leb a b then a else b

-- The doubles: `binomial_coefficient<double>` of boost, its `numeric_cast<size_t>`, which throws
-- `positive_overflow` where it gives `none`, and the conversion `(unsigned)`.
pub record Doubles : Type 1 where
  pub Double : Type 0
  pub binomial_coefficient : ℕ → ℕ → Double
  pub numeric_cast : Double → Option ℕ
  pub to_unsigned : Double → ℕ

module _ (b : Doubles) where
  -- `safe_binomial_coefficient`: the largest `size_t` where the coefficient is none.
  unfoldable pub safe_binomial_coefficient : ℕ → ℕ → ℕ
  safe_binomial_coefficient k n = elim (b.numeric_cast (b.binomial_coefficient k n)) [
    | none ↦ size_range - 1
    | some res ↦ res
  ]

  -- The moves switched or added behind the `stop`, `j` of them added, for the next few `j`.
  unfoldable pub added : ℕ → ℕ → ℕ → ℕ → ℕ
  added zero j len i = 0
  added (suc terms) j len i =
      b.to_unsigned (b.binomial_coefficient len (i - j)) * 2 ^ j + added terms (j + 1) len i

  -- The moves switched or removed before the `stop`, `j` of them removed.
  unfoldable pub removed : ℕ → ℕ → ℕ → ℕ → ℕ
  removed zero j len i = 0
  removed (suc terms) j len i =
      b.to_unsigned (b.binomial_coefficient (len - j) (i - j)) + removed terms (j + 1) len i

  -- `cni`, an unsigned of 32 bits: the settings of one contin at distance `i`.
  unfoldable pub contin_neighbors : ℕ → ℕ → ℕ → ℕ
  contin_neighbors d len i =
      let lo = i - len in
      let grown = added (min_of i (d - len) + 1 - lo) lo len i in
      (if leb i len then grown + removed (min_of i len) 1 len i else grown) % 2 ^ 32

  module _ (fs : FieldSet) (inst : Instance) (max_count : ℕ) where
    module _ (rec : ℕ → ℕ → Option ℕ) where
      -- The loop over the distances `i` of one contin.
      unfoldable pub count_contin : ℕ → ℕ → ℕ → ℕ → ℕ → ℕ → ℕ → Option ℕ
      count_contin zero i d len dist idx number = some number
      count_contin (suc rounds) i d len dist idx number = elim (rec (dist - i) (idx + d)) [
        | none ↦ none
        | some n ↦
            let more = (number + contin_neighbors d len i * n) % size_range in
            let rest = count_contin rounds (i + 1) d len dist idx more in
            if ltb max_count more then some more else rest
      ]

      -- It stops at the first count above the maximum.
      unfoldable pub count_disc : ℕ → ℕ → Option ℕ
      count_disc dist idx = elim (rec dist (idx + 1)) [
        | none ↦ none
        | some a ↦
            let both : Option ℕ = elim (rec (dist - 1) (idx + 1)) [
              | none ↦ none
              | some b ↦ some ((a + (multy fs idx - 1) * b) % size_range)
            ] in
            if ltb max_count a then some a else both
      ]

    unfoldable pub count_bits : ℕ → ℕ → ℕ
    count_bits dist idx =
        let rb = end_bit_raw_idx fs - idx in
        if leb dist rb then safe_binomial_coefficient rb dist else 0

    unfoldable pub count_from_index : ℕ → ℕ → ℕ → Option ℕ
    count_from_index zero dist idx = none
    count_from_index (suc fuel) zero idx = some 1
    count_from_index (suc fuel) (suc near) idx =
        let dist = suc near in
        let rec = count_from_index fuel in
        let i = raw_to_contin_idx fs idx in
        let contin =
          count_contin rec (min_of dist (depth fs i) + 1) 0 (depth fs i) (contin_length fs inst i)
            dist idx 0 in
        elim (knob_at fs idx) [
          | term_knob ↦ rec dist (idx + end_term_raw_idx fs)
          | contin_knob ↦ if idx == contin_to_raw_idx fs i then contin else none
          | disc_knob ↦ count_disc rec dist idx
          | bit_knob ↦ some (count_bits dist idx)
          | past_end ↦ some 0
        ]

    unfoldable pub count_neighborhood_size : ℕ → Option ℕ
    count_neighborhood_size dist = count_from_index (end_bit_raw_idx fs + 1) dist 0
