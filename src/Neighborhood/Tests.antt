-- ===== src/Neighborhood/Tests.antt =====
-- Neighbourhoods of a small field set: one disc of three values, and two bits.
use asmoses.Base.{
  List, ◌++◌, length, ℕ, ◌≡◌, refl, ◌<◌, true, false, [], ◌∷◌, some, arith, ◌-◌, none, ltb,
  if◌then◌else◌, ◌%◌, ◌^◌,
}
use asmoses.Threads.{AllOf}
use asmoses.Neighborhood.Distance.{distance}
use asmoses.Neighborhood.Centred.{generate-distance}
use asmoses.FieldSet.{
  Instance, total, end_term_raw_idx, begin_contin_raw_idx, end_contin_raw_idx, begin_disc_raw_idx,
  end_disc_raw_idx, begin_bit_raw_idx, end_bit_raw_idx, multy, read, write, flip_at,
  raw_to_contin_idx, contin_at, contin_to_raw_idx, contin_offset, depth, contin_length, moves,
}
use asmoses.Neighborhood.{
  Deme, Writing, done, overrun, ◌>>=◌, put, has_room, knob_at, with_contin, with_disc, disc_value,
  with_flip, other_value, bit_loop, value_loop, disc_loop, vary_contin, switch_contin, vary_values,
  vary_disc, vary_bit, vary_n_knobs, generate_all_in_neighborhood, switch_lr, stop_all,
}
use asmoses.Neighborhood.Numbers.{choose, neighbors, AllMulti}
use asmoses.Neighborhood.Loops.{Writes}
use asmoses.Neighborhood.Fields.{discs_and_bits}
use asmoses.Neighborhood.Overrun.{vary_disc-overruns}
use asmoses.Neighborhood.Count.{size_range, Doubles, count_neighborhood_size}
use asmoses.Neighborhood.Count.Exact.{IsBinomial, count-generate}

abbrev centre : Instance
centre = record { contin_values = []; disc_values = 0 ∷ []; bit_values = false ∷ true ∷ [] }

abbrev empty_deme : ℕ → Deme
empty_deme n = record { written = []; room = n }

program : Unit {0}
unfolding total end_term_raw_idx begin_contin_raw_idx end_contin_raw_idx begin_disc_raw_idx
    end_disc_raw_idx begin_bit_raw_idx end_bit_raw_idx multy read write flip_at put has_room knob_at
    with_disc disc_value with_flip other_value bit_loop value_loop disc_loop vary_values vary_disc
    vary_bit vary_n_knobs generate_all_in_neighborhood vary_contin switch_contin with_contin
    raw_to_contin_idx contin_at contin_to_raw_idx contin_offset depth contin_length moves switch_lr
    stop_all ◌>>=◌
program = tt

-- The bits come first, then the other values of the disc.
at_distance_1 :
    generate_all_in_neighborhood (discs_and_bits (3 ∷ []) 2) centre 1 (empty_deme 5)
    ≡ done (record {
      written =
          record { contin_values = []; disc_values = 0 ∷ []; bit_values = true ∷ true ∷ [] }
          ∷ record { contin_values = []; disc_values = 0 ∷ []; bit_values = false ∷ false ∷ [] }
          ∷ record { contin_values = []; disc_values = 1 ∷ []; bit_values = false ∷ true ∷ [] }
          ∷ record { contin_values = []; disc_values = 2 ∷ []; bit_values = false ∷ true ∷ [] }
          ∷ [];
      room = 1;
    })
unfolding program
at_distance_1 = refl

-- A contin of depth 2 at the value `left` `stop`: two neighbours keep its first move, one turns it
-- and one takes it away.
at_contin :
    generate_all_in_neighborhood
      (record { terms = []; contins = 2 ∷ []; discs = []; n_bits = 0 })
      (record { contin_values = 1 ∷ 0 ∷ []; disc_values = []; bit_values = [] })
      1
      (empty_deme 4)
    ≡ done (record {
      written =
          record { contin_values = 1 ∷ 1 ∷ []; disc_values = []; bit_values = [] }
          ∷ record { contin_values = 1 ∷ 2 ∷ []; disc_values = []; bit_values = [] }
          ∷ record { contin_values = 2 ∷ 0 ∷ []; disc_values = []; bit_values = [] }
          ∷ record { contin_values = 0 ∷ 0 ∷ []; disc_values = []; bit_values = [] }
          ∷ [];
      room = 0;
    })
unfolding program
at_contin = refl

three-AllMulti : AllMulti (3 ∷ [])
unfolding AllMulti
three-AllMulti = (omega arith, tt)

four_neighbors : neighbors (3 ∷ []) 2 1 ≡ 4
unfolding neighbors choose
four_neighbors = refl

-- Doubles that hold every natural number.
abbrev naturals : Doubles
naturals = record {
  Double = ℕ;
  binomial_coefficient = choose;
  numeric_cast = λ d. if ltb d size_range then some d else none;
  to_unsigned = λ d. d % 2 ^ 32;
}

naturals-IsBinomial : IsBinomial naturals
naturals-IsBinomial n k h small =
    let under : ltb (choose n k) size_range ≡ true = ground (arith, small) in rw under refl

count-generate_example :
    (n : ℕ) × (count_neighborhood_size naturals (discs_and_bits (3 ∷ []) 2) centre 100 1 ≡ some n)
    × Writes
        (generate_all_in_neighborhood (discs_and_bits (3 ∷ []) 2) centre 1 (empty_deme 5))
        (empty_deme 5)
        n
count-generate_example =
    count-generate naturals (3 ∷ []) 2 100 centre 1 (empty_deme 5) naturals-IsBinomial (omega arith)
      three-AllMulti (omega (arith, four_neighbors)) (omega (arith, four_neighbors))

abbrev nothing_behind : Instance → ℕ → ℕ → Deme → Writing
nothing_behind inst dist idx d = done d

short : 1 < multy (discs_and_bits (3 ∷ []) 0) 0 - 1
unfolding program
short = omega arith

inside : 0 < end_disc_raw_idx (discs_and_bits (3 ∷ []) 0)
unfolding program
inside = omega arith

vary_disc-overruns_example :
    vary_disc (discs_and_bits (3 ∷ []) 0) nothing_behind centre 1 0 (empty_deme 1) ≡ overrun
vary_disc-overruns_example =
    vary_disc-overruns (discs_and_bits (3 ∷ []) 0) nothing_behind centre 0 (empty_deme 1)
      (empty_deme 1) inside refl (omega arith) short

generate-distance_example :
    (end : Deme) × (generate_all_in_neighborhood (discs_and_bits (3 ∷ []) 2) centre 1 (empty_deme 5)
      ≡ done end)
    × (news : List Instance) × (end.written ≡ [] ++ news)
    × (length news ≡ neighbors (3 ∷ []) 2 1)
    × AllOf (λ i. distance i centre ≡ 1) news
generate-distance_example =
    generate-distance (3 ∷ []) 2 centre 1 (empty_deme 5) refl refl three-AllMulti
      (omega (arith, four_neighbors))
