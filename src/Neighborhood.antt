-- ===== src/Neighborhood.antt =====
-- `vary_n_knobs` and `count_neighborhood_size_from_index` of
-- opencog/asmoses/moses/moses/neighborhood_sampling.h and neighborhood_sampling.cc: the instances at
-- a distance from a centre, and how many they are. The deme is what was written to it and the room
-- that is left between `out` and `end`.
use asmoses.Base.{
  ℕ, zero, suc, ◌+◌, ◌-◌, ◌*◌, ◌%◌, ◌^◌, Bool, true, false, List, [], ◌∷◌, ◌++◌, Option, none, some,
  ltb, leb, ◌==◌, ◌&&◌, if◌then◌else◌,
}
use asmoses.FieldSet.{
  FieldSet, Instance, end_term_raw_idx, begin_contin_raw_idx, end_contin_raw_idx,
  begin_disc_raw_idx, end_disc_raw_idx, begin_bit_raw_idx, end_bit_raw_idx, contin_to_raw_idx,
  raw_to_contin_idx, depth, multy, stop, left, right, read, write, flip_at, contin_length,
}
mod Numbers
mod Loops
mod Fields
mod Room
pub mod Count
mod Overrun
mod Distance
mod Appends
mod Centred
mod Tests

pub record Deme : Type 0 where
  pub written : List Instance
  pub room : ℕ

-- What a loop over the deme comes to: a deme, a failed assertion, a write behind the end, which is
-- undefined, or no fuel left.
pub data Writing : Type 0 where
  done : Deme → Writing
  assert_failed : Writing
  overrun : Writing
  no_fuel : Writing

infixl 20 ◌>>=◌
unfoldable pub ◌>>=◌ : Writing → (Deme → Writing) → Writing
done d >>= k = k d
assert_failed >>= k = assert_failed
overrun >>= k = overrun
no_fuel >>= k = no_fuel

-- `*out++ = inst`
unfoldable pub put : Instance → Deme → Writing
put inst d =
    if d.room == 0
    then overrun
    else done (record { written = d.written ++ (inst ∷ []); room = d.room - 1 })

-- `OC_ASSERT(out != end)`
unfoldable pub has_room : Deme → Writing
has_room d = if d.room == 0 then assert_failed else done d

pub data Knob : Type 0 where
  term_knob : Knob
  contin_knob : Knob
  disc_knob : Knob
  bit_knob : Knob
  past_end : Knob

-- `switchLR`; on any other value its assertion fails.
unfoldable pub switch_lr : ℕ → Option ℕ
switch_lr v = if v == left then some right else (if v == right then some left else none)

unfoldable pub stop_all : ℕ → ℕ → List ℕ → List ℕ
stop_all zero i vs = vs
stop_all (suc k) i vs = stop_all k (i + 1) (write i stop vs)

module _ (fs : FieldSet) where
  -- The chain of tests on the index, which both functions share.
  unfoldable pub knob_at : ℕ → Knob
  knob_at idx =
      if ltb idx (end_term_raw_idx fs)
      then term_knob
      else (if leb (begin_contin_raw_idx fs) idx && ltb idx (end_contin_raw_idx fs)
          then contin_knob
          else (if leb (begin_disc_raw_idx fs) idx && ltb idx (end_disc_raw_idx fs)
              then disc_knob
              else (if leb (begin_bit_raw_idx fs) idx && ltb idx (end_bit_raw_idx fs)
                  then bit_knob
                  else past_end)))

  unfoldable pub with_contin : ℕ → ℕ → Instance → Instance
  with_contin idx v inst = record inst {
    contin_values = write (idx - begin_contin_raw_idx fs) v inst.contin_values;
  }

  unfoldable pub with_disc : ℕ → ℕ → Instance → Instance
  with_disc idx v inst = record inst {
    disc_values = write (idx - begin_disc_raw_idx fs) v inst.disc_values;
  }

  unfoldable pub disc_value : ℕ → Instance → ℕ
  disc_value idx inst = read inst.disc_values (idx - begin_disc_raw_idx fs)

  unfoldable pub with_flip : ℕ → Instance → Instance
  with_flip idx inst = record inst {
    bit_values = flip_at (idx - begin_bit_raw_idx fs) inst.bit_values;
  }

  -- The `i`th other value of a disc whose value was `v`.
  unfoldable pub other_value : ℕ → ℕ → ℕ
  other_value v i = if v == i then 0 else i

  -- The unrolled loop over the bits at distance 1.
  unfoldable pub bit_loop : ℕ → ℕ → Instance → Deme → Writing
  bit_loop zero idx inst d = done d
  bit_loop (suc k) idx inst d = do
    e ← has_room d
    e' ← put (with_flip idx inst) e
    bit_loop k (idx + 1) (with_flip idx (with_flip idx inst)) e'

  -- The values of one disc at distance 1, from the `i`th on, for a value of `v`.
  unfoldable pub value_loop : ℕ → ℕ → ℕ → ℕ → Instance → Deme → Writing
  value_loop zero i v idx inst d = done d
  value_loop (suc k) i v idx inst d = do
    e ← put (with_disc idx (other_value v i) inst) d
    value_loop k (i + 1) v idx inst e

  -- The unrolled loop over the discs at distance 1; it asks for room once for each disc.
  unfoldable pub disc_loop : ℕ → ℕ → Instance → Deme → Writing
  disc_loop zero idx inst d = done d
  disc_loop (suc k) idx inst d = do
    e ← has_room d
    e' ← value_loop (multy fs idx - 1) 1 (disc_value idx inst) idx inst e
    disc_loop k (idx + 1) (with_disc idx (disc_value idx inst) inst) e'

  -- Calls of `vary_n_knobs` at a distance and an index.
  module _ (rec : Instance → ℕ → ℕ → Deme → Writing) where
    -- The part of a contin behind the calls that leave its move as it is: turn the move, and, where
    -- the distance reaches, stop at it.
    unfoldable pub switch_contin : Instance → ℕ → ℕ → ℕ → ℕ → ℕ → Bool → Writing → Writing
    switch_contin inst w dist idx next_contin rem_moves reaches moved =
        let switched = with_contin idx w inst in
        let stopped = record switched {
          contin_values = stop_all rem_moves (idx - begin_contin_raw_idx fs) switched.contin_values;
        } in
        let turned = moved >>= rec switched (dist - 1) (idx + 1) in
        if reaches then (turned >>= rec stopped (dist - rem_moves) next_contin) else turned

    unfoldable pub vary_contin : Instance → ℕ → ℕ → Deme → Writing
    vary_contin inst dist idx d =
        let contin_idx = raw_to_contin_idx fs idx in
        let relative = idx - contin_to_raw_idx fs contin_idx in
        let len = contin_length fs inst contin_idx in
        let next_contin = idx + depth fs contin_idx - relative in
        let v = read inst.contin_values (idx - begin_contin_raw_idx fs) in
        let moved = rec inst dist (idx + 1) d in
        if v == stop
        then (rec inst dist next_contin d
            >>= rec (with_contin idx left inst) (dist - 1) (idx + 1)
            >>= rec (with_contin idx right inst) (dist - 1) (idx + 1))
        else (elim (switch_lr v) [
          | none ↦ moved >>= (λ e. assert_failed)
          | some w ↦
              switch_contin inst w dist idx next_contin (len - relative)
                (leb relative len && leb (len - relative) dist) moved
        ])

    unfoldable pub vary_values : ℕ → ℕ → ℕ → ℕ → ℕ → Instance → Deme → Writing
    vary_values zero i v dist idx inst d = done d
    vary_values (suc k) i v dist idx inst d =
        rec (with_disc idx (other_value v i) inst) (dist - 1) (idx + 1) d
        >>= vary_values k (i + 1) v dist idx inst

    unfoldable pub vary_disc : Instance → ℕ → ℕ → Deme → Writing
    vary_disc inst dist idx d =
        let end = end_disc_raw_idx fs in
        if dist == 1
        then (rec inst dist end d >>= disc_loop (end - idx) idx inst)
        else (rec inst dist (idx + 1) d
            >>= vary_values (multy fs idx - 1) 1 (disc_value idx inst) dist idx inst)

    unfoldable pub vary_bit : Instance → ℕ → ℕ → Deme → Writing
    vary_bit inst dist idx d =
        if dist == 1
        then bit_loop (end_bit_raw_idx fs - idx) idx inst d
        else (rec inst dist (idx + 1) d >>= rec (with_flip idx inst) (dist - 1) (idx + 1))

  -- Every call but those at the end moves the index on, so fuel for the fields and one more is
  -- enough.
  unfoldable pub vary_n_knobs : ℕ → Instance → ℕ → ℕ → Deme → Writing
  vary_n_knobs zero inst dist idx d = no_fuel
  vary_n_knobs (suc fuel) inst zero idx d = has_room d >>= put inst
  vary_n_knobs (suc fuel) inst (suc near) idx d =
      let dist = suc near in
      let rec = vary_n_knobs fuel in
      elim (knob_at idx) [
        | term_knob ↦ rec inst dist (idx + end_term_raw_idx fs) d
        | contin_knob ↦ vary_contin rec inst dist idx d
        | disc_knob ↦ vary_disc rec inst dist idx d
        | bit_knob ↦ vary_bit rec inst dist idx d
        | past_end ↦ done d
      ]

  unfoldable pub generate_all_in_neighborhood : Instance → ℕ → Deme → Writing
  generate_all_in_neighborhood inst dist d = vary_n_knobs (end_bit_raw_idx fs + 1) inst dist 0 d
