-- ===== src/Neighborhood/Fields.antt =====
-- Field sets of discs and bits: the knob at each index, and how many neighbours are left there.
use asmoses.Base.{ℕ, suc, ◌+◌, ◌-◌, ◌*◌, ◌≤◌, ◌<◌, ◌≡◌, refl, List, [], ◌∷◌, length, drop, arith}
use asmoses.FieldSet.{
  FieldSet, total, end_term_raw_idx, begin_contin_raw_idx, end_contin_raw_idx, begin_disc_raw_idx,
  end_disc_raw_idx, begin_bit_raw_idx, end_bit_raw_idx, multy,
}
use asmoses.Neighborhood.{disc_knob, bit_knob, past_end, knob_at}
use asmoses.Neighborhood.Numbers.{
  choose, neighbors, other_values, choose-one, neighbors-one, get-drop, drop-suc, drop-all,
}

-- The field set of discs and bits alone.
abbrev pub discs_and_bits : List ℕ → ℕ → FieldSet
discs_and_bits ms bits = record { terms = []; contins = []; discs = ms; n_bits = bits }

module _ (ms : List ℕ) (bits : ℕ) where
  abbrev fs : FieldSet
  fs = discs_and_bits ms bits

  -- The bits at an index or behind it.
  abbrev pub bits_from : ℕ → ℕ
  bits_from idx = bits - (idx - length ms)

  pub knob_disc : (idx : ℕ) → idx < length ms → knob_at fs idx ≡ disc_knob
  unfolding knob_at end_term_raw_idx begin_contin_raw_idx end_contin_raw_idx begin_disc_raw_idx
      end_disc_raw_idx total
  knob_disc idx h = ground (arith, h)

  pub knob_bit : (idx : ℕ) → length ms ≤ idx → idx < length ms + bits → knob_at fs idx ≡ bit_knob
  unfolding knob_at end_term_raw_idx begin_contin_raw_idx end_contin_raw_idx begin_disc_raw_idx
      end_disc_raw_idx total begin_bit_raw_idx end_bit_raw_idx
  knob_bit idx h l = ground (arith, h, l)

  pub knob_past : (idx : ℕ) → length ms + bits ≤ idx → knob_at fs idx ≡ past_end
  unfolding knob_at end_term_raw_idx begin_contin_raw_idx end_contin_raw_idx begin_disc_raw_idx
      end_disc_raw_idx total begin_bit_raw_idx end_bit_raw_idx
  knob_past idx h = ground (arith, h)

  pub multy_disc : (idx m : ℕ) (rest : List ℕ) → drop idx ms ≡ m ∷ rest → multy fs idx ≡ m
  unfolding multy begin_disc_raw_idx end_contin_raw_idx begin_contin_raw_idx end_term_raw_idx total
  multy_disc idx m rest e =
      let g = get-drop idx ms m rest e in let z : idx - 0 ≡ idx = omega arith in rw (z, g) refl

  abbrev pub neighbors_from : ℕ → ℕ → ℕ
  neighbors_from dist idx = neighbors (drop idx ms) (bits_from idx) dist

  pub end_disc : end_disc_raw_idx fs ≡ length ms
  unfolding end_disc_raw_idx begin_disc_raw_idx end_contin_raw_idx begin_contin_raw_idx
      end_term_raw_idx total
  end_disc = omega arith

  pub end_bit : end_bit_raw_idx fs ≡ length ms + bits
  unfolding end_bit_raw_idx begin_bit_raw_idx end_disc_raw_idx begin_disc_raw_idx end_contin_raw_idx
      begin_contin_raw_idx end_term_raw_idx total
  end_bit = omega arith

  pub bits_step :
      (idx dist : ℕ)
      → length ms ≤ idx
      → idx < length ms + bits
      → neighbors_from (suc (suc dist)) (idx + 1) + neighbors_from (suc dist) (idx + 1)
        ≡ neighbors_from (suc (suc dist)) idx
  unfolding neighbors choose
  bits_step idx dist h l =
      let e0 = drop-all idx ms h in
      let e1 = drop-all (idx + 1) ms (omega (arith, h)) in
      let b : bits - (idx - length ms) ≡ suc (bits - (idx + 1 - length ms)) = omega (arith, h, l) in
      rw (e0, e1, b) (omega arith)

  pub bits_one : (idx : ℕ) → length ms ≤ idx → neighbors_from 1 idx ≡ length ms + bits - idx
  unfolding neighbors
  bits_one idx h =
      let e0 = drop-all idx ms h in
      rw (e0, choose-one (bits - (idx - length ms))) (omega (arith, h))

  pub past_none : (idx dist : ℕ) → length ms + bits ≤ idx → neighbors_from (suc dist) idx ≡ 0
  unfolding neighbors choose
  past_none idx dist h =
      let e0 = drop-all idx ms (omega (arith, h)) in
      let b : bits - (idx - length ms) ≡ 0 = omega (arith, h) in rw (e0, b) refl

  pub bits_here : neighbors_from 1 (length ms) ≡ bits
  bits_here = omega (arith, bits_one (length ms) (omega arith))

  pub disc_here :
      (idx m : ℕ) (rest : List ℕ)
      → drop idx ms ≡ m ∷ rest
      → idx < length ms
      → neighbors_from 1 idx ≡ bits + other_values (m ∷ rest)
  disc_here idx m rest e l =
      let bi : bits - (idx - length ms) ≡ bits = omega (arith, l) in
      rw (e, bi) (neighbors-one (m ∷ rest) bits)

  pub disc_step :
      (near idx m : ℕ) (rest : List ℕ)
      → drop idx ms ≡ m ∷ rest
      → idx < length ms
      → neighbors_from (suc near) (idx + 1) + (m - 1) * neighbors_from near (idx + 1)
        ≡ neighbors_from (suc near) idx
  unfolding neighbors
  disc_step near idx m rest e l =
      let s : idx + 1 ≡ suc idx = omega arith in
      let dr = drop-suc idx ms m rest e in
      let bi : bits - (idx - length ms) ≡ bits = omega (arith, l) in
      let bj : bits - (suc idx - length ms) ≡ bits = omega (arith, l) in rw (s, dr, e, bi, bj) refl
