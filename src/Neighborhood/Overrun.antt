-- ===== src/Neighborhood/Overrun.antt =====
-- The unrolled loop over the discs of `vary_n_knobs` asks for room once for each disc, and then
-- writes all the other values of the disc.
use asmoses.Base.{ℕ, zero, suc, ◌+◌, ◌-◌, ◌≤◌, ◌<◌, ◌≡◌, refl, inl, inr, Bool-cases, ◌==◌, arith}
use asmoses.FieldSet.{FieldSet, Instance, multy, end_disc_raw_idx}
use asmoses.Neighborhood.{
  Deme, Writing, done, overrun, ◌>>=◌, put, disc_value, value_loop, disc_loop, vary_disc,
}
use asmoses.Neighborhood.Loops.{has_room-done}

module _ (fs : FieldSet) where
  value_loop-overruns :
      (k i v idx : ℕ) (inst : Instance) (d : Deme)
      → d.room < k
      → value_loop fs k i v idx inst d ≡ overrun
  unfolding value_loop put ◌>>=◌
  value_loop-overruns zero i v idx inst d h = absurd (omega (arith, h))
  value_loop-overruns (suc k) i v idx inst d h = elim (Bool-cases (d.room == 0)) [
    | inl q ↦ rw q refl
    | inr q ↦ rw q (value_loop-overruns k (i + 1) v idx inst _ (ground (arith, q, h)))
  ]

  -- At distance 1, once the fields behind the discs are done, a disc for which there is some room,
  -- but not for all of its other values, makes the loop write behind the end of the deme.
  pub vary_disc-overruns :
      (rec : Instance → ℕ → ℕ → Deme → Writing) (inst : Instance) (idx : ℕ) (d e : Deme)
      → idx < end_disc_raw_idx fs
      → rec inst 1 (end_disc_raw_idx fs) d ≡ done e
      → 1 ≤ e.room
      → e.room < multy fs idx - 1
      → vary_disc fs rec inst 1 idx d ≡ overrun
  unfolding vary_disc disc_loop ◌>>=◌
  vary_disc-overruns rec inst idx d e l r some_room short =
      let k : end_disc_raw_idx fs - idx ≡ suc (end_disc_raw_idx fs - idx - 1) = omega (arith, l) in
      let g = has_room-done e some_room in
      let o = value_loop-overruns (multy fs idx - 1) 1 (disc_value fs idx inst) idx inst e short in
      rw (r, k, g, o) refl
