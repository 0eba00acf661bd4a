-- ===== src/FieldSet.antt =====
-- `field_set` of opencog/asmoses/moses/representation/field_set.h: which raw fields an instance has,
-- and the indices at which each kind of field starts and ends. An instance holds the value of each
-- raw field; how the values are packed into words is left out.
use asmoses.Base.{
  ℕ, zero, suc, ◌+◌, ◌-◌, Bool, not, List, [], ◌∷◌, none, some, length, ltb, ◌==◌, if◌then◌else◌,
  get_elem?,
}

-- The depths of the term and contin specs, the multiplicities of the disc specs that need more than
-- one bit, and `_nbool`.
pub record FieldSet : Type 0 where
  pub terms : List ℕ
  pub contins : List ℕ
  pub discs : List ℕ
  pub n_bits : ℕ

pub record Instance : Type 0 where
  pub contin_values : List ℕ
  pub disc_values : List ℕ
  pub bit_values : List Bool

unfoldable pub total : List ℕ → ℕ
total [] = 0
total (d ∷ ds) = d + total ds

module _ (fs : FieldSet) where
  unfoldable pub end_term_raw_idx : ℕ
  end_term_raw_idx = total fs.terms

  unfoldable pub begin_contin_raw_idx : ℕ
  begin_contin_raw_idx = end_term_raw_idx

  unfoldable pub end_contin_raw_idx : ℕ
  end_contin_raw_idx = begin_contin_raw_idx + total fs.contins

  unfoldable pub begin_disc_raw_idx : ℕ
  begin_disc_raw_idx = end_contin_raw_idx

  unfoldable pub end_disc_raw_idx : ℕ
  end_disc_raw_idx = begin_disc_raw_idx + length fs.discs

  unfoldable pub begin_bit_raw_idx : ℕ
  begin_bit_raw_idx = end_disc_raw_idx

  unfoldable pub end_bit_raw_idx : ℕ
  end_bit_raw_idx = begin_bit_raw_idx + fs.n_bits

  -- `contin_to_raw_idx`, from `_contin_raw_offsets`.
  unfoldable pub contin_offset : List ℕ → ℕ → ℕ → ℕ
  contin_offset [] i raw = raw
  contin_offset (d ∷ ds) zero raw = raw
  contin_offset (d ∷ ds) (suc i) raw = contin_offset ds i (raw + d)

  unfoldable pub contin_to_raw_idx : ℕ → ℕ
  contin_to_raw_idx i = contin_offset fs.contins i begin_contin_raw_idx

  -- The loop of `raw_to_contin_idx`: the spec that an offset falls in.
  unfoldable pub contin_at : List ℕ → ℕ → ℕ
  contin_at [] offset = 0
  contin_at (d ∷ ds) offset =
      let later = contin_at ds (offset - d) in if ltb offset d then 0 else later + 1

  unfoldable pub raw_to_contin_idx : ℕ → ℕ
  raw_to_contin_idx idx = contin_at fs.contins (idx - begin_contin_raw_idx)

  unfoldable pub depth : ℕ → ℕ
  depth i = elim (get_elem? fs.contins i) [ none ↦ 0 | some d ↦ d ]

  -- `multy()` of the disc iterator at a raw index.
  unfoldable pub multy : ℕ → ℕ
  multy idx = elim (get_elem? fs.discs (idx - begin_disc_raw_idx)) [ none ↦ 2 | some m ↦ m ]

  -- `dim_size`
  unfoldable pub dim_size : ℕ
  dim_size = fs.n_bits + length fs.discs + length fs.contins + length fs.terms

-- The values of a raw contin field.
abbrev pub stop : ℕ
stop = 0

abbrev pub left : ℕ
left = 1

abbrev pub right : ℕ
right = 2

unfoldable pub read : List ℕ → ℕ → ℕ
read [] i = 0
read (v ∷ vs) zero = v
read (v ∷ vs) (suc i) = read vs i

unfoldable pub write : ℕ → ℕ → List ℕ → List ℕ
write i v [] = []
write zero v (w ∷ ws) = v ∷ ws
write (suc i) v (w ∷ ws) = w ∷ write i v ws

unfoldable pub flip_at : ℕ → List Bool → List Bool
flip_at i [] = []
flip_at zero (b ∷ bs) = not b ∷ bs
flip_at (suc i) (b ∷ bs) = b ∷ flip_at i bs

-- The loop of `contin_length`: the fields before the first `Stop`, at most as many as the depth.
unfoldable pub moves : ℕ → ℕ → List ℕ → ℕ
moves zero i vs = 0
moves (suc d) i vs = let rest = moves d (i + 1) vs in if read vs i == 0 then 0 else rest + 1

unfoldable pub contin_length : FieldSet → Instance → ℕ → ℕ
contin_length fs inst i =
    moves (depth fs i) (contin_to_raw_idx fs i - begin_contin_raw_idx fs) inst.contin_values
