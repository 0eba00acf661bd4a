-- ===== src/Knobs.antt =====
-- Knobs of opencog/asmoses/moses/representation/knobs.h and knobs.cc. A knob is turned by an index; its
-- setting decides what stands at its place in the exemplar, the tree `loc`. The bits of `_disallowed` are
-- a list, whose length is the template's `Multiplicity`. `none` is a failed assertion, or the erasing of a
-- vertex that has not one child.
use asmoses.Base.{
  ℕ, zero, suc, ◌+◌, ◌-◌, Bool, true, false, not, List, [], ◌∷◌, Option, none, some, length, take,
  replicate, get_elem?, ltb, ◌==◌, if◌then◌else◌,
}
use asmoses.Combo.Tree.{
  node, nil, cons, null_vertex, logical_not, Vertex, builtin, ComboTree, ComboForest,
}
pub mod Settings
pub mod Turns
mod Tests

pub record DiscreteKnob : Type 0 where
  pub disallowed : List Bool
  pub default : ℕ
  pub current : ℕ

unfoldable pub count_bits_set : List Bool → ℕ
count_bits_set [] = 0
count_bits_set (b ∷ bs) = let rest = count_bits_set bs in if b then suc rest else rest

unfoldable pub set_bit : ℕ → Bool → List Bool → List Bool
set_bit i b [] = []
set_bit zero b (c ∷ bs) = b ∷ bs
set_bit (suc i) b (c ∷ bs) = c ∷ set_bit i b bs

unfoldable pub disallow : ℕ → DiscreteKnob → DiscreteKnob
disallow setting k = record k { disallowed = set_bit setting true k.disallowed }

unfoldable pub allow : ℕ → DiscreteKnob → DiscreteKnob
allow setting k = record k { disallowed = set_bit setting false k.disallowed }

unfoldable pub multiplicity : DiscreteKnob → ℕ
multiplicity k = length k.disallowed - count_bits_set k.disallowed

unfoldable pub in_exemplar : DiscreteKnob → Bool
in_exemplar k = not (k.default == 0)

-- `(_disallowed << (Multiplicity - idx)).count()`: the shift drops the bits from `idx` on, and all of them
-- where the difference is negative.
unfoldable pub count_shifted : ℕ → List Bool → ℕ
count_shifted idx bits = if ltb (length bits) idx then 0 else count_bits_set (take idx bits)

unfoldable pub map_idx : DiscreteKnob → ℕ → ℕ
map_idx k idx =
    let setting = if idx == k.default then 0 else (if idx == 0 then k.default else idx) in
    setting + count_shifted setting k.disallowed

module _ {C : Type 0} where
  unfoldable pub insert_above : Vertex C → ComboTree C → ComboTree C
  insert_above v t = node v (cons t nil)

  unfoldable pub set_vertex : Vertex C → ComboTree C → ComboTree C
  set_vertex v (node w ts) = node v ts

  -- `_tr.erase(_tr.flatten(_loc))`: the one child takes the place of its parent.
  unfoldable pub erase_flattened : ComboTree C → Option (ComboTree C)
  erase_flattened (node v (cons t nil)) = some t
  erase_flattened t = none

-- A knob at a place in the exemplar.
pub record Placed (C : Type 0) : Type 0 where
  pub knob : DiscreteKnob
  pub loc : ComboTree C

module _ {C : Type 0} where
  unfoldable pub set_to : ℕ → Placed C → Option (ComboTree C) → Option (Placed C)
  set_to setting p none = none
  set_to setting p (some t) = some (record { knob = record p.knob { current = setting }; loc = t })

  -- What `logical_subtree_knob::turn` makes of the tree at the place of the knob.
  unfoldable pub logical_loc : ℕ → ℕ → ComboTree C → Option (ComboTree C)
  logical_loc current zero t = some (
      if current == 2
      then set_vertex (builtin null_vertex) t
      else insert_above (builtin null_vertex) t)
  logical_loc current (suc zero) t = erase_flattened t
  logical_loc current (suc (suc i)) t = some (
      if current == 1
      then insert_above (builtin logical_not) t
      else set_vertex (builtin logical_not) t)

  unfoldable pub turn_logical : ℕ → Placed C → Option (Placed C)
  turn_logical idx p =
      let i = map_idx p.knob idx in
      let turned = set_to i p (logical_loc p.knob.current i p.loc) in
      if ltb i 3 then (if i == p.knob.current then some p else turned) else none

  -- A logical knob for a subtree that stands among the children, and for one that does not.
  unfoldable pub logical_knob_present : ComboTree C → Placed C
  logical_knob_present sib = record {
    knob = record { disallowed = replicate 3 false; default = 1; current = 1 };
    loc = sib;
  }

  unfoldable pub logical_knob_absent : ComboTree C → Placed C
  logical_knob_absent subtree = record {
    knob = record { disallowed = replicate 3 false; default = 0; current = 0 };
    loc = insert_above (builtin null_vertex) subtree;
  }

  -- `simple_action_subtree_knob::turn`, where 0 is present and 1 is absent.
  unfoldable pub simple_action_loc : ℕ → ComboTree C → Option (ComboTree C)
  simple_action_loc zero t = erase_flattened t
  simple_action_loc (suc i) t = some (insert_above (builtin null_vertex) t)

  unfoldable pub turn_simple_action : ℕ → Placed C → Option (Placed C)
  turn_simple_action idx p =
      let i = map_idx p.knob idx in
      let turned = set_to i p (simple_action_loc i p.loc) in
      if ltb i 2 then (if i == p.knob.current then some p else turned) else none

  -- `action_subtree_knob::turn` over the trees `perms`.
  unfoldable pub action_loc : List (ComboTree C) → ℕ → Option (ComboTree C)
  action_loc perms zero = some (node (builtin null_vertex) nil)
  action_loc perms (suc i) = get_elem? perms i

  unfoldable pub turn_action : List (ComboTree C) → ℕ → Placed C → Option (Placed C)
  turn_action perms idx p =
      let i = map_idx p.knob idx in
      let turned = set_to i p (action_loc perms i) in
      if ltb (length perms) i then none else (if i == p.knob.current then some p else turned)
