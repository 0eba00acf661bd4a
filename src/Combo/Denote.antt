-- ===== src/Combo/Denote.antt =====
-- What a logical combo tree means: the specification of the evaluator and of the reductions.
use asmoses.Base.{ℕ, suc, ◌<◌, ◌≤◌, Bool, true, false, not, if◌then◌else◌}
use asmoses.Base.Int.{ℤ, pos, negsuc, nat_abs}
use asmoses.Combo.Tree.{
  node, nil, cons, logical_true, logical_false, logical_and, logical_or, logical_not, Vertex,
  builtin, argument, ComboTree, ComboForest,
}

-- The value of each argument, counted from 1.
abbrev pub Valuation : Type 0
Valuation = ℕ → Bool

-- A negative index is the negated argument.
abbrev pub literal : Valuation → ℤ → Bool
literal ρ (pos n) = ρ n
literal ρ (negsuc n) = not (ρ (suc n))

-- The truth at a node, from that of all and of any of its children.
unfoldable pub vertex_truth : {C : Type 0} → Valuation → Vertex C → Bool → Bool → Bool
vertex_truth ρ (builtin logical_true) all any = true
vertex_truth ρ (builtin logical_and) all any = all
vertex_truth ρ (builtin logical_or) all any = any
vertex_truth ρ (builtin logical_not) all any = not any
vertex_truth ρ (argument i) all any = literal ρ i
vertex_truth ρ v all any = false

-- Logical trees over `n` arguments: constants, arguments, negations of one tree, and junctors of at least one.
mutual
  pub data IsLogical (n : ℕ) {C : Type 0} : ComboTree C → Type 0 where
    true_leaf : IsLogical n (node (builtin logical_true) nil)
    false_leaf : IsLogical n (node (builtin logical_false) nil)
    literal_leaf : (i : ℤ) → 0 < nat_abs i → nat_abs i ≤ n → IsLogical n (node (argument i) nil)
    conjunction :
        {t : ComboTree C} {ts : ComboForest C}
        → IsLogical n t
        → AreLogical n ts
        → IsLogical n (node (builtin logical_and) (cons t ts))
    disjunction :
        {t : ComboTree C} {ts : ComboForest C}
        → IsLogical n t
        → AreLogical n ts
        → IsLogical n (node (builtin logical_or) (cons t ts))
    negation :
        {t : ComboTree C} → IsLogical n t → IsLogical n (node (builtin logical_not) (cons t nil))

  pub data AreLogical (n : ℕ) {C : Type 0} : ComboForest C → Type 0 where
    done : AreLogical n nil
    more :
        {t : ComboTree C} {ts : ComboForest C}
        → IsLogical n t
        → AreLogical n ts
        → AreLogical n (cons t ts)

-- The truth of a logical tree; on other trees the value has no meaning.
module _ {C : Type 0} (ρ : Valuation) where
  unfoldable mutual
    pub truth : ComboTree C → Bool
    truth (node v ts) = vertex_truth ρ v (all_true ts) (any_true ts)

    pub all_true : ComboForest C → Bool
    all_true nil = true
    all_true (cons t ts) = if truth t then all_true ts else false

    pub any_true : ComboForest C → Bool
    any_true nil = false
    any_true (cons t ts) = if truth t then true else any_true ts
