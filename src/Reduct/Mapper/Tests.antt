-- ===== src/Reduct/Mapper/Tests.antt =====
-- Small disjunctions, in the orders of `Vertices` and of the absolute value.
use asmoses.Base.{
  ℕ, suc, ◌<◌, ◌≡◌, ◌≢◌, refl, Bool, true, [], ◌∷◌, some, ltb, ltb→lt, lt→ltb, arith,
}
use asmoses.Base.Int.{ℤ, pos, negsuc}
use asmoses.Threads.{AllOf}
use asmoses.Combo.Tree.{
  Tree, node, nil, cons, logical_and, logical_or, logical_false, builtin, argument, ComboTree,
  ComboForest,
}
use asmoses.Combo.Order.{cmp, lexicographic_subtree_order, is_same_key}
use asmoses.Combo.Denote.{
  Valuation, truth, any_true, IsLogical, AreLogical, done, more, literal_leaf, conjunction,
  disjunction,
}
use asmoses.Reduct.Clauses.{
  Nf, contains, erase, is_included, subset_eq, subset, tautology, remove_tautologies, erase_among,
  erase_pairs, erase_supersets, insert, insert_all, resolvent, implications_of, implications,
  absorb, absorb_all, walk, add_implied, reduce_nf, number_of_literals,
}
use asmoses.Reduct.Clauses.Truth.{some_clause}
use asmoses.Reduct.Clauses.Sorted.{rank, IsAbsoluteOrder, IsSorted, AllAfter}
use asmoses.Reduct.Clauses.Implied.{IsGood}
use asmoses.Reduct.Clauses.Ends.{reduce_nf_lem}
use asmoses.Reduct.Mapper.{
  find_int, insert_int, negate_top, create, create_all, extract_clause, or_of, extract_dnf,
  find_item, find_negated, add_new, add_item, add_items, add_child, add_dnf, reduce_ors,
  empty_mapper,
}
use asmoses.Reduct.Mapper.Sound.{reduce_ors-IsSound, add_dnf-extract_dnf}
use asmoses.Reduct.Conjunctions.{
  negated_root, extract_shared, negate_clause, common, common_of, intersection, erase_literals,
  extract_children, and_of, extract_cnf, extract_conjunction, with_intersection, add_disjunction,
  add_cnf, build_ands, reduce_ands,
}
use asmoses.Reduct.Conjunctions.Sound.{reduce_ands-IsSound}
use asmoses.Reduct.Mapper.Vertices.{less, less-IsVertexOrder}

abbrev before : ℤ → ℤ → Bool
before x y = ltb (rank x) (rank y)

before-IsAbsoluteOrder : IsAbsoluteOrder before
before-IsAbsoluteOrder x y = (ltb→lt (rank x) (rank y), lt→ltb (rank x) (rank y))

-- `$1 && $2`, `$1 && !$2`, and `!$1 && $3`
abbrev clauses : Nf
clauses = (pos 1 ∷ pos 2 ∷ []) ∷ (pos 1 ∷ negsuc 1 ∷ []) ∷ (negsuc 0 ∷ pos 3 ∷ []) ∷ []

-- The implied clause takes the place of both that it comes from, so it stands there twice.
reduced : reduce_nf before clauses ≡ some ((pos 1 ∷ []) ∷ (pos 1 ∷ []) ∷ (pos 3 ∷ []) ∷ [])
unfolding contains erase is_included subset_eq subset tautology remove_tautologies erase_among
    erase_pairs erase_supersets insert insert_all resolvent implications_of implications absorb
    absorb_all walk add_implied reduce_nf rank
reduced = refl

abbrev arg : ℤ → ComboTree ℕ
arg i = node (argument i) nil

abbrev both : ComboTree ℕ → ComboTree ℕ → ComboTree ℕ
both t u = node (builtin logical_and) (cons t (cons u nil))

-- `or(and($1 $2) and($1 !$2) and(!$1 $3))`
abbrev cases : ComboForest ℕ
cases =
    cons (both (arg (pos 1)) (arg (pos 2)))
      (cons (both (arg (pos 1)) (arg (negsuc 1))) (cons (both (arg (negsuc 0)) (arg (pos 3))) nil))

arg-IsLogical : (i : ℕ) → i < 3 → IsLogical 3 (arg (pos (suc i))) × IsLogical 3 (arg (negsuc i))
arg-IsLogical i h = (
  literal_leaf (pos (suc i)) (omega arith) (omega arith),
  literal_leaf (negsuc i) (omega arith) (omega arith),
)

both-IsLogical : (t u : ComboTree ℕ) → IsLogical 3 t → IsLogical 3 u → IsLogical 3 (both t u)
both-IsLogical t u l k = conjunction l (more k done)

abbrev first_lit : IsLogical 3 (both (arg (pos 1)) (arg (pos 2)))
first_lit = both-IsLogical _ _ (arg-IsLogical 0 (omega arith)).0 (arg-IsLogical 1 (omega arith)).0

rest-AreLogical :
    AreLogical 3
      (cons (both (arg (pos 1)) (arg (negsuc 1))) (cons (both (arg (negsuc 0)) (arg (pos 3))) nil))
rest-AreLogical =
    more (both-IsLogical _ _ (arg-IsLogical 0 (omega arith)).0 (arg-IsLogical 1 (omega arith)).1) (
      more (both-IsLogical _ _ (arg-IsLogical 0 (omega arith)).1 (arg-IsLogical 2 (omega arith)).0)
        done)

reduced_tree :
    reduce_ors less before (node (builtin logical_or) cases)
    ≡ some (
        node
          (builtin logical_or)
          (cons (arg (pos 1)) (cons (arg (pos 1)) (cons (arg (pos 3)) nil))))
unfolding contains erase is_included subset_eq subset tautology remove_tautologies erase_among
    erase_pairs erase_supersets insert insert_all resolvent implications_of implications absorb
    absorb_all walk add_implied reduce_nf rank number_of_literals find_int insert_int negate_top
    create create_all extract_clause or_of extract_dnf find_item find_negated add_new add_item
    add_items add_child add_dnf reduce_ors cmp lexicographic_subtree_order is_same_key
    asmoses.Combo.Tree.negate_argument
reduced_tree = refl

reduce_ors-IsSound_example :
    (u : ComboTree ℕ) × (reduce_ors less before (node (builtin logical_or) cases) ≡ some u)
    × IsLogical 3 u
    × ((ρ : Valuation) → truth ρ u ≡ truth ρ (node (builtin logical_or) cases))
reduce_ors-IsSound_example =
    reduce_ors-IsSound less less-IsVertexOrder before before-IsAbsoluteOrder
      (node (builtin logical_or) cases) (disjunction first_lit rest-AreLogical)

add_dnf-extract_dnf_example :
    (u : ComboTree ℕ) × (extract_dnf
        (add_dnf less before cases empty_mapper).0
        nil
        (add_dnf less before cases empty_mapper).1
      ≡ some u)
    × IsLogical 3 u
    × ((ρ : Valuation) → truth ρ u ≡ any_true ρ cases)
add_dnf-extract_dnf_example =
    add_dnf-extract_dnf less less-IsVertexOrder before before-IsAbsoluteOrder cases
      (more first_lit rest-AreLogical)

abbrev NonZero : ℤ → Type 0
NonZero x = x ≢ pos 0

known_of : (x y : ℤ) → NonZero x → NonZero y → (z : ℤ) → contains (x ∷ y ∷ []) z ≡ true → NonZero z
unfolding contains
known_of x y h k z c e = ground (arith, h, k, c, e)

clauses-AllOf : AllOf (λ c. IsSorted c × ((z : ℤ) → contains c z ≡ true → NonZero z)) clauses
unfolding AllOf IsSorted AllAfter rank
clauses-AllOf = (
  (((omega arith, tt), (tt, tt)), known_of _ _ (λ e. ground arith) (λ e. ground arith)),
  (
    (((omega arith, tt), (tt, tt)), known_of _ _ (λ e. ground arith) (λ e. ground arith)),
    ((((omega arith, tt), (tt, tt)), known_of _ _ (λ e. ground arith) (λ e. ground arith)), tt),
  ),
)

reduce_nf_lem_example :
    (g : Nf) × (reduce_nf before clauses ≡ some g)
    × AllOf (IsGood NonZero) g
    × ((σ : Valuation) → some_clause σ g ≡ some_clause σ clauses)
reduce_nf_lem_example =
    reduce_nf_lem before before-IsAbsoluteOrder NonZero (λ x h. h) clauses clauses-AllOf

-- `and(or(!$1 !$2) or(!$1 $2))`, the negation of the first two children of `cases`.
abbrev either : ComboTree ℕ → ComboTree ℕ → ComboTree ℕ
either t u = node (builtin logical_or) (cons t (cons u nil))

abbrev joined : ComboTree ℕ
joined = node (builtin logical_and) (
    cons (either (arg (negsuc 0)) (arg (negsuc 1)))
      (cons (either (arg (negsuc 0)) (arg (pos 2))) nil))

joined-IsLogical : IsLogical 3 joined
joined-IsLogical =
    conjunction
      (disjunction (arg-IsLogical 0 (omega arith)).1 (more (arg-IsLogical 1 (omega arith)).1 done))
      (more
        (disjunction (arg-IsLogical 0 (omega arith)).1
          (more (arg-IsLogical 1 (omega arith)).0 done))
        done)

reduced_conjunction :
    reduce_ands less before joined
    ≡ some (node (builtin logical_and) (cons (arg (negsuc 0)) (cons (arg (negsuc 0)) nil)))
unfolding contains erase is_included subset_eq subset tautology remove_tautologies erase_among
    erase_pairs erase_supersets insert insert_all resolvent implications_of implications absorb
    absorb_all walk add_implied reduce_nf rank number_of_literals find_int insert_int negate_top
    create create_all extract_clause or_of extract_dnf find_item find_negated add_new add_item
    add_items add_child add_dnf reduce_ors cmp lexicographic_subtree_order is_same_key
    asmoses.Combo.Tree.negate_argument negate_clause common common_of intersection erase_literals
    extract_children and_of extract_cnf extract_conjunction negated_root extract_shared
    with_intersection add_disjunction add_cnf build_ands reduce_ands
reduced_conjunction = refl

reduce_ands-IsSound_example :
    (u : ComboTree ℕ) × (reduce_ands less before joined ≡ some u)
    × IsLogical 3 u
    × ((ρ : Valuation) → truth ρ u ≡ truth ρ joined)
reduce_ands-IsSound_example =
    reduce_ands-IsSound less less-IsVertexOrder before before-IsAbsoluteOrder joined
      joined-IsLogical
