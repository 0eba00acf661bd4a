-- ===== src/Lib.antt =====
-- A model of the core of asmoses (MOSES, an evolutionary program learner in C++), and what is
-- proved of it.
--
-- The program represents candidate programs as combo trees, evaluates them on arguments, and
-- reduces them to a normal form; caches keep the results of costly functions. The parts stand in
-- these files (paths from the root of the repository):
--   LruCache.antt and below: `lru_cache` of opencog/asmoses/utils/lru_cache.h. A cache is a record
--     of `_n`, `_map`, `_lru` and the two counters; an operation returns the new cache. The cached
--     function may throw, which is `none`.
--   Threads.antt: threads that take turns on a shared state, with invariants over all schedules.
--   PrrCache.antt and below: `prr_cache` and `prr_cache_threaded` of the same file. Which entry an
--     unordered map begins with is the parameter `begin`; a thread is the point that it has reached,
--     and each section under a lock is one step: a thread that waits for a lock has no turn.
--   InfCache.antt and below: `inf_cache` of the same file, as steps of threads.
--   FieldSet.antt: the layout of raw fields of opencog/asmoses/moses/representation/field_set.h.
--   Neighborhood.antt and below: `vary_n_knobs` and `count_neighborhood_size_from_index` of
--     opencog/asmoses/moses/moses/neighborhood_sampling.h and .cc. The deme is what was written and
--     the room that is left; the binomial coefficients of boost, doubles, and the conversions of a
--     double are the record `Doubles`, a parameter.
--   Combo/Tree.antt: `vertex` of opencog/asmoses/combo/combo/vertex.h and `tree<T>` of
--     opencog/asmoses/utils/tree.h, as a node and the list of its children.
--   Combo/Eval/: opencog/asmoses/combo/interpreter/eval.cc. Floating-point arithmetic and the random
--     generator are the record `Floats`, a parameter; exceptions, failed assertions and steps that
--     C++ leaves undefined are results. `foldl` erases the last two children in the order that the
--     code means, though it steps back from an erased iterator.
--   Combo/Denote.antt: the truth of a logical tree, the specification of both evaluator and rules.
--   Reduct/Rules.antt: rules of opencog/asmoses/reduct/rules/logical_rules.cc and general_rules.cc
--     and strategies of meta_rules.cc, as maps of the subtree that the C++ iterator points to.
--   Reduct/Cond.antt and below: rules on `cond` of opencog/asmoses/reduct/rules/branch_rules.cc. What
--     a `cond` chooses, with predicates that are logical trees, is their specification, in
--     Reduct/Cond/Chosen.antt. A step from a child that has been erased is `none`.
--   Combo/Order.antt: `lexicographic_subtree_order` of opencog/asmoses/utils/tree.h. The order of the
--     vertices is the parameter `less`.
--   Reduct/Clauses.antt and below: the clauses of opencog/asmoses/reduct/reduct/flat_normal_form.h and
--     .cc, sets of literals in the order `before`, a parameter (`absolute_value_order` of another
--     repository), and the loops of `reduce_ors` over them.
--   Reduct/Mapper.antt and below: `nf_mapper` of flat_normal_form.h, which numbers the items of a
--     disjunction, and the rule `reduce_ors` of logical_rules.cc.
--   Reduct/Conjunctions.antt and below: the rule `reduce_ands` of logical_rules.cc, which reduces the
--     negated clauses of a conjunction with the same loops and takes out the literals that all share.
--   Complexity.antt and below: `tree_complexity` of opencog/asmoses/moses/moses/complexity.cc.
--   Knobs.antt and below: discrete knobs of opencog/asmoses/moses/representation/knobs.h and knobs.cc, a
--     knob with the tree at its place in the exemplar.
--   Domination.antt and below: which candidates dominate others, of
--     opencog/asmoses/moses/metapopulation/domination.cc. The intersection of sorted lists of pointers
--     and the split of the jobs, of another repository, are the parameters `meet` and `split_jobs`; what
--     a thread of `std::async` computes is the value of its call.
-- Base.antt and below hold shared lists, tests and integers.
--
-- Bounds and fuel: `eval_throws_tree` calls itself on trees that it builds and takes fuel for the
-- depth of the calls; the height of a logical tree is enough. `downwards` takes fuel for the
-- height of what it visits. `resize` runs as many rounds as the cache has entries. `vary_n_knobs`
-- and `count_from_index` take one more than the number of raw fields, since each call moves the
-- index on. The two loops of `reduce_ors` and `reduce_ands` over their clauses, `add_implied` and
-- `walk`, run once for each clause that is there when they start, as they only erase.
-- `get_nondominated_rec` takes fuel for the number of candidates, since it halves them. Counts
-- wrap at 2 ^ 64, and those of one contin at 2 ^ 32.
--
-- Not modelled: `lru_cache_threaded` (it wraps each call in a lock), term algebra fields, the type
-- checker, the building of knobs, the trees of atomese, the learning loop, the scoring and the tables,
-- which compute with floating-point numbers, and input, output and command lines. The theorems on
-- neighbourhoods are for field sets of discs and bits; contins are in the definitions, with a test.
pub mod Base
pub mod Threads
pub mod LruCache
pub mod PrrCache
pub mod InfCache
pub mod FieldSet
pub mod Neighborhood
pub mod Combo
pub mod Reduct
pub mod Complexity
pub mod Domination
pub mod Knobs
