-- ===== src/Reduct/Mapper/Vertices.antt =====
-- An order of the vertices over the natural numbers, to run the map of trees on: by the kind of the
-- vertex, then by its number.
use asmoses.Base.{
  ℕ, ◌≡◌, refl, sym, ap, ◌∙◌, Bool, true, false, ◌==◌, ltb, if◌then◌else◌, List, [], ◌∷◌, get_elem?,
  none, some, arith,
}
use asmoses.Base.Int.{pos, negsuc}
use asmoses.Combo.Tree.{
  Builtin, null_vertex, logical_true, logical_false, logical_and, logical_or, logical_not, plus,
  times, div, exp, log, sin, greater_than_zero, impulse, rand, list, car, cdr, cons_op, foldr,
  foldl, cond, equ, lambda, apply, contin_if, Vertex, builtin, argument, contin, enum_type,
  wild_card, action, builtin_action, perception, definite_object, indefinite_object, message,
  procedure_call, action_symbol, ann_type,
}
use asmoses.Combo.Order.{IsVertexOrder}

abbrev Key : Type 0
Key = ℕ × ℕ

abbrev kinds : List (ℕ → Vertex ℕ)
kinds =
    contin
    ∷ enum_type
    ∷ (λ n. argument (pos n))
    ∷ (λ n. argument (negsuc n))
    ∷ wild_card
    ∷ action
    ∷ builtin_action
    ∷ perception
    ∷ definite_object
    ∷ indefinite_object
    ∷ message
    ∷ procedure_call
    ∷ action_symbol
    ∷ ann_type
    ∷ []

abbrev builtins : List Builtin
builtins =
    null_vertex ∷ logical_true ∷ logical_false ∷ logical_and ∷ logical_or ∷ logical_not ∷ plus
    ∷ times ∷ div ∷ exp ∷ log ∷ sin ∷ greater_than_zero ∷ impulse ∷ rand ∷ list ∷ car ∷ cdr
    ∷ cons_op ∷ foldr ∷ foldl ∷ cond ∷ equ ∷ lambda ∷ apply ∷ contin_if ∷ []

abbrev builtin_place : Builtin → ℕ
builtin_place null_vertex = 0
builtin_place logical_true = 1
builtin_place logical_false = 2
builtin_place logical_and = 3
builtin_place logical_or = 4
builtin_place logical_not = 5
builtin_place plus = 6
builtin_place times = 7
builtin_place div = 8
builtin_place exp = 9
builtin_place log = 10
builtin_place sin = 11
builtin_place greater_than_zero = 12
builtin_place impulse = 13
builtin_place rand = 14
builtin_place list = 15
builtin_place car = 16
builtin_place cdr = 17
builtin_place cons_op = 18
builtin_place foldr = 19
builtin_place foldl = 20
builtin_place cond = 21
builtin_place equ = 22
builtin_place lambda = 23
builtin_place apply = 24
builtin_place contin_if = 25

abbrev key : Vertex ℕ → Key
key (argument (pos n)) = (2, n)
key (argument (negsuc n)) = (3, n)
key (contin n) = (0, n)
key (enum_type n) = (1, n)
key (wild_card n) = (4, n)
key (action n) = (5, n)
key (builtin_action n) = (6, n)
key (perception n) = (7, n)
key (definite_object n) = (8, n)
key (indefinite_object n) = (9, n)
key (message n) = (10, n)
key (procedure_call n) = (11, n)
key (action_symbol n) = (12, n)
key (ann_type n) = (13, n)
key (builtin b) = (14, builtin_place b)

abbrev builtin_of : ℕ → Builtin
builtin_of i = elim (get_elem? builtins i) [ none ↦ null_vertex | some b ↦ b ]

abbrev vertex_of : Key → Vertex ℕ
vertex_of k = elim (get_elem? kinds k.0) [ none ↦ builtin (builtin_of k.1) | some f ↦ f k.1 ]

builtin_of-builtin_place : (b : Builtin) → builtin_of (builtin_place b) ≡ b
builtin_of-builtin_place null_vertex = refl
builtin_of-builtin_place logical_true = refl
builtin_of-builtin_place logical_false = refl
builtin_of-builtin_place logical_and = refl
builtin_of-builtin_place logical_or = refl
builtin_of-builtin_place logical_not = refl
builtin_of-builtin_place plus = refl
builtin_of-builtin_place times = refl
builtin_of-builtin_place div = refl
builtin_of-builtin_place exp = refl
builtin_of-builtin_place log = refl
builtin_of-builtin_place sin = refl
builtin_of-builtin_place greater_than_zero = refl
builtin_of-builtin_place impulse = refl
builtin_of-builtin_place rand = refl
builtin_of-builtin_place list = refl
builtin_of-builtin_place car = refl
builtin_of-builtin_place cdr = refl
builtin_of-builtin_place cons_op = refl
builtin_of-builtin_place foldr = refl
builtin_of-builtin_place foldl = refl
builtin_of-builtin_place cond = refl
builtin_of-builtin_place equ = refl
builtin_of-builtin_place lambda = refl
builtin_of-builtin_place apply = refl
builtin_of-builtin_place contin_if = refl

vertex_of-key : (v : Vertex ℕ) → vertex_of (key v) ≡ v
vertex_of-key (argument (pos n)) = refl
vertex_of-key (argument (negsuc n)) = refl
vertex_of-key (contin n) = refl
vertex_of-key (enum_type n) = refl
vertex_of-key (wild_card n) = refl
vertex_of-key (action n) = refl
vertex_of-key (builtin_action n) = refl
vertex_of-key (perception n) = refl
vertex_of-key (definite_object n) = refl
vertex_of-key (indefinite_object n) = refl
vertex_of-key (message n) = refl
vertex_of-key (procedure_call n) = refl
vertex_of-key (action_symbol n) = refl
vertex_of-key (ann_type n) = refl
vertex_of-key (builtin b) = ap builtin (builtin_of-builtin_place b)

abbrev key_less : Key → Key → Bool
key_less j k = if j.0 == k.0 then ltb j.1 k.1 else ltb j.0 k.0

abbrev pub less : Vertex ℕ → Vertex ℕ → Bool
less v w = key_less (key v) (key w)

key_less-asym : (j k : Key) → key_less j k ≡ true → key_less k j ≡ false
key_less-asym j k h = ground (arith, h)

key_less-total : (j k : Key) → key_less j k ≡ false → key_less k j ≡ false → j ≡ k
key_less-total (a, b) (c, d) h k =
    let kind : a ≡ c = ground (arith, h, k) in
    let number : b ≡ d = ground (arith, h, k) in rw (kind, number) refl

pub less-IsVertexOrder : IsVertexOrder less
less-IsVertexOrder = record {
  asym = λ v w. key_less-asym (key v) (key w);
  total = λ v w h k.
      sym (vertex_of-key v) ∙ ap vertex_of (key_less-total (key v) (key w) h k) ∙ vertex_of-key w;
}
