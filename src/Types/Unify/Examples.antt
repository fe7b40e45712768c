-- ===== src/Types/Unify/Examples.antt =====
-- An arena with one free variable, below a pair of tuples.
use elamite.Base.{
  ℕ, zero, suc, ◌<◌, ◌≡◌, ◌↔◌, ◌||◌, refl, sym, subst, true, Bool, inl, inr, All, All-get_elem?,
  get_elem?, some, none, false, arith, [], ◌∷◌, contains, Option, List, ==→eq, ◌==◌, Bool-cases,
}
use elamite.Types.{
  i32, literal_primitive, is_integer, is_float, str, string, PrimitiveType, expanded_primitive,
  exact, LiteralResult, materialized, materialize_string, primitive_id, is_self, kind_id,
  id_for_kind, same_kind, same_kind→eq, exactly_equal, TypeContext, TypeId, TypeKind, error_type,
  never, primitive, tuple, inference_variable, kind, type_children, contains_inference,
  contains_type, resolve_inference, UnifyResult, unify, unify_resolved, unify_different,
  unify_kinds, unify_variables, unify_shapes, unify_pairs, bind_variable, set_binding, is_variable,
  search_all, search, search_type, search_kind, any_child, resolve_from, resolve_step,
  same_outer_shape, paired_children, zip,
}
use elamite.Types.Resolve.{IsWellFormed}
use elamite.Types.Ranked.{Below, child, bound}
use elamite.Types.Reach.{Reaches, Hit, search_all_lem}
use elamite.Types.Contains.{contains_inference_lem, contains_type_lem}
use elamite.Types.Unify.Outcome.{IsReady, Solves}
use elamite.Types.Canonical.{IsCanonical}
use elamite.Types.Unify.Same.{Same}
use elamite.Types.Unify.Equality.{exactly_equal_lem}
use elamite.Types.Unify.Expanded.{Expands, expanded_primitive_lem}
use elamite.Types.Unify.Strings.{IsText, materialize_string_lem}
use elamite.Types.Unify.Numbers.{literal_primitive_lem}
use elamite.Types.Unify.Total.{unify_lem}

-- Type 3 is the variable, 4 the tuple of it, 5 the tuple of `i32`.
abbrev kinds_of : List TypeKind
kinds_of =
    error_type
    ∷ never
    ∷ primitive i32
    ∷ inference_variable 0
    ∷ tuple (3 ∷ [])
    ∷ tuple (2 ∷ [])
    ∷ primitive str
    ∷ primitive string
    ∷ []

abbrev free_arena : TypeContext
free_arena = record {
  kinds = kinds_of;
  interned =
      (primitive string, 7)
      ∷ (primitive str, 6)
      ∷ (tuple (2 ∷ []), 5)
      ∷ (tuple (3 ∷ []), 4)
      ∷ (inference_variable 0, 3)
      ∷ (primitive i32, 2)
      ∷ (never, 1)
      ∷ (error_type, 0)
      ∷ [];
  inference_bindings = none ∷ [];
}

-- Only the tuples have children.
abbrev rank_of : Option TypeKind → ℕ
rank_of (some (tuple _)) = 1
rank_of _ = 0

abbrev rank_at : TypeId → ℕ
rank_at x = rank_of (get_elem? kinds_of x)

-- The children of the kind rank below it.
abbrev IsLow : TypeKind → Type 0
IsLow k = (y : ℕ) → contains y (type_children k) ≡ true → rank_at y < rank_of (some k)

IsLow-kinds_of : All IsLow kinds_of
unfolding contains type_children
IsLow-kinds_of = (
  (λ y m. cc),
  (
    (λ y m. cc),
    ((λ y m. cc), ((λ y m. cc), (only 3 refl, (only 2 refl, ((λ y m. cc), ((λ y m. cc), tt)))))),
  ),
)
  where
    only : (x : ℕ) → rank_at x ≡ 0 → (y : ℕ) → contains y (x ∷ []) ≡ true → rank_at y < 1
    only x e y m = elim (Bool-cases (x == y)) [
      | inl h ↦ let z : rank_at y ≡ 0 = subst (λ i. rank_at i ≡ 0) (==→eq x y h) e in omega arith
      | inr h ↦ cc
    ]

nothing_bound : (v b : ℕ) → get_elem? free_arena.inference_bindings v ≡ some (some b) → ⊥
nothing_bound zero b h = cc
nothing_bound (suc v) b h = cc

lower_of : {x y : TypeId} → Below free_arena x y → rank_at y < rank_at x
unfolding kind
lower_of (child {x = x} {y = y} {k = k} e m) =
    let low = All-get_elem? IsLow kinds_of x k IsLow-kinds_of e y m in
    subst (λ o. rank_at y < rank_of o) (sym e) low
lower_of (bound {y = y} {v = v} e b) = absurd (nothing_bound v y b)

-- A kind of the arena: its children are types of the arena, and its variable has a slot.
abbrev IsFine : TypeKind → Type 0
IsFine k = All (λ i. i < 8) (type_children k) × ((v : ℕ) → k ≡ inference_variable v → v < 1)

IsFine-kinds_of : All IsFine kinds_of
unfolding type_children
IsFine-kinds_of = (
  (tt, λ v e. cc),
  (
    (tt, λ v e. cc),
    (
      (tt, λ v e. cc),
      (
        (tt, λ v e. variable_zero v e),
        (
          ((omega arith, tt), λ v e. cc),
          (((omega arith, tt), λ v e. cc), ((tt, λ v e. cc), ((tt, λ v e. cc), tt))),
        ),
      ),
    ),
  ),
)
  where
    variable_zero : (v : ℕ) → inference_variable 0 ≡ inference_variable v → v < 1
    variable_zero v e = let same : 0 ≡ v = cc in omega arith

free_arena-IsWellFormed : IsWellFormed free_arena
unfolding kind
free_arena-IsWellFormed = record {
  nonempty = omega arith;
  children = λ i k h. (All-get_elem? IsFine kinds_of i k IsFine-kinds_of h).0;
  variables =
      λ i v h. (All-get_elem? IsFine kinds_of i (inference_variable v) IsFine-kinds_of h).1 v refl;
  bound = λ v b h. absurd (nothing_bound v b h);
}

unfoldable free_arena-IsReady : IsReady free_arena
unfolding kind
free_arena-IsReady = record {
  well_formed = free_arena-IsWellFormed;
  ranked = record { rank = rank_at; lower = lower_of };
  error = refl;
}

-- The entries of the map are kinds of the arena at their ids.
abbrev IsEntry : TypeKind × TypeId → Type 0
IsEntry (k, i) = get_elem? kinds_of i ≡ some k

entries_sound :
    (entries : List (TypeKind × TypeId)) (k : TypeKind) (i : TypeId)
    → All IsEntry entries
    → kind_id k entries ≡ some i
    → get_elem? kinds_of i ≡ some k
unfolding kind_id
entries_sound [] k i a h = cc
entries_sound ((k', j) ∷ entries) k i a h = elim (Bool-cases (same_kind k' k)) [
  | inl e ↦ let at : j ≡ i = ground arith in rw (← at, ← same_kind→eq k' k e) a.0
  | inr e ↦ entries_sound entries k i a.1 (ground arith)
]

at_id :
    (known : TypeKind) (i : ℕ) (k : TypeKind)
    → kind_id known free_arena.interned ≡ some i
    → some known ≡ some k
    → kind_id k free_arena.interned ≡ some i
at_id known i k e h =
    let same : known ≡ k = cc in subst (λ z. kind_id z free_arena.interned ≡ some i) same e

free_arena_complete :
    (i : ℕ) (k : TypeKind) → get_elem? kinds_of i ≡ some k → kind_id k free_arena.interned ≡ some i
unfolding kind_id same_kind
free_arena_complete zero k h = at_id (error_type) 0 k refl h
free_arena_complete (suc zero) k h = at_id (never) 1 k refl h
free_arena_complete (suc (suc zero)) k h = at_id (primitive i32) 2 k refl h
free_arena_complete (suc (suc (suc zero))) k h = at_id (inference_variable 0) 3 k refl h
free_arena_complete (suc (suc (suc (suc zero)))) k h = at_id (tuple (3 ∷ [])) 4 k refl h
free_arena_complete (suc (suc (suc (suc (suc zero))))) k h = at_id (tuple (2 ∷ [])) 5 k refl h
free_arena_complete (suc (suc (suc (suc (suc (suc zero)))))) k h = at_id (primitive str) 6 k refl h
free_arena_complete (suc (suc (suc (suc (suc (suc (suc zero))))))) k h =
    at_id (primitive string) 7 k refl h
free_arena_complete (suc (suc (suc (suc (suc (suc (suc (suc i)))))))) k h = cc

free_arena-IsCanonical : IsCanonical free_arena
unfolding kind id_for_kind
free_arena-IsCanonical = record {
  complete = free_arena_complete;
  sound = λ k i h.
      entries_sound free_arena.interned k i
        (refl, (refl, (refl, (refl, (refl, (refl, (refl, (refl, tt)))))))) h;
}

exactly_equal_lem_example :
    (answer : Bool) × (exactly_equal free_arena 3 4 5 ≡ some answer)
    × (answer ≡ true ↔ Same false free_arena 4 5)
unfolding free_arena-IsReady
exactly_equal_lem_example =
    exactly_equal_lem free_arena free_arena-IsReady free_arena-IsCanonical 4 5 (omega arith)
      (omega arith) 3 (omega arith)

unify_lem_example : Solves free_arena 4 5
unify_lem_example = unify_lem free_arena free_arena-IsReady 4 5 (omega arith) (omega arith)

contains_inference_lem_example :
    (found : Bool) × (seen : List TypeId) × (contains_inference free_arena 4 0 ≡ some (found, seen))
    × (found ≡ true ↔ (
        (goal : TypeId) × Reaches free_arena 4 goal
        × (kind free_arena goal ≡ some (inference_variable 0))))
contains_inference_lem_example =
    contains_inference_lem free_arena free_arena-IsWellFormed 4 0 (omega arith)

contains_type_lem_example :
    (found : Bool) × (seen : List TypeId) × (contains_type free_arena 5 2 ≡ some (found, seen))
    × (found ≡ true
        ↔ ((r : TypeId) × (resolve_inference free_arena 2 ≡ some r) × Reaches free_arena 5 r))
contains_type_lem_example =
    contains_type_lem free_arena free_arena-IsWellFormed 5 2 (omega arith) (omega arith)

-- Unifying the two tuples binds the variable to `i32`.
abbrev bindings_of : Option (UnifyResult × TypeContext) → List (Option TypeId)
bindings_of none = []
bindings_of (some (_, after)) = after.inference_bindings

unify_binds : bindings_of (unify 4 4 5 free_arena) ≡ some 2 ∷ []
unfolding unify unify_resolved unify_different kind unify_kinds unify_variables unify_shapes
    unify_pairs bind_variable set_binding contains_inference search_all search search_type
    search_kind any_child resolve_inference resolve_from resolve_step same_outer_shape
    paired_children zip type_children contains is_variable
unify_binds = refl

search_all_lem_example :
    (found : Bool) × (seen : List TypeId) × (search_all free_arena (λ _. false) is_self 4
      ≡ some (found, seen))
    × (found ≡ true ↔ (
        (goal : TypeId) × Reaches free_arena 4 goal
        × Hit free_arena free_arena-IsWellFormed (λ _. false) is_self goal))
search_all_lem_example =
    search_all_lem free_arena free_arena-IsWellFormed (λ _. false) is_self 4 (omega arith)

expanded_primitive_lem_example :
    (found : Option PrimitiveType) × (expanded_primitive free_arena 1 2 ≡ some found)
    × ((p : PrimitiveType) → found ≡ some p ↔ Expands free_arena 2 p)
unfolding free_arena-IsReady
expanded_primitive_lem_example =
    expanded_primitive_lem free_arena free_arena-IsReady.well_formed free_arena-IsReady.ranked 1 2
      (omega arith) (omega arith)

text_id : primitive_id free_arena str ≡ some 6
unfolding primitive_id id_for_kind kind_id same_kind
text_id = refl

string_id : primitive_id free_arena string ≡ some 7
unfolding primitive_id id_for_kind kind_id same_kind
string_id = refl

materialize_string_lem_example :
    (result : LiteralResult) × (materialize_string free_arena 1 (exact 7)
      ≡ some (result, free_arena))
    × ((id : TypeId)
        → result ≡ materialized id ↔ (
            (p : PrimitiveType) × IsText p
            × Expands free_arena 7 p
            × (kind free_arena id ≡ some (primitive p))))
unfolding free_arena-IsReady
materialize_string_lem_example =
    materialize_string_lem free_arena 6 7 text_id string_id free_arena-IsCanonical
      free_arena-IsReady.well_formed free_arena-IsReady.ranked 1 7 (omega arith) (omega arith)

literal_primitive_lem_example :
    (p : PrimitiveType) × (literal_primitive free_arena 1 none (exact 2) true i32 ≡ some p)
    × (is_integer p || is_float p ≡ true)
unfolding free_arena-IsReady
literal_primitive_lem_example =
    literal_primitive_lem free_arena free_arena-IsReady.well_formed free_arena-IsReady.ranked 1 none
      (exact 2) (omega arith, omega arith)
