-- ===== src/Types/Compare.antt =====
-- src/types/context.rs:363-441 and :712-834: strict unification, structural equality, and the shapes
-- that they compare. `none` is a read out of range or no fuel left.
use elamite.Base.{
  ℕ, zero, suc, Bool, true, false, ◌&&◌, ◌||◌, List, [], ◌∷◌, Option, none, some, length,
  if◌then◌else◌, ◌==◌, ℕ_discrete,
}
use elamite.Types.Defs.{
  TypeId, TypeKind, TypeContext, PrimitiveType, Mutability, Safety, Abi, NominalIdentity,
  FunctionParameter, error_type, never, primitive, nominal, builtin, tuple, array, slice, reference,
  raw_pointer, function, trait_object, closure, foreign, alias, generic_parameter, self_type,
  inference_variable, kind, type_children, resolve_inference, error_id,
}
use elamite.Types.Equality.{String-discrete}
use elamite.Types.Search.{contains_inference}

-- The derived equality of a type with decided equality.
abbrev same : {A : Type 0} → Discrete A → A → A → Bool
same d a b = elim (d a b) [ yes _ ↦ true | no _ ↦ false ]

unfoldable PrimitiveType-discrete : Discrete PrimitiveType
PrimitiveType-discrete = hlevel

unfoldable Mutability-discrete : Discrete Mutability
Mutability-discrete = hlevel

unfoldable Safety-discrete : Discrete Safety
Safety-discrete = hlevel

unfoldable Abi-discrete : Discrete Abi
unfolding String-discrete
Abi-discrete = hlevel (String-discrete)

unfoldable NominalIdentity-discrete : Discrete NominalIdentity
unfolding ℕ_discrete
NominalIdentity-discrete = hlevel (ℕ_discrete)

unfoldable Bool-discrete : Discrete Bool
Bool-discrete = hlevel

unfoldable is_some : Option TypeId → Bool
is_some none = false
is_some (some _) = true

unfoldable variadic_alike : List FunctionParameter → List FunctionParameter → Bool
unfolding Bool-discrete
variadic_alike [] right = true
variadic_alike (l ∷ left) [] = true
variadic_alike (l ∷ left) (r ∷ right) =
    same Bool-discrete l.variadic r.variadic && variadic_alike left right

-- `same_outer_shape` and `type_discriminants_equal`: every pair of kinds that the first lets through
-- is an arm of the second.
unfoldable pub same_outer_shape : TypeKind → TypeKind → Bool
unfolding PrimitiveType-discrete Mutability-discrete Safety-discrete Abi-discrete
    NominalIdentity-discrete Bool-discrete is_some variadic_alike
same_outer_shape error_type error_type = true
same_outer_shape never never = true
same_outer_shape (primitive l) (primitive r) = same PrimitiveType-discrete l r
same_outer_shape (nominal l _) (nominal r _) = same NominalIdentity-discrete l r
same_outer_shape (builtin l _) (builtin r _) = l == r
same_outer_shape (tuple l) (tuple r) = length l == length r
same_outer_shape (array _ l) (array _ r) = l == r
same_outer_shape (slice l _) (slice r _) = same Mutability-discrete l r
same_outer_shape (reference l _) (reference r _) = same Mutability-discrete l r
same_outer_shape (raw_pointer l _) (raw_pointer r _) = same Mutability-discrete l r
same_outer_shape (function s a v ps _) (function s' a' v' ps' _) =
    same Safety-discrete s s'
    && (same Abi-discrete a a'
        && (same Bool-discrete (is_some v) (is_some v')
            && (length ps == length ps' && variadic_alike ps ps')))
same_outer_shape (trait_object _) (trait_object _) = true
same_outer_shape (closure l _ _ _) (closure r _ _ _) = l == r
same_outer_shape (foreign l c) (foreign r c') =
    same NominalIdentity-discrete l r && same Bool-discrete c c'
same_outer_shape (generic_parameter l) (generic_parameter r) = l == r
same_outer_shape (self_type l) (self_type r) = l == r
same_outer_shape (inference_variable l) (inference_variable r) = l == r
same_outer_shape _ _ = false

-- `zip`
unfoldable pub zip : List TypeId → List TypeId → List (TypeId × TypeId)
zip [] right = []
zip (l ∷ left) [] = []
zip (l ∷ left) (r ∷ right) = (l, r) ∷ zip left right

unfoldable pub paired_children : TypeKind → TypeKind → List (TypeId × TypeId)
paired_children left right = zip (type_children left) (type_children right)

abbrev pub alias_target : TypeKind → Option TypeId
alias_target (alias _ _ target) = some target
alias_target _ = none

abbrev pub variable_of : TypeKind → Option ℕ
variable_of (inference_variable v) = some v
variable_of _ = none

pub data UnifyResult : Type 0 where
  unified : TypeId → UnifyResult
  mismatch : TypeId → TypeId → UnifyResult

-- A computation that changes the arena.
abbrev pub Unifies : Type 0
Unifies = TypeContext → Option (UnifyResult × TypeContext)

unfoldable pub set_binding : ℕ → TypeId → List (Option TypeId) → List (Option TypeId)
set_binding v ty [] = []
set_binding zero ty (_ ∷ rest) = some ty ∷ rest
set_binding (suc v) ty (b ∷ rest) = b ∷ set_binding v ty rest

abbrev pub bound_to : ℕ → TypeId → TypeContext → TypeContext
bound_to v ty c = record c { inference_bindings = set_binding v ty c.inference_bindings }

-- Bind a variable to the other side, unless that contains it.
unfoldable pub bind_variable : ℕ → TypeId → TypeId → TypeId → Unifies
bind_variable v other left right c = elim (contains_inference c other v) [
  | none ↦ none
  | some (occurs, _) ↦
      if occurs then some (mismatch left right, c) else some (unified other, bound_to v other c)
]

-- The loop over the children; the `?` leaves it at the first mismatch.
unfoldable pub unify_pairs : (TypeId → TypeId → Unifies) → List (TypeId × TypeId) → TypeId → Unifies
unify_pairs rec [] left c = some (unified left, c)
unify_pairs rec ((l, r) ∷ rest) left c = elim (rec l r c) [
  | none ↦ none
  | some (result, after) ↦ elim result [
    | mismatch a b ↦ some (mismatch a b, after)
    | unified _ ↦ unify_pairs rec rest left after
  ]
]

unfoldable pub unify_shapes :
    (TypeId → TypeId → Unifies) → TypeId → TypeId → TypeKind → TypeKind → Unifies
unify_shapes rec left right k k' c =
    if same_outer_shape k k'
    then unify_pairs rec (paired_children k k') left c
    else some (mismatch left right, c)

-- The tests of `unify` on the kinds of two different resolved types, in their order.
unfoldable pub unify_variables :
    (TypeId → TypeId → Unifies)
    → TypeId
    → TypeId
    → TypeKind
    → TypeKind
    → Option ℕ
    → Option ℕ
    → Unifies
unify_variables rec left right k k' (some v) other = bind_variable v right left right
unify_variables rec left right k k' none (some v) = bind_variable v left left right
unify_variables rec left right k k' none none = unify_shapes rec left right k k'

unfoldable pub unify_kinds :
    (TypeId → TypeId → Unifies)
    → TypeId
    → TypeId
    → TypeKind
    → TypeKind
    → Option TypeId
    → Option TypeId
    → Unifies
unify_kinds rec left right k k' (some target) other = rec target right
unify_kinds rec left right k k' none (some target) = rec left target
unify_kinds rec left right k k' none none =
    unify_variables rec left right k k' (variable_of k) (variable_of k')

unfoldable pub unify_different :
    (TypeId → TypeId → Unifies) → TypeId → TypeId → Option TypeKind → Option TypeKind → Unifies
unify_different rec left right (some k) (some k') =
    unify_kinds rec left right k k' (alias_target k) (alias_target k')
unify_different rec left right none _ = λ c. none
unify_different rec left right (some k) none = λ c. none

unfoldable pub unify_resolved :
    (TypeId → TypeId → Unifies) → Option TypeId → Option TypeId → Unifies
unify_resolved rec (some left) (some right) c =
    if left == right || (left == error_id || right == error_id)
    then some (unified (if left == error_id then right else left), c)
    else unify_different rec left right (kind c left) (kind c right) c
unify_resolved rec none _ c = none
unify_resolved rec (some left) none c = none

unfoldable pub unify : ℕ → TypeId → TypeId → Unifies
unify zero left right c = none
unify (suc fuel) left right c =
    unify_resolved (unify fuel) (resolve_inference c left) (resolve_inference c right) c
