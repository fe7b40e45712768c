-- ===== src/Types/Search.antt =====
-- src/types/context.rs:463-585: the searches through the types that a type is built from. They share
-- the set of types seen, and stop at the first hit. `none` is a read out of range or no fuel left.
use elamite.Base.{
  ℕ, zero, suc, Bool, true, false, List, [], ◌∷◌, Option, none, some, length, contains,
  if◌then◌else◌, ◌==◌, not,
}
use elamite.Types.Defs.{
  TypeId, TypeKind, TypeContext, mutable, kind, type_children, resolve_inference, self_type, alias,
  reference, raw_pointer, function, generic_parameter, inference_variable,
}

-- The answer of a search, and the types seen after it.
abbrev pub Found : Type 0
Found = Option (Bool × List TypeId)

-- `children.into_iter().any(|child| ..)`
unfoldable pub any_child : (TypeId → List TypeId → Found) → List TypeId → List TypeId → Found
any_child rec [] seen = some (false, seen)
any_child rec (child ∷ rest) seen = elim (rec child seen) [
  | none ↦ none
  | some (found, after) ↦ elim found [
    | true ↦ some (true, after)
    | false ↦ any_child rec rest after
  ]
]

-- A type that was not seen: test its kind, then look through its children.
unfoldable pub search_kind :
    TypeContext → (TypeKind → Bool) → (TypeId → List TypeId → Found) → TypeId → List TypeId → Found
search_kind c predicate rec ty seen = elim (kind c ty) [
  | none ↦ none
  | some k ↦
      if predicate k then some (true, ty ∷ seen) else any_child rec (type_children k) (ty ∷ seen)
]

-- A resolved type: `early` tests it before the set of seen types is asked.
unfoldable pub search_type :
    TypeContext
    → (TypeId → Bool)
    → (TypeKind → Bool)
    → (TypeId → List TypeId → Found)
    → TypeId
    → List TypeId
    → Found
search_type c early predicate rec ty seen =
    if early ty
    then some (true, seen)
    else if contains ty seen
    then some (false, seen)
    else search_kind c predicate rec ty seen

unfoldable pub search :
    TypeContext → (TypeId → Bool) → (TypeKind → Bool) → ℕ → TypeId → List TypeId → Found
search c early predicate zero ty seen = none
search c early predicate (suc fuel) ty seen = elim (resolve_inference c ty) [
  | none ↦ none
  | some resolved ↦ search_type c early predicate (search c early predicate fuel) resolved seen
]

-- A unit of fuel for each type of the arena and one more are enough (`Reach`).
unfoldable pub search_all : TypeContext → (TypeId → Bool) → (TypeKind → Bool) → TypeId → Found
search_all c early predicate ty = search c early predicate (suc (length c.kinds)) ty []

abbrev never_early : TypeId → Bool
never_early ty = false

abbrev never_kind : TypeKind → Bool
never_kind k = false

unfoldable pub any_type : TypeContext → (TypeKind → Bool) → TypeId → Found
any_type c predicate ty = search_all c never_early predicate ty

unfoldable pub is_self : TypeKind → Bool
is_self (self_type _) = true
is_self _ = false

unfoldable pub mentions_self : TypeContext → TypeId → Found
mentions_self c ty = any_type c is_self ty

unfoldable pub is_alias : TypeKind → Bool
is_alias (alias _ _ _) = true
is_alias _ = false

unfoldable pub contains_explicit_alias : TypeContext → TypeId → Found
contains_explicit_alias c ty = any_type c is_alias ty

unfoldable pub is_function : Option TypeKind → Bool
is_function (some (function _ _ _ _ _)) = true
is_function _ = false

unfoldable pub is_managed_reference : TypeContext → TypeKind → Bool
is_managed_reference c (reference _ target) = not (is_function (kind c target))
is_managed_reference c _ = false

unfoldable pub contains_managed_reference : TypeContext → TypeId → Found
contains_managed_reference c ty = any_type c (is_managed_reference c) ty

unfoldable pub is_open : TypeKind → Bool
is_open (generic_parameter _) = true
is_open (self_type _) = true
is_open (inference_variable _) = true
is_open _ = false

unfoldable pub contains_generic_parameter : TypeContext → TypeId → Found
contains_generic_parameter c ty = any_type c is_open ty

unfoldable pub is_parameter : ℕ → TypeKind → Bool
is_parameter parameter (generic_parameter found) = found == parameter
is_parameter parameter _ = false

unfoldable pub mentions_generic_parameter : TypeContext → TypeId → ℕ → Found
mentions_generic_parameter c ty parameter = any_type c (is_parameter parameter) ty

unfoldable pub is_mutable_indirection : TypeKind → Bool
is_mutable_indirection (reference mutable _) = true
is_mutable_indirection (raw_pointer mutable _) = true
is_mutable_indirection _ = false

unfoldable pub contains_mutable_indirection : TypeContext → TypeId → Found
contains_mutable_indirection c ty = any_type c is_mutable_indirection ty

-- `contains_type`: the needle is resolved first, and every type is compared before it is marked.
unfoldable pub contains_type : TypeContext → TypeId → TypeId → Found
contains_type c outer needle = elim (resolve_inference c needle) [
  | none ↦ none
  | some resolved ↦ search_all c (λ ty. ty == resolved) never_kind outer
]

unfoldable pub is_variable : ℕ → TypeKind → Bool
is_variable needle (inference_variable v) = v == needle
is_variable needle _ = false

-- `contains_inference`: a variable has no children, so that another variable than the needle ends
-- the search below it.
unfoldable pub contains_inference : TypeContext → TypeId → ℕ → Found
contains_inference c ty needle = search_all c never_early (is_variable needle) ty
