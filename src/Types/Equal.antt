-- ===== src/Types/Equal.antt =====
-- src/types/context.rs:405-441: structural equality of types. `none` is a read out of range or no
-- fuel left.
use elamite.Base.{
  ℕ, zero, suc, Bool, true, false, ◌&&◌, List, [], ◌∷◌, Option, none, some, if◌then◌else◌, ◌==◌,
}
use elamite.Types.Defs.{TypeId, TypeKind, TypeContext, kind, resolve_inference}
use elamite.Types.Compare.{same_outer_shape, paired_children, alias_target}

abbrev pub Pairs : Type 0
Pairs = List (TypeId × TypeId)

-- The answer, and the pairs seen after it.
abbrev pub Equal : Type 0
Equal = Option (Bool × Pairs)

unfoldable pub contains_pair : TypeId → TypeId → Pairs → Bool
contains_pair l r [] = false
contains_pair l r ((l', r') ∷ seen) = if l' == l && r' == r then true else contains_pair l r seen

-- `.all(|(left, right)| ..)`
unfoldable pub equal_pairs : (TypeId → TypeId → Pairs → Equal) → Pairs → Pairs → Equal
equal_pairs rec [] seen = some (true, seen)
equal_pairs rec ((l, r) ∷ rest) seen = elim (rec l r seen) [
  | none ↦ none
  | some (answer, after) ↦ elim answer [
    | true ↦ equal_pairs rec rest after
    | false ↦ some (false, after)
  ]
]

unfoldable pub equal_aliases :
    (TypeId → TypeId → Pairs → Equal)
    → TypeId
    → TypeId
    → TypeKind
    → TypeKind
    → Option TypeId
    → Option TypeId
    → Pairs
    → Equal
equal_aliases rec left right k k' (some target) other seen = rec target right seen
equal_aliases rec left right k k' none (some target) seen = rec left target seen
equal_aliases rec left right k k' none none seen =
    if same_outer_shape k k'
    then equal_pairs rec (paired_children k k') seen
    else some (false, seen)

unfoldable pub equal_kinds :
    (TypeId → TypeId → Pairs → Equal)
    → TypeId
    → TypeId
    → Option TypeKind
    → Option TypeKind
    → Pairs
    → Equal
equal_kinds rec left right (some k) (some k') seen =
    equal_aliases rec left right k k' (alias_target k) (alias_target k') seen
equal_kinds rec left right none _ seen = none
equal_kinds rec left right (some k) none seen = none

unfoldable pub equal_resolved :
    TypeContext → (TypeId → TypeId → Pairs → Equal) → Option TypeId → Option TypeId → Pairs → Equal
equal_resolved c rec (some left) (some right) seen =
    if left == right
    then some (true, seen)
    else if contains_pair left right seen
    then some (true, seen)
    else equal_kinds rec left right (kind c left) (kind c right) ((left, right) ∷ seen)
equal_resolved c rec none _ seen = none
equal_resolved c rec (some left) none seen = none

unfoldable pub equal_inner : TypeContext → ℕ → TypeId → TypeId → Pairs → Equal
equal_inner c zero left right seen = none
equal_inner c (suc fuel) left right seen =
    equal_resolved c (equal_inner c fuel) (resolve_inference c left) (resolve_inference c right)
      seen

unfoldable pub exactly_equal : TypeContext → ℕ → TypeId → TypeId → Option Bool
exactly_equal c fuel left right = elim (equal_inner c fuel left right []) [
  | none ↦ none
  | some (answer, _) ↦ some answer
]
