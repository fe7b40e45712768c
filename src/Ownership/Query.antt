-- ===== src/Ownership/Query.antt =====
-- The recursive query of src/types/ownership.rs:6-139: the `match` on the kind of a type, the cache
-- and the types under visit. `facts` gives itself as the recursive call, at one less unit of fuel.
use elamite.Base.{
  ℕ, zero, suc, false, List, [], ◌∷◌, Option, none, some, length, contains, remove_one, lookup,
  if◌then◌else◌,
}
use elamite.Types.{
  TypeKind, TypeId, kind, resolve_inference, error_type, never, primitive, nominal, builtin, tuple,
  array, slice, reference, raw_pointer, function, trait_object, closure, foreign, alias,
  generic_parameter, self_type, inference_variable,
}
use elamite.Capability.{OwnershipFacts, present, error_facts, plain, conditional_facts}
use elamite.Ownership.Defs.{
  Program, has_trait_impl, has_unsafe_capability_impl, generic, primitive_facts, raw_pointer_facts,
  trait_object_facts, builtin_class,
}
use elamite.Ownership.Arms.{
  QueryState, M, ◌>>=◌, pure, seed, reference_of, Recursive, facts_all, aggregate, clones,
  builtin_facts,
}

unfoldable pub nominal_facts : Program → Recursive → TypeId → ℕ → List TypeId → M OwnershipFacts
nominal_facts p rec ty declaration arguments =
    if p.is_trait_declaration declaration
    then pure conditional_facts
    else aggregate rec (p.nominal_fields declaration arguments) (has_trait_impl p ty "Drop")
        (has_trait_impl p ty "Clone")

-- The `match` on the kind of the type.
unfoldable pub kind_facts : Program → Recursive → TypeId → TypeKind → M OwnershipFacts
unfolding clones
kind_facts p rec ty error_type = pure error_facts
kind_facts p rec ty (inference_variable _) = pure error_facts
kind_facts p rec ty (alias _ _ target) = rec target
kind_facts p rec ty never = pure (plain present)
kind_facts p rec ty (primitive x) = pure (primitive_facts x)
kind_facts p rec ty (tuple elements) = aggregate rec elements false false
kind_facts p rec ty (array element _) = aggregate rec (element ∷ []) false false
kind_facts p rec ty (slice mutability element) = do
  f ← rec element
  pure (reference_of mutability f)
kind_facts p rec ty (reference mutability target) = do
  f ← rec target
  pure (reference_of mutability f)
kind_facts p rec ty (raw_pointer _ _) = pure raw_pointer_facts
kind_facts p rec ty (function _ _ _ _ _) = pure (plain present)
kind_facts p rec ty (closure _ captures _ _) = do
  facts ← aggregate rec captures false false
  fs ← facts_all rec captures
  pure (record facts { clone = clones fs })
kind_facts p rec ty (nominal identity arguments) =
    nominal_facts p rec ty identity.declaration arguments
kind_facts p rec ty (builtin b arguments) =
    builtin_facts rec (builtin_class (p.builtin_name b)) arguments
kind_facts p rec ty (foreign identity complete) =
    if complete
    then aggregate rec (p.foreign_fields identity.declaration) false false
    else pure error_facts
kind_facts p rec ty (trait_object trait_type) = pure (trait_object_facts p trait_type)
kind_facts p rec ty (self_type _) = pure conditional_facts
kind_facts p rec ty (generic_parameter parameter) = pure (generic p parameter)

-- The unsafe implementations of `Send` and `Sync` override the structural answer.
unfoldable pub with_overrides : Program → TypeId → OwnershipFacts → OwnershipFacts
with_overrides p ty facts = record facts {
  send = if has_unsafe_capability_impl p ty "Send" then present else facts.send;
  sync = if has_unsafe_capability_impl p ty "Sync" then present else facts.sync;
}

unfoldable pub enter : TypeId → M (Unit {0})
enter ty s = some (tt, record s { visiting = ty ∷ s.visiting })

-- Leave `visiting` and fill the cache.
unfoldable pub leave : TypeId → OwnershipFacts → M OwnershipFacts
leave ty facts s =
    some (facts, record { cache = (ty, facts) ∷ s.cache; visiting = remove_one ty s.visiting })

-- The body of `facts` for a resolved type that the cache does not hold.
unfoldable pub visit : Program → Recursive → TypeId → TypeKind → M OwnershipFacts
unfolding enter leave with_overrides
visit p rec ty k s =
    if contains ty s.visiting
    then some (seed k, s)
    else (do _ ← enter ty; facts ← kind_facts p rec ty k; leave ty (with_overrides p ty facts)) s

unfoldable pub cached_or_visit : Program → Recursive → TypeId → M OwnershipFacts
unfolding visit
cached_or_visit p rec ty s = elim (lookup ty s.cache) [
  | some facts ↦ some (facts, s)
  | none ↦ elim (kind p.types ty) [ none ↦ none | some k ↦ visit p rec ty k s ]
]

-- `Query::facts` on fuel.
unfoldable pub facts : Program → ℕ → TypeId → M OwnershipFacts
facts p zero ty s = none
facts p (suc fuel) ty s = elim (resolve_inference p.types ty) [
  | none ↦ none
  | some resolved ↦ cached_or_visit p (facts p fuel) resolved s
]

-- `ownership_facts`: the query from a cache, with no type under visit. A unit of fuel for each
-- type of the arena and one more are enough (`Coherence`).
unfoldable pub ownership_facts :
    Program → List (TypeId × OwnershipFacts) → TypeId → Option (OwnershipFacts × QueryState)
ownership_facts p cache ty =
    facts p (suc (length p.types.kinds)) ty (record { cache = cache; visiting = [] })
