-- ===== src/Ownership/Arms.antt =====
-- src/types/ownership.rs:40-62, :163-182, :218-369: the state of the ownership query, and its answers
-- for aggregates and builtin types. A query step is a state passing function: `none` is a read past
-- the arena's end, or no fuel left. The recursive call is the argument `rec`.
use elamite.Base.{Bool, true, false, List, [], ◌∷◌, map, Option, none, some, if◌then◌else◌}
use elamite.Types.{
  TypeKind, TypeId, Mutability, shared, mutable, error_type, alias, inference_variable,
}
use elamite.Capability.{
  CapabilityState, OwnershipFacts, absent, present, conditional, error, error_facts, plain,
  conditional_facts, conjunction, disjunction,
}
use elamite.Ownership.Defs.{
  BuiltinClass, trait_like, owned_collection, shared_pointer, store, handle, maybe_uninit,
  foreign_root, scope, channel_end, mutex, mutex_guard, atomic, other,
}

-- The fields of `Query` that change: the cache, newest entry first, and the types under visit.
pub record QueryState : Type 0 where
  pub cache : List (TypeId × OwnershipFacts)
  pub visiting : List TypeId

abbrev pub M : Type 0 → Type 0
M A = QueryState → Option (A × QueryState)

infixl 5 ◌>>=◌
abbrev pub ◌>>=◌ : {A B : Type 0} → M A → (A → M B) → M B
◌>>=◌ m f s = elim (m s) [ none ↦ none | some (a, s') ↦ f a s' ]

abbrev pub pure : {A : Type 0} → A → M A
pure a s = some (a, s)

-- The facts that a type under visit answers with.
unfoldable pub seed : TypeKind → OwnershipFacts
seed (alias _ _ _) = error_facts
seed error_type = error_facts
seed (inference_variable _) = error_facts
seed _ = record {
  copy = present;
  clone = present;
  needs_drop = absent;
  contains_borrow = absent;
  send = present;
  sync = present;
}

-- `aggregate`, once the facts of the fields are known.
unfoldable pub aggregate_of : List OwnershipFacts → Bool → Bool → OwnershipFacts
aggregate_of children custom_drop custom_clone =
    let copy = if custom_drop then absent else conjunction (map (λ f. f.copy) children) in
    record {
      copy = copy;
      clone =
          if custom_clone
          then present
          else elim copy [ present ↦ present | error ↦ error | _ ↦ absent ];
      needs_drop = if custom_drop then present else disjunction (map (λ f. f.needs_drop) children);
      contains_borrow = disjunction (map (λ f. f.contains_borrow) children);
      send = conjunction (map (λ f. f.send) children);
      sync = conjunction (map (λ f. f.sync) children);
    }

unfoldable pub reference_of : Mutability → OwnershipFacts → OwnershipFacts
reference_of mutability target =
    let owned : CapabilityState = elim mutability [ shared ↦ present | mutable ↦ absent ] in
    record {
      copy = owned;
      clone = owned;
      needs_drop = absent;
      contains_borrow = present;
      send = elim mutability [ shared ↦ target.sync | mutable ↦ target.send ];
      sync = target.sync;
    }

abbrev pub Recursive : Type 0
Recursive = TypeId → M OwnershipFacts

unfoldable pub facts_all : Recursive → List TypeId → M (List OwnershipFacts)
facts_all rec [] = pure []
facts_all rec (ty ∷ tys) = do f ← rec ty; fs ← facts_all rec tys; pure (f ∷ fs)

unfoldable pub aggregate : Recursive → List TypeId → Bool → Bool → M OwnershipFacts
unfolding aggregate_of
aggregate rec fields custom_drop custom_clone = do
  children ← facts_all rec fields
  pure (aggregate_of children custom_drop custom_clone)

-- `flat_map` of the `send` and `sync` facts.
send_and_sync : List OwnershipFacts → List CapabilityState
send_and_sync [] = []
send_and_sync (f ∷ fs) = f.send ∷ f.sync ∷ send_and_sync fs

borrows : List OwnershipFacts → CapabilityState
borrows fs = disjunction (map (λ f. f.contains_borrow) fs)

sends : List OwnershipFacts → CapabilityState
sends fs = conjunction (map (λ f. f.send) fs)

syncs : List OwnershipFacts → CapabilityState
syncs fs = conjunction (map (λ f. f.sync) fs)

unfoldable pub clones : List OwnershipFacts → CapabilityState
clones fs = conjunction (map (λ f. f.clone) fs)

move_only : CapabilityState → CapabilityState → CapabilityState → CapabilityState → OwnershipFacts
move_only drop_state borrow_state send_state sync_state = record {
  copy = absent;
  clone = absent;
  needs_drop = drop_state;
  contains_borrow = borrow_state;
  send = send_state;
  sync = sync_state;
}

-- The arms of `builtin`. Each fold asks for the facts of the arguments again, in the order in
-- which the fields of the answer stand.
unfoldable pub builtin_facts : Recursive → BuiltinClass → List TypeId → M OwnershipFacts
unfolding borrows sends syncs clones move_only send_and_sync
builtin_facts rec trait_like args = pure conditional_facts
builtin_facts rec owned_collection args = do
  facts ← aggregate rec args true false
  fs ← facts_all rec args
  pure (record facts { copy = absent; clone = clones fs })
builtin_facts rec shared_pointer args = do
  b ← facts_all rec args
  s ← facts_all rec args
  y ← facts_all rec args
  pure (record (move_only present (borrows b) (conjunction (send_and_sync s)) (syncs y)) {
    clone = present;
  })
builtin_facts rec store args = do
  b ← facts_all rec args
  s ← facts_all rec args
  pure (move_only present (borrows b) (sends s) absent)
builtin_facts rec handle args = pure (plain present)
builtin_facts rec maybe_uninit args = do
  b ← facts_all rec args
  s ← facts_all rec args
  pure (move_only absent (borrows b) (sends s) absent)
builtin_facts rec foreign_root args = do
  b ← facts_all rec args
  s ← facts_all rec args
  y ← facts_all rec args
  pure (move_only present (borrows b) (sends s) (syncs y))
builtin_facts rec scope args = pure (move_only present present absent absent)
builtin_facts rec channel_end args = do
  b ← facts_all rec args
  s ← facts_all rec args
  y ← facts_all rec args
  pure (record (move_only present (borrows b) (sends s) (sends y)) { clone = present })
builtin_facts rec mutex args = do
  b ← facts_all rec args
  s ← facts_all rec args
  y ← facts_all rec args
  pure (move_only present (borrows b) (sends s) (sends y))
builtin_facts rec mutex_guard args = do
  y ← facts_all rec args
  pure (move_only present present absent (syncs y))
builtin_facts rec atomic args = pure (move_only present absent present present)
builtin_facts rec other args = do
  b ← facts_all rec args
  pure (move_only conditional (borrows b) conditional conditional)
