-- ===== src/Ownership/Examples.antt =====
-- The ownership query on two structs that refer to one another.
use elamite.Base.{
  ℕ, zero, suc, ◌<◌, ◌≡◌, refl, true, false, List, [], ◌∷◌, Option, none, some, arith, All, lookup,
  All-get_elem?, contains, remove_one, ◌==◌,
}
use elamite.Types.{
  TypeId, TypeContext, i32, shared, error_type, primitive, nominal, reference, raw_pointer, kind,
  type_children, inference_variable, resolve_inference, resolve_from, resolve_step,
}
use elamite.Capability.{
  OwnershipFacts, CapabilityState, present, absent, conjunction, disjunction, conjoin, disjoin,
  plain,
}
use elamite.Ownership.{
  Program, QueryState, ownership_facts, facts, cached_or_visit, kind_facts, nominal_facts,
  aggregate, facts_all, has_trait_impl, has_unsafe_capability_impl, seed, reference_of,
  primitive_facts, raw_pointer_facts,
}
use elamite.Ownership.Coherence.Combine.{Coherent}
use elamite.Ownership.Coherence.Kinds.{IsClosed}
use elamite.Ownership.Coherence.Total.{ownership_facts-Coherent}

-- struct A { b: &B, raw: *i32 } and struct B { a: &A }: type 3 is A, type 4 is B.
abbrev arena : TypeContext
arena = record {
  kinds =
      error_type
      ∷ primitive i32
      ∷ raw_pointer shared 1
      ∷ nominal (record { package_id = none; declaration = 0 }) []
      ∷ nominal (record { package_id = none; declaration = 1 }) []
      ∷ reference shared 3
      ∷ reference shared 4
      ∷ [];
  interned = [];
  inference_bindings = [];
}

abbrev fields_of : ℕ → List TypeId
fields_of zero = 6 ∷ 2 ∷ []
fields_of (suc zero) = 5 ∷ []
fields_of _ = []

abbrev mutual_structs : Program
mutual_structs = record {
  types = arena;
  builtin_name = λ _. "";
  declaration_name = λ _. "";
  is_trait_declaration = λ _. false;
  nominal_fields = λ d _. fields_of d;
  foreign_fields = λ _. [];
  obligations = [];
  impls = [];
  exactly_equal = λ a b. a == b;
  supports_owned_surface = true;
}

fields_of-closed : (d : ℕ) → All (λ t. t < 7) (fields_of d)
fields_of-closed zero = omega arith
fields_of-closed (suc zero) = omega arith
fields_of-closed _ = tt

mutual_structs-IsClosed : IsClosed mutual_structs
unfolding kind type_children
mutual_structs-IsClosed = record {
  well_formed = record {
    nonempty = omega arith;
    children = λ i k.
        All-get_elem? (λ k. All (λ c. c < 7) (type_children k)) arena.kinds i k (omega arith);
    variables = λ i v h. absurd (
        All-get_elem? (λ k. (v : ℕ) → k ≡ inference_variable v → ⊥) arena.kinds i
          (inference_variable v)
          (
            (λ v e. cc),
            (
              (λ v e. cc),
              ((λ v e. cc), ((λ v e. cc), ((λ v e. cc), ((λ v e. cc), ((λ v e. cc), tt))))),
            ),
          )
          h v refl);
    bound = λ v b h. cc;
  };
  nominal_closed = λ d tys h. fields_of-closed d;
  foreign_closed = λ d. tt;
}

-- From an empty cache the query of A answers, coherently and for good.
ownership_facts-Coherent_example :
    (f : OwnershipFacts) × (after : List (TypeId × OwnershipFacts)) × (ownership_facts
        mutual_structs [] 3
      ≡ some (f, record { cache = after; visiting = [] }))
    × Coherent f
    × All (λ e. Coherent e.1) after
    × ((t : TypeId) (x : OwnershipFacts)
        → lookup {V = OwnershipFacts} t [] ≡ some x
        → lookup t after ≡ some x)
    × (ownership_facts mutual_structs after 3 ≡ some (f, record { cache = after; visiting = [] }))
ownership_facts-Coherent_example =
    ownership_facts-Coherent mutual_structs mutual_structs-IsClosed [] 3 (omega arith) tt

send_of : Option (OwnershipFacts × QueryState) → Option CapabilityState
send_of none = none
send_of (some (f, _)) = some f.send

-- The answer of the query for `second` after a query for `first`.
asked : TypeId → TypeId → Option CapabilityState
asked first second = elim (ownership_facts mutual_structs [] first) [
  | none ↦ none
  | some (_, s) ↦ send_of (ownership_facts mutual_structs s.cache second)
]

-- B holds a reference to A, and A is not `Sync`: asked first, B is not `Send`.
send-b_first : send_of (ownership_facts mutual_structs [] 4) ≡ some absent
unfolding ownership_facts send_of facts resolve_inference resolve_from resolve_step kind
    cached_or_visit kind_facts nominal_facts aggregate facts_all lookup contains remove_one
    has_unsafe_capability_impl has_trait_impl conjunction disjunction conjoin disjoin seed
    reference_of primitive_facts raw_pointer_facts plain
send-b_first = refl

-- Asked after A, B is `Send`: while A was under visit B was given the optimistic seed of A, and
-- the cache keeps that answer.
send-b_after_a : asked 3 4 ≡ some present
unfolding asked ownership_facts send_of facts resolve_inference resolve_from resolve_step kind
    cached_or_visit kind_facts nominal_facts aggregate facts_all lookup contains remove_one
    has_unsafe_capability_impl has_trait_impl conjunction disjunction conjoin disjoin seed
    reference_of primitive_facts raw_pointer_facts plain
send-b_after_a = refl
