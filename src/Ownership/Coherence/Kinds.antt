-- ===== src/Ownership/Coherence/Kinds.antt =====
-- The arm of the query for each kind of type.
use elamite.Base.{
  ℕ, ◌<◌, ◌≡◌, refl, Bool, true, false, List, [], ◌∷◌, ◌++◌, All-left, All-last, map, some, All,
  length, if◌then◌else◌, Bool-cases, inl, inr,
}
use elamite.Types.{
  TypeKind, TypeId, type_children, error_type, never, primitive, Mutability, nominal, builtin,
  tuple, array, slice, reference, raw_pointer, function, trait_object, closure, foreign, alias,
  generic_parameter, self_type, inference_variable,
}
use elamite.Types.Resolve.{IsWellFormed}
use elamite.Capability.{OwnershipFacts, error_facts, conditional_facts, conjunction}
use elamite.Ownership.{
  Program, QueryState, ◌>>=◌, pure, Recursive, facts_all, aggregate, aggregate_of, builtin_class,
  nominal_facts, kind_facts, reference_of,
}
use elamite.Ownership.Coherence.Combine.{
  Coherent, plain-Coherent, conditional_facts-Coherent, raw_pointer_facts-Coherent,
  trait_object_facts-Coherent, reference_of-Coherent, primitive_facts-Coherent, generic-Coherent,
  closure-Coherent,
}
use elamite.Ownership.Coherence.Step.{
  Returns, Returns-bind, Returns-map, Returns-known, AllPost, IsGood, Extends, Post, Meets,
  facts_all-AllPost, aggregate-Post, builtin_facts-Post,
}

-- The tables name types of the arena only.
pub record IsClosed (p : Program) : Type 0 where
  pub well_formed : IsWellFormed p.types
  pub nominal_closed :
      (d : ℕ) (tys : List TypeId)
      → All (λ t. t < length p.types.kinds) tys
      → All (λ t. t < length p.types.kinds) (p.nominal_fields d tys)
  pub foreign_closed : (d : ℕ) → All (λ t. t < length p.types.kinds) (p.foreign_fields d)

module _ (p : Program) (closed : IsClosed p) where
  abbrev pub size : ℕ
  size = length p.types.kinds

  module _ (V : List TypeId) (rec : Recursive) (meets : Meets size V rec) where
    -- An answer that needs no recursive call.
    known :
        (f : OwnershipFacts) (s : QueryState)
        → Coherent f
        → IsGood V s
        → Returns (Post V s) (pure f s)
    known f s c g = (c, g, λ t x q. q)

    reference-Post :
        (m : Mutability) (target : TypeId) (s : QueryState)
        → target < size
        → IsGood V s
        → Returns (Post V s) ((rec target >>= λ f. pure (reference_of m f)) s)
    reference-Post m target s h g =
        Returns-bind _ (Post V s) (rec target s) _ (meets target s h g)
          λ f s' (_, g', e, _). (reference_of-Coherent m f, g', e)

    closure-Post :
        (captures : List TypeId) (s : QueryState)
        → All (λ t. t < size) captures
        → IsGood V s
        → Returns (Post V s) (
            (aggregate rec captures false false >>= λ f. facts_all rec captures >>= λ fs.
            pure (record f { clone = conjunction (map (λ x. x.clone) fs) }))
              s)
    unfolding aggregate facts_all
    closure-Post captures s h g =
        Returns-bind Known (Post V s) (aggregate rec captures false false s) _
          (Returns-bind (AllPost size V rec meets captures s) Known (facts_all rec captures s) _
            (facts_all-AllPost size V rec meets captures s h g)
            λ fs s₁ (cs, g₁, e₁, t₁). (fs, refl, cs, g₁, e₁, t₁ s₁ g₁ (λ t x q. q)))
          λ f s₁ (fs, same, cs, g₁, e₁, again).
            Returns-known (Post V s) (facts_all rec captures) _ s₁ fs s₁ again
              (rw same (closure-Coherent fs fs cs cs refl), g₁, e₁)
      where
        Known : OwnershipFacts → QueryState → Type 0
        Known f s' =
            (fs : List OwnershipFacts) × (f ≡ aggregate_of fs false false)
            × All Coherent fs
            × IsGood V s'
            × Extends s s'
            × (facts_all rec captures s' ≡ some (fs, s'))

    alias-Post :
        (target : TypeId) (s : QueryState)
        → target < size
        → IsGood V s
        → Returns (Post V s) (rec target s)
    alias-Post target s h g =
        Returns-map _ (Post V s) (rec target s) (meets target s h g)
          λ f s' (c, g', e, _). (c, g', e)

    nominal-Post :
        (ty : TypeId) (d : ℕ) (arguments : List TypeId) (s : QueryState)
        → All (λ t. t < size) arguments
        → IsGood V s
        → Returns (Post V s) (nominal_facts p rec ty d arguments s)
    unfolding nominal_facts
    nominal-Post ty d arguments s h g = elim (Bool-cases (p.is_trait_declaration d)) [
      | inl e ↦ rw e (known conditional_facts s conditional_facts-Coherent g)
      | inr e ↦
          rw e (aggregate-Post size V rec meets _ _ _ s (closed.nominal_closed d arguments h) g)
    ]

    foreign-Post :
        (d : ℕ) (complete : Bool) (s : QueryState)
        → IsGood V s
        → Returns (Post V s) (
            (if complete then aggregate rec (p.foreign_fields d) false false else pure error_facts)
              s)
    foreign-Post d true s g =
        aggregate-Post size V rec meets _ false false s (closed.foreign_closed d) g
    foreign-Post d false s g = known error_facts s (λ e. cc) g

    pub kind_facts-Post :
        (ty : TypeId) (k : TypeKind) (s : QueryState)
        → All (λ t. t < size) (type_children k)
        → IsGood V s
        → Returns (Post V s) (kind_facts p rec ty k s)
    unfolding kind_facts type_children
    kind_facts-Post ty error_type s h g = known error_facts s (λ e. cc) g
    kind_facts-Post ty never s h g = (plain-Coherent, g, (λ t x q. q))
    kind_facts-Post ty (primitive x) s h g = ((primitive_facts-Coherent x), g, (λ t x q. q))
    kind_facts-Post ty (nominal identity arguments) s h g =
        nominal-Post ty identity.declaration arguments s h g
    kind_facts-Post ty (builtin b arguments) s h g =
        builtin_facts-Post size V rec meets (builtin_class (p.builtin_name b)) arguments s h g
    kind_facts-Post ty (tuple elements) s h g =
        aggregate-Post size V rec meets elements false false s h g
    kind_facts-Post ty (array element _) s h g =
        aggregate-Post size V rec meets (element ∷ []) false false s h g
    kind_facts-Post ty (slice m element) s h g = reference-Post m element s h.0 g
    kind_facts-Post ty (reference m target) s h g = reference-Post m target s h.0 g
    kind_facts-Post ty (raw_pointer m target) s h g = (raw_pointer_facts-Coherent, g, (λ t x q. q))
    kind_facts-Post ty (function _ _ _ _ _) s h g = (plain-Coherent, g, (λ t x q. q))
    kind_facts-Post ty (trait_object t) s h g = ((trait_object_facts-Coherent p t), g, (λ t x q. q))
    kind_facts-Post ty (closure d captures parameters r) s h g =
        closure-Post captures s (All-left _ captures (parameters ++ r ∷ []) h) g
    kind_facts-Post ty (foreign identity complete) s h g =
        foreign-Post identity.declaration complete s g
    kind_facts-Post ty (alias d arguments target) s h g =
        alias-Post target s (All-last _ arguments target h) g
    kind_facts-Post ty (generic_parameter x) s h g = ((generic-Coherent p x), g, (λ t x q. q))
    kind_facts-Post ty (self_type _) s h g = (conditional_facts-Coherent, g, (λ t x q. q))
    kind_facts-Post ty (inference_variable _) s h g = known error_facts s (λ e. cc) g
